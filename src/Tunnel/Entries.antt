-- ===== src/Tunnel/Entries.antt =====
-- Which entries of `pending` hold the channel of a request (src/tunnel/dispatch.rs).
use sparkl_router.Common.{
  ℕ, ◌≡◌, ◌≢◌, refl, ◌⊎◌, inl, inr, none, some, [], ◌∷◌, arith, Map, lookup, remove, nat_eq,
}

-- No entry has the id or the channel.
abbrev pub Free : ℕ → ℕ → Map ℕ ℕ → Type 0
Free r c [] = Unit {0}
Free r c ((k, v) ∷ m) = (k ≢ r) × (v ≢ c) × Free r c m

-- Exactly one entry has the id, and exactly that one the channel.
abbrev pub Owns : ℕ → ℕ → Map ℕ ℕ → Type 0
Owns r c [] = ⊥
Owns r c ((k, v) ∷ m) = ((k ≡ r) × (v ≡ c) × Free r c m) ⊎ ((k ≢ r) × (v ≢ c) × Owns r c m)

pub Free-lookup : (r c : ℕ) (m : Map ℕ ℕ) → Free r c m → lookup r m ≡ none
unfolding lookup
Free-lookup r c [] h = refl
Free-lookup r c ((k, v) ∷ m) h = ground (arith, Free-lookup r c m h.2)

pub Free-ne : (r c k v : ℕ) (m : Map ℕ ℕ) → Free r c m → lookup k m ≡ some v → v ≢ c
unfolding lookup
Free-ne r c k v [] h e = absurd (ground arith)
Free-ne r c k v ((j, w) ∷ m) h e = ground (arith, Free-ne r c k v m h.2)

pub Free-remove : (r c k : ℕ) (m : Map ℕ ℕ) → Free r c m → Free r c (remove k m)
unfolding remove
Free-remove r c k [] h = tt
Free-remove r c k ((j, w) ∷ m) h = ground (arith, Free-remove r c k m h.2)

pub Owns-lookup : (r c : ℕ) (m : Map ℕ ℕ) → Owns r c m → lookup r m ≡ some c
unfolding lookup
Owns-lookup r c [] h = absurd h
Owns-lookup r c ((k, v) ∷ m) (inl h) = ground arith
Owns-lookup r c ((k, v) ∷ m) (inr h) = ground (arith, Owns-lookup r c m h.2)

pub Owns-ne : (r c k v : ℕ) (m : Map ℕ ℕ) → Owns r c m → k ≢ r → lookup k m ≡ some v → v ≢ c
unfolding lookup
Owns-ne r c k v [] h d e = absurd h
Owns-ne r c k v ((j, w) ∷ m) (inl h) d e = ground (arith, Free-ne r c k v m h.2)
Owns-ne r c k v ((j, w) ∷ m) (inr h) d e = ground (arith, Owns-ne r c k v m h.2 d)

pub Owns-remove : (r c k : ℕ) (m : Map ℕ ℕ) → Owns r c m → k ≢ r → Owns r c (remove k m)
unfolding remove
Owns-remove r c k [] h d = h
Owns-remove r c k ((j, w) ∷ m) (inl h) d = ground (arith, Free-remove r c k m h.2)
Owns-remove r c k ((j, w) ∷ m) (inr h) d = ground (arith, Owns-remove r c k m h.2 d)

pub Owns-remove_self : (r c : ℕ) (m : Map ℕ ℕ) → Owns r c m → Free r c (remove r m)
unfolding remove
Owns-remove_self r c [] h = absurd h
Owns-remove_self r c ((j, w) ∷ m) (inl h) = ground (arith, Free-remove r c r m h.2)
Owns-remove_self r c ((j, w) ∷ m) (inr h) = ground (arith, Owns-remove_self r c m h.2)
