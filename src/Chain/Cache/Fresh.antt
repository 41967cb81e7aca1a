-- ===== src/Chain/Cache/Fresh.antt =====
-- What the cache of src/chain/mod.rs holds after any history of calls.
use sparkl_router.Common.{
  ℕ, ◌≡◌, ◌⊎◌, inl, inr, refl, Bool, true, false, Option, none, some, List, [], ◌∷◌, ◌==◌,
  if◌then◌else◌, Bool-cases, Option-cases, Map, lookup, insert, remove, nat_eq, lookup-insert,
  lookup-remove,
}
use sparkl_router.Chain.Session.{ChainSession, is_open}
use sparkl_router.Chain.Cache.{ChainVerifier, get_session, warm_session, evict_session}

-- The calls, with what the chain answers; an entry that expires is dropped like an evicted one.
pub data Call : Type 0 where
  gets : (id : ℕ) → Option ChainSession → Call
  warms : (id : ℕ) → Option ChainSession → Call
  evicts : (id : ℕ) → Call
  expires : (id : ℕ) → Call

unfoldable pub step : Call → ChainVerifier → ChainVerifier
unfolding get_session warm_session evict_session
step (gets id fetched) v = (get_session id fetched v).0
step (warms id fetched) v = warm_session id fetched v
step (evicts id) v = evict_session id v
step (expires id) v = evict_session id v

unfoldable pub run : List Call → ChainVerifier → ChainVerifier
unfolding step
run [] v = v
run (c ∷ cs) v = run cs (step c v)

-- The answers that the calls for a session came with since it was last evicted or expired.
abbrev pub answered1 : ℕ → Call → List ChainSession → List ChainSession
answered1 k (gets id (some s)) seen = if id == k then s ∷ seen else seen
answered1 k (warms id (some s)) seen = if id == k then s ∷ seen else seen
answered1 k (evicts id) seen = if id == k then [] else seen
answered1 k (expires id) seen = if id == k then [] else seen
answered1 k _ seen = seen

unfoldable pub answered : ℕ → List Call → List ChainSession → List ChainSession
answered k [] seen = seen
answered k (c ∷ cs) seen = answered k cs (answered1 k c seen)

abbrev pub IsIn : ChainSession → List ChainSession → Type 0
IsIn s [] = ⊥
IsIn s (r ∷ rs) = (s ≡ r) ⊎ IsIn s rs

-- A cached session is open, and among those that were answered.
abbrev pub IsFresh : List ChainSession → Option ChainSession → Type 0
IsFresh seen none = Unit {0}
IsFresh seen (some s) = (is_open s ≡ true) × IsIn s seen

insert-IsFresh :
    (k id : ℕ) (r : ChainSession) (seen : List ChainSession) (m : Map ℕ ChainSession)
    → is_open r ≡ true
    → IsFresh seen (lookup k m)
    → IsFresh (if id == k then r ∷ seen else seen) (lookup k (insert id r m))
insert-IsFresh k id r seen m fresh h = elim (Bool-cases (id == k)) [
  | inl e ↦ rw (lookup-insert id k r m, e) (fresh, inl refl)
  | inr e ↦ rw (lookup-insert id k r m, e) h
]

more-IsFresh :
    (b : Bool) (r : ChainSession) (seen : List ChainSession) (o : Option ChainSession)
    → IsFresh seen o
    → IsFresh (if b then r ∷ seen else seen) o
more-IsFresh true r seen none h = tt
more-IsFresh true r seen (some s) h = (h.0, inr h.1)
more-IsFresh false r seen o h = h

remove-IsFresh :
    (k id : ℕ) (seen : List ChainSession) (m : Map ℕ ChainSession)
    → IsFresh seen (lookup k m)
    → IsFresh (if id == k then [] else seen) (lookup k (remove id m))
remove-IsFresh k id seen m h = elim (Bool-cases (id == k)) [
  | inl e ↦ rw (lookup-remove id k m, e) tt
  | inr e ↦ rw (lookup-remove id k m, e) h
]

warm-IsFresh :
    (k id : ℕ) (r : ChainSession) (seen : List ChainSession) (v : ChainVerifier)
    → IsFresh seen (lookup k v.cache)
    → IsFresh
        (if id == k then r ∷ seen else seen)
        (lookup k (if is_open r then record { cache = insert id r v.cache } else v).cache)
warm-IsFresh k id r seen v h = elim (Bool-cases (is_open r)) [
  | inl e ↦ rw e (insert-IsFresh k id r seen v.cache e h)
  | inr e ↦ rw e (more-IsFresh (id == k) r seen (lookup k v.cache) h)
]

step-IsFresh :
    (k : ℕ) (c : Call) (seen : List ChainSession) (v : ChainVerifier)
    → IsFresh seen (lookup k v.cache)
    → IsFresh (answered1 k c seen) (lookup k (step c v).cache)
unfolding step
step-IsFresh k (gets id none) seen v h = elim (Option-cases (lookup id v.cache)) [
  | inl e ↦ rw (e, step) h
  | inr (s, e) ↦ rw (e, step) h
]
step-IsFresh k (gets id (some r)) seen v h = elim (Option-cases (lookup id v.cache)) [
  | inl e ↦ rw (e, step) (warm-IsFresh k id r seen v h)
  | inr (s, e) ↦ rw (e, step) (more-IsFresh (id == k) r seen (lookup k v.cache) h)
]
step-IsFresh k (warms id none) seen v h = h
step-IsFresh k (warms id (some r)) seen v h = warm-IsFresh k id r seen v h
step-IsFresh k (evicts id) seen v h = remove-IsFresh k id seen v.cache h
step-IsFresh k (expires id) seen v h = remove-IsFresh k id seen v.cache h

run_from-IsFresh :
    (k : ℕ) (cs : List Call) (seen : List ChainSession) (v : ChainVerifier)
    → IsFresh seen (lookup k v.cache)
    → IsFresh (answered k cs seen) (lookup k (run cs v).cache)
unfolding run answered
run_from-IsFresh k [] seen v h = h
run_from-IsFresh k (c ∷ cs) seen v h =
    run_from-IsFresh k cs (answered1 k c seen) (step c v) (step-IsFresh k c seen v h)

-- After any history of calls, evictions and expirations from an empty cache, a session that is cached
-- is open as it was read, and it is one of the answers that the calls for its id came with since the id
-- was last evicted or expired.
pub run-IsFresh :
    (k : ℕ) (cs : List Call)
    → IsFresh (answered k cs []) (lookup k (run cs (record { cache = [] })).cache)
unfolding lookup
run-IsFresh k cs = run_from-IsFresh k cs [] (record { cache = [] }) tt
