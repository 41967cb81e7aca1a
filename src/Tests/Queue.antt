-- ===== src/Tests/Queue.antt =====
-- A bounded queue that has every law of the channels (Mpsc.antt).
use sparkl_router.Common.{
  ℕ, ◌≤◌, ◌<◌, ◌≡◌, refl, Bool, true, false, ◌&&◌, Option, none, some, List, [], ◌∷◌, ◌++◌, arith,
  ltb, if◌then◌else◌, length,
}
use sparkl_router.Mpsc.{Mpsc}

pub record Queue (A : Type 0) : Type 0 where
  pub items : List A
  pub size : ℕ
  pub is_open : Bool

abbrev pub try_push : {A : Type 0} → A → Queue A → Option (Queue A)
try_push a c =
    if c.is_open && ltb (length c.items) c.size
    then some (record c { items = c.items ++ a ∷ [] })
    else none

abbrev pub pop : {A : Type 0} → Queue A → Option (A × Queue A)
pop c = elim c.items [ [] ↦ none | a ∷ rest ↦ some (a, record c { items = rest }) ]

pub push-sent :
    {A : Type 0} (a : A) (c d : Queue A)
    → try_push a c ≡ some d
    → (d.items ≡ c.items ++ a ∷ []) × (d.size ≡ c.size) × (d.is_open ≡ c.is_open)
push-sent a c d h = ground arith

pub push-room :
    {A : Type 0} (a : A) (c : Queue A)
    → c.is_open ≡ true
    → length c.items < c.size
    → (d : Queue A) × (try_push a c ≡ some d)
push-room a c h room = (record c { items = c.items ++ a ∷ [] }, ground arith)

pub pop-some :
    {A : Type 0} (c : Queue A) (a : A) (d : Queue A)
    → pop c ≡ some (a, d)
    → (c.items ≡ a ∷ d.items) × (d.size ≡ c.size) × (d.is_open ≡ c.is_open)
pop-some c a d h = ground arith

pub pop-none : {A : Type 0} (c : Queue A) → pop c ≡ none → c.items ≡ []
pop-none c h = ground arith

pub push-full : {A : Type 0} (a : A) (c : Queue A) → c.size ≤ length c.items → try_push a c ≡ none
push-full a c h = ground arith

abbrev pub queue : (A : Type 0) → Mpsc A
queue A = record {
  Chan = Queue A;
  channel = λ n. record { items = []; size = n; is_open = true };
  try_send = try_push;
  recv = pop;
  close = λ c. record c { is_open = false };
  contents = λ c. c.items;
  bound = λ c. c.size;
  rx_open = λ c. c.is_open;
  channel_fresh = λ n. (refl, refl, refl);
  try_send_sent = push-sent;
  try_send_room = push-room;
  try_send_full = push-full;
  recv_some = pop-some;
  recv_none = pop-none;
}
