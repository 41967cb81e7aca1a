-- ===== src/Chain/Session.antt =====
-- src/chain/session.rs: the session that the getter of the escrow contract returns. Bytes are
-- numbers; an address, a `FixedBytes<32>` and a word are numbers too, read big-endian. An error is
-- `none`; its message is left out.
pub mod Words
pub mod Decode
use sparkl_router.Common.{
  ℕ, suc, ◌+◌, ◌-◌, ◌*◌, ◌^◌, Bool, true, false, not, ◌&&◌, Option, none, some, List, [], ◌∷◌, ltb,
  leb, ◌==◌, if◌then◌else◌, length, take, drop, min, from_be,
}

pub record ChainSession : Type 0 where
  pub user : ℕ
  pub node_id : ℕ
  pub model_id : ℕ
  pub tier : ℕ
  pub locked_internal : ℕ
  pub usage_recorded : ℕ
  pub input_tokens_recorded : ℕ
  pub output_tokens_recorded : ℕ
  pub settled : Bool

abbrev pub is_open : ChainSession → Bool
is_open s = not (s.user == 0) && not s.settled

abbrev pub budget_exhausted : ChainSession → Bool
budget_exhausted s = leb s.locked_internal s.usage_recorded && ltb 0 s.locked_internal

infixl 5 ◌>>=◌
abbrev pub ◌>>=◌ {ℓ κ} : {A : Type ℓ} {B : Type κ} → Option A → (A → Option B) → Option B
none >>= f = none
some a >>= f = f a

-- The 32 bytes of a word, if the data has them.
unfoldable pub word : List ℕ → ℕ → Option (List ℕ)
word bytes index =
    if leb (index * 32 + 32) (length bytes) then some (take 32 (drop (index * 32) bytes)) else none

abbrev pub address_at : List ℕ → ℕ → Option ℕ
address_at bytes index = do w ← word bytes index; some (from_be (drop 12 w))

abbrev pub u256_at : List ℕ → ℕ → Option ℕ
u256_at bytes index = do w ← word bytes index; some (from_be w)

abbrev pub u64_at : List ℕ → ℕ → Option ℕ
u64_at bytes index = do w ← word bytes index; some (from_be (drop 24 w))

-- The last byte of a word.
abbrev pub byte_31 : List ℕ → ℕ
byte_31 w = from_be (take 1 (drop 31 w))

abbrev pub bool_at : List ℕ → ℕ → Option Bool
bool_at bytes index = do w ← word bytes index; some (not (byte_31 w == 0))

abbrev pub session_head_words : ℕ
session_head_words = 13

-- The static head behind the word offset, or at the start.
abbrev pub head_at : List ℕ → ℕ → Option (List ℕ)
head_at bytes offset =
    if offset == 32
    then if ltb (length bytes) (32 + session_head_words * 32) then none else some (drop 32 bytes)
    else if ltb (length bytes) (session_head_words * 32)
    then none
    else some bytes

unfoldable pub session_head_bytes : List ℕ → Option (List ℕ)
unfolding word
session_head_bytes bytes =
    if ltb (length bytes) 32 then none else (u256_at bytes 0 >>= λ offset. head_at bytes offset)

-- `u128::try_from(..).unwrap_or(u128::MAX)`
abbrev pub to_u128 : ℕ → ℕ
to_u128 v = min v (2 ^ 128 - 1)

-- The fields of a head, in the order of the source.
unfoldable pub decode_fields : List ℕ → Option ChainSession
unfolding word
decode_fields head = do
  user ← address_at head 0
  node_id ← u256_at head 1
  model_id ← u256_at head 2
  tier ← word head 3
  locked_internal ← u256_at head 4
  usage_recorded ← u256_at head 5
  input_tokens_recorded ← u64_at head 11
  output_tokens_recorded ← u64_at head 12
  settled ← bool_at head 10
  some (record {
    user = user;
    node_id = node_id;
    model_id = model_id;
    tier = byte_31 tier;
    locked_internal = to_u128 locked_internal;
    usage_recorded = to_u128 usage_recorded;
    input_tokens_recorded = input_tokens_recorded;
    output_tokens_recorded = output_tokens_recorded;
    settled = settled;
  })

unfoldable pub decode_session_head : List ℕ → Option ChainSession
unfolding session_head_bytes decode_fields
decode_session_head bytes = session_head_bytes bytes >>= decode_fields

-- The session of the contract: its address and the address of the chain's node as they are parsed, and
-- the bytes that the getter returns.
unfoldable pub fetch_session : Option ℕ → Bool → Option (List ℕ) → Option ChainSession
unfolding decode_session_head
fetch_session none url_is_valid raw = none
fetch_session (some escrow) url_is_valid raw =
    if escrow == 0 then none else if not url_is_valid then none else (raw >>= decode_session_head)
