-- ===== src/Consumer/Bearer.antt =====
-- src/consumer/bearer.rs: the bearer token of a consumer. `base58` stands for `bs58::decode`; an error
-- is `none`, its message left out.
pub mod RoundTrip
use sparkl_router.Common.{
  ℕ, Bool, true, false, not, ◌&&◌, Option, none, some, List, [], ◌∷◌, ◌==◌, if◌then◌else◌, length,
  take, drop, Text, codes, strip_prefix, trim, from_be,
}
use sparkl_router.Chain.Session.{◌>>=◌}

abbrev pub all_zero : List ℕ → Bool
all_zero [] = true
all_zero (b ∷ bs) = (b == 0) && all_zero bs

-- The session id that the 64 bytes of a token begin with.
unfoldable pub session_id_of : List ℕ → Option ℕ
session_id_of bytes =
    if not (length bytes == 64)
    then none
    else let session_bytes = take 32 bytes in
      if not (all_zero (take 24 session_bytes))
      then none
      else some (from_be (take 8 (drop 24 session_bytes)))

module _ (base58 : Text → Option (List ℕ)) where
  unfoldable pub parse_sk_bearer : Text → Option ℕ
  unfolding session_id_of
  parse_sk_bearer token = do
    raw ← strip_prefix (codes "sk_") token
    bytes ← base58 raw
    session_id_of bytes

  unfoldable pub parse_authorization_header : Text → Option ℕ
  unfolding parse_sk_bearer trim
  parse_authorization_header authz = elim (strip_prefix (codes "Bearer ") authz) [
    | some token ↦ parse_sk_bearer (trim token)
    | none ↦ elim (strip_prefix (codes "bearer ") authz) [
      | some token ↦ parse_sk_bearer (trim token)
      | none ↦ none
    ]
  ]
