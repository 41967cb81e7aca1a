-- ===== src/Consumer/Bearer/RoundTrip.antt =====
-- A token of a session is read back (src/consumer/bearer.rs).
use mathlib.Core.List.{append-nil}
use sparkl_router.Common.{
  ℕ, ◌^◌, ◌<◌, ◌≡◌, refl, ap, sym, ◌∙◌, true, Option, some, List, [], ◌∷◌, ◌++◌, arith, ◌==◌,
  length, length-append, take, take-append, Text, codes, trim, to_be, length-to_be, from_be-to_be,
}
use sparkl_router.Consumer.Bearer.{session_id_of, parse_sk_bearer, parse_authorization_header}

abbrev pub zeros24 : List ℕ
zeros24 =
    0 ∷ 0 ∷ 0 ∷ 0 ∷ 0 ∷ 0 ∷ 0 ∷ 0 ∷ 0 ∷ 0 ∷ 0 ∷ 0 ∷ 0 ∷ 0 ∷ 0 ∷ 0 ∷ 0 ∷ 0 ∷ 0 ∷ 0 ∷ 0 ∷ 0 ∷ 0 ∷ 0
    ∷ []

-- The 32 bytes of the session id, then the secret.
abbrev pub payload : ℕ → List ℕ → List ℕ
payload id secret = zeros24 ++ to_be 8 id ++ secret

session_id-payload :
    (id : ℕ) (secret : List ℕ)
    → id < 256 ^ 8
    → length secret ≡ 32
    → session_id_of (payload id secret) ≡ some id
unfolding session_id_of
session_id-payload id secret small size =
    let first : length (zeros24 ++ to_be 8 id) ≡ 32 = omega (arith, length-to_be 8 id) in
    let whole : (length (payload id secret) == 64) ≡ true =
      ground (arith, length-append (zeros24 ++ to_be 8 id) secret, length-to_be 8 id) in
    let prefix : take 32 (payload id secret) ≡ zeros24 ++ to_be 8 id =
      take-append (zeros24 ++ to_be 8 id) secret 32 first in
    let digits : take 8 (to_be 8 id) ≡ to_be 8 id =
      ap (take 8) (sym (append-nil (to_be 8 id)))
      ∙ take-append (to_be 8 id) [] 8 (length-to_be 8 id) in
    rw (whole, prefix, digits, from_be-to_be 8 id small) refl

-- Let `encode` be an inverse of the base58 decoder on the payload of a session id below 2^64 and a
-- secret of 32 bytes. Then the token that is made of them is parsed to the session id, and a header
-- with either spelling of the scheme is parsed as its trimmed token.
pub parse-token :
    (base58 : Text → Option (List ℕ)) (encode : List ℕ → Text) (id : ℕ) (secret : List ℕ)
    (token : Text)
    → id < 256 ^ 8
    → length secret ≡ 32
    → base58 (encode (payload id secret)) ≡ some (payload id secret)
    → (parse_sk_bearer base58 (codes "sk_" ++ encode (payload id secret)) ≡ some id)
      × (parse_authorization_header base58 (codes "Bearer " ++ token)
          ≡ parse_sk_bearer base58 (trim token))
      × (parse_authorization_header base58 (codes "bearer " ++ token)
          ≡ parse_sk_bearer base58 (trim token))
unfolding parse_sk_bearer parse_authorization_header
parse-token base58 encode id secret token small size inverse =
    (rw inverse (session_id-payload id secret small size), refl, refl)
