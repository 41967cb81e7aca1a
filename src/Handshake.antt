-- ===== src/Handshake.antt =====
-- src/tunnel/connect.rs and src/node_auth.rs: what a node must show before its tunnel is opened. The
-- decoder of hexadecimal texts, the hash and the Ed25519 verifier are parameters. A refusal, which
-- closes the socket, is `none`.
pub mod Checks
use sparkl_router.Common.{
  ℕ, Bool, true, false, not, ◌&&◌, Option, none, some, List, [], ◌∷◌, ◌++◌, ltb, ◌==◌,
  if◌then◌else◌, length, Text, codes, strip_prefix, trim, from_be, to_be,
}
use sparkl_router.Protocol.{NodeToRouterFrame}
use sparkl_router.Chain.Session.{◌>>=◌}

abbrev pub connect_domain : Text
connect_domain = codes "sparkl-router-connect:"

-- What the challenge hashes; an `u64` is 8 bytes.
abbrev pub connect_preimage : List ℕ → ℕ → List ℕ
connect_preimage nonce block = connect_domain ++ nonce ++ to_be 8 block

-- `s.trim().strip_prefix("0x").unwrap_or(s.trim())`
abbrev pub without_0x : Text → Text
without_0x s = elim (strip_prefix (codes "0x") s) [ some t ↦ t | none ↦ s ]

-- `s.trim_start_matches("0x")`
unfoldable pub without_0xs : Text → Text
without_0xs [] = []
without_0xs (c ∷ []) = c ∷ []
without_0xs (c ∷ d ∷ s) =
    let rest = without_0xs s in if (c == 48) && (d == 120) then rest else c ∷ d ∷ s

abbrev pub max_moniker_len : ℕ
max_moniker_len = 128

abbrev pub short_moniker : Text → Option (Option Text)
short_moniker [] = some none
short_moniker (c ∷ m) = if ltb max_moniker_len (length (c ∷ m)) then none else some (some (c ∷ m))

unfoldable pub normalize_tunnel_moniker : Option Text → Option (Option Text)
unfolding trim
normalize_tunnel_moniker none = some none
normalize_tunnel_moniker (some s) = short_moniker (trim s)

-- The bytes, if there are as many as asked for.
abbrev pub sized : ℕ → List ℕ → Option (List ℕ)
sized n bytes = if not (length bytes == n) then none else some bytes

-- `registered` is what the registry contract answers.
abbrev pub check_registered : Bool → (ℕ → Option Bool) → ℕ → Bool
check_registered chain_enabled registered id =
    if chain_enabled then elim (registered id) [ none ↦ false | some r ↦ r ] else true

module _ (hex : Text → Option (List ℕ)) where
  unfoldable pub parse_node_id_hex : Text → Option ℕ
  unfolding trim
  parse_node_id_hex node_id = do
    bytes ← hex (without_0x (trim node_id))
    id ← sized 32 bytes
    some (from_be id)

  unfoldable pub decode_pubkey : Text → Option (List ℕ)
  unfolding trim
  decode_pubkey hex_pk = do bytes ← hex (without_0x (trim hex_pk)); sized 32 bytes

module _ (hex : Text → Option (List ℕ)) (keccak : List ℕ → List ℕ)
    (verify : List ℕ → List ℕ → List ℕ → Bool) where
  abbrev pub connect_challenge_payload : List ℕ → ℕ → List ℕ
  connect_challenge_payload nonce block = keccak (connect_preimage nonce block)

  -- `verify key payload signature`; a key that is none is refused by it.
  unfoldable pub verify_connect_signature : List ℕ → Text → List ℕ → Bool
  unfolding without_0xs
  verify_connect_signature payload signature key = elim (hex (without_0xs signature)) [
    | none ↦ false
    | some bytes ↦ (length bytes == 64) && verify key payload bytes
  ]

  unfoldable pub handle_node_connect :
      {V : Type 0}
      → Bool
      → (ℕ → Option Bool)
      → List ℕ
      → ℕ
      → Option (NodeToRouterFrame V)
      → Option (ℕ × Option Text)
  unfolding verify_connect_signature parse_node_id_hex decode_pubkey normalize_tunnel_moniker
  handle_node_connect chain_enabled registered nonce block
        (some (NodeToRouterFrame.auth node_id signature (some hex_pk) moniker)) =
      do
        id ← parse_node_id_hex hex node_id
        key ← decode_pubkey hex hex_pk
        label ←
            if verify_connect_signature (connect_challenge_payload nonce block) signature key
            then normalize_tunnel_moniker moniker
            else none
        if check_registered chain_enabled registered id then some (id, label) else none
  handle_node_connect chain_enabled registered nonce block _ = none
