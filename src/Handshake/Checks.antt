-- ===== src/Handshake/Checks.antt =====
-- What a node that is let in has shown (src/tunnel/connect.rs).
use sparkl_router.Common.{
  ℕ, ◌≡◌, ◌⊎◌, ◌↔◌, inl, inr, refl, ap, ◌∙◌, Bool, true, false, Option, some, List, arith, Text,
  Option-cases, Bool-cases,
}
use sparkl_router.Protocol.{NodeToRouterFrame}
use sparkl_router.Handshake.{
  connect_challenge_payload, verify_connect_signature, parse_node_id_hex, decode_pubkey,
  normalize_tunnel_moniker, check_registered, handle_node_connect,
}

registered_passes :
    (enabled : Bool) (registered : ℕ → Option Bool) (id : ℕ)
    → (enabled ≡ false) ⊎ (registered id ≡ some true)
    → check_registered enabled registered id ≡ true
registered_passes enabled registered id h = ground arith

module _ (hex : Text → Option (List ℕ)) (keccak : List ℕ → List ℕ)
    (verify : List ℕ → List ℕ → List ℕ → Bool) (chain_enabled : Bool) (registered : ℕ → Option Bool)
    (nonce : List ℕ) (block : ℕ) {V : Type 0} where
  -- The evidence in a frame for a node id and a label.
  pub record IsShown (frame : Option (NodeToRouterFrame V)) (id : ℕ) (label : Option Text)
      : Type 0 where
    pub node_id : Text
    pub signature : Text
    pub hex_pk : Text
    pub moniker : Option Text
    pub key : List ℕ
    pub is_auth : frame ≡ some (NodeToRouterFrame.auth node_id signature (some hex_pk) moniker)
    pub id_parsed : parse_node_id_hex hex node_id ≡ some id
    pub key_parsed : decode_pubkey hex hex_pk ≡ some key
    pub signed :
        verify_connect_signature hex keccak verify
          (connect_challenge_payload hex keccak verify nonce block)
          signature
          key
        ≡ true
    pub labelled : normalize_tunnel_moniker moniker ≡ some label
    pub on_chain : (chain_enabled ≡ false) ⊎ (registered id ≡ some true)

  auth-IsShown :
      (node_id signature hex_pk : Text) (moniker : Option Text) (id : ℕ) (label : Option Text)
      → handle_node_connect hex keccak verify {V = V} chain_enabled registered nonce block
          (some (NodeToRouterFrame.auth node_id signature (some hex_pk) moniker))
        ≡ some (id, label)
      → IsShown (some (NodeToRouterFrame.auth node_id signature (some hex_pk) moniker)) id label
  unfolding handle_node_connect
  auth-IsShown node_id signature hex_pk moniker id label h =
      elim (Option-cases (parse_node_id_hex hex node_id)) [
        | inl e ↦ absurd (ground (arith, e))
        | inr (i, e) ↦ elim (Option-cases (decode_pubkey hex hex_pk)) [
          | inl f ↦ absurd (ground (arith, e, f))
          | inr (key, f) ↦
              elim (Bool-cases (
                verify_connect_signature hex keccak verify
                  (connect_challenge_payload hex keccak verify nonce block) signature key)) [
                    | inr g ↦ absurd (ground (arith, e, f, g))
                    | inl g ↦ elim (Option-cases (normalize_tunnel_moniker moniker)) [
                      | inl m ↦ absurd (ground (arith, e, f, g, m))
                      | inr (l, m) ↦
                          elim (Bool-cases (check_registered chain_enabled registered i)) [
                            | inr c ↦ absurd (ground (arith, e, f, g, m, c))
                            | inl c ↦
                                let same_id : i ≡ id = ground (arith, e, f, g, m, c) in
                                let same_label : l ≡ label = ground (arith, e, f, g, m, c) in
                                record {
                                  node_id = node_id;
                                  signature = signature;
                                  hex_pk = hex_pk;
                                  moniker = moniker;
                                  key = key;
                                  is_auth = refl;
                                  id_parsed = e ∙ ap some same_id;
                                  key_parsed = f;
                                  signed = g;
                                  labelled = m ∙ ap some same_label;
                                  on_chain = ground (arith, c, same_id);
                                }
                          ]
                    ]
                  ]
        ]
      ]

  sound :
      (frame : Option (NodeToRouterFrame V)) (id : ℕ) (label : Option Text)
      → handle_node_connect hex keccak verify chain_enabled registered nonce block frame
        ≡ some (id, label)
      → IsShown frame id label
  unfolding handle_node_connect
  sound (some (NodeToRouterFrame.auth node_id signature (some hex_pk) moniker)) id label h =
      auth-IsShown node_id signature hex_pk moniker id label h
  sound _ id label h = absurd (ground arith)

  complete :
      (frame : Option (NodeToRouterFrame V)) (id : ℕ) (label : Option Text)
      → IsShown frame id label
      → handle_node_connect hex keccak verify chain_enabled registered nonce block frame
        ≡ some (id, label)
  unfolding handle_node_connect
  complete frame id label s =
      rw
        (
          s.is_auth,
          handle_node_connect,
          s.id_parsed,
          s.key_parsed,
          s.signed,
          s.labelled,
          registered_passes chain_enabled registered id s.on_chain,
        )
        refl

  -- A tunnel is opened for a node id and a label exactly if the first frame is an auth frame whose
  -- node id text is that id, whose public key text decodes to a key that verifies the signature over
  -- the hash of the nonce and the block, and whose moniker is normalized to the label, and if the
  -- registry knows the id or the chain is disabled. The public key may belong to any id.
  pub handle_node_connect_iff :
      (frame : Option (NodeToRouterFrame V)) (id : ℕ) (label : Option Text)
      → (handle_node_connect hex keccak verify chain_enabled registered nonce block frame
          ≡ some (id, label))
        ↔ IsShown frame id label
  handle_node_connect_iff frame id label = (sound frame id label, complete frame id label)
