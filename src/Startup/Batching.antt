-- ===== src/Startup/Batching.antt =====
-- src/main.rs: when usage is batched, and with whose signature.
use sparkl_router.Common.{
  some-inj, ◌≡◌, refl, sym, ap, ◌∙◌, inl, inr, Bool, true, false, none, some, Bool-cases,
  Option-cases, Text, ◌==◌, ==_iff, arith, subst,
}
use sparkl_router.Config.{SettlementConfig, is_active}
use sparkl_router.Models.NodeId.{Hex}
use sparkl_router.Chain.RoleKey.{Signers, Disk, Network, parse_signer, bootstrap}
use sparkl_router.Startup.{new_client, Started, batcher_of, start}

module _ (h : Hex) (s : Signers h) where
  -- A client signs with its key, and only if the address of the key has the role.
  new_client-role :
      (n : Network h s) (key : Text) (signer : s.Signer)
      → new_client h s n key ≡ some signer
      → (parse_signer h s key ≡ some signer) × (n.role ≡ some (s.address_of signer))
  unfolding new_client
  new_client-role n key signer e = elim (Option-cases n.escrow) [
    | inl x ↦ absurd (ground (arith, e, x))
    | inr (escrow, x) ↦ elim (Bool-cases (escrow == 0)) [
      | inl z ↦ absurd (ground (arith, e, x, z))
      | inr z ↦ elim (Bool-cases n.url_is_valid) [
        | inr u ↦ absurd (ground (arith, e, x, z, u))
        | inl u ↦ elim (Option-cases (parse_signer h s key)) [
          | inl p ↦ absurd (ground (arith, e, x, z, u, p))
          | inr (k, p) ↦ elim (Option-cases n.role) [
            | inl r ↦ absurd (ground (arith, e, x, z, u, p, r))
            | inr (role, r) ↦ elim (Bool-cases (role == s.address_of k)) [
              | inr b ↦ absurd (ground (arith, e, x, z, u, p, r, b))
              | inl b ↦
                  let same : k ≡ signer = some-inj (ground (arith, e, x, z, u, p, r, b)) in
                  (
                    p ∙ ap some same,
                    r ∙ ap some ((==_iff role (s.address_of k)).0 b ∙ ap s.address_of same),
                  )
            ]
          ]
        ]
      ]
    ]
  ]

  batcher_of-role :
      (n : Network h s) (chain_enabled : Bool) (settlement : SettlementConfig) (signer : s.Signer)
      → batcher_of h s n chain_enabled settlement ≡ some signer
      → (is_active chain_enabled settlement ≡ true)
        × ((parse_signer h s settlement.record_usage_private_key ≡ some signer)
            × (n.role ≡ some (s.address_of signer)))
  batcher_of-role n chain_enabled settlement signer e =
      elim (Bool-cases (is_active chain_enabled settlement)) [
        | inl a ↦
            (a, new_client-role n settlement.record_usage_private_key signer (ground (arith, e, a)))
        | inr a ↦ absurd (ground (arith, e, a))
      ]

  start_batcher :
      (random : s.Signer) (chain_enabled : Bool) (d : Disk) (settlement : SettlementConfig)
      (n later : Network h s) (t : Started h s)
      → start h s random chain_enabled d settlement n later ≡ some t
      → t.usage_batcher ≡ batcher_of h s later chain_enabled t.settlement
  unfolding start
  start_batcher random false d settlement n later t e = sym (ap (λ x. x.usage_batcher) (some-inj e))
  start_batcher random true d settlement n later t e =
      elim (Option-cases
        (bootstrap h s random true d settlement.record_usage_private_key
          settlement.registry_owner_private_key true n).material) [
            | inl x ↦ let wrong : none ≡ some t = rw x at e in absurd (cc)
            | inr (key, x) ↦
                subst (λ y. y.usage_batcher ≡ batcher_of h s later true y.settlement)
                  (some-inj (rw x at e)) refl
          ]

  -- If the router starts with usage batched, then the chain and the settlement are enabled, the signer
  -- of the batches is the one that the key of the settings gives, and its address has the role that the
  -- contract names.
  pub start-role :
      (random signer : s.Signer) (chain_enabled : Bool) (d : Disk) (settlement : SettlementConfig)
      (n later : Network h s) (t : Started h s)
      → start h s random chain_enabled d settlement n later ≡ some t
      → t.usage_batcher ≡ some signer
      → (is_active chain_enabled t.settlement ≡ true)
        × ((parse_signer h s t.settlement.record_usage_private_key ≡ some signer)
            × (later.role ≡ some (s.address_of signer)))
  start-role random signer chain_enabled d settlement n later t e b =
      batcher_of-role later chain_enabled t.settlement signer
        (sym (start_batcher random chain_enabled d settlement n later t e) ∙ b)
