-- ===== src/Startup.antt =====
-- src/main.rs and `RecordUsageClient::new` of src/chain/usage.rs: the start of the router, as far as it
-- decides which key signs and whether usage is batched. Addresses of sockets, the servers and the
-- signals are left out.
pub mod Batching
use sparkl_router.Common.{
  ℕ, Bool, true, false, not, Option, none, some, List, [], Text, text_eq, ◌==◌, if◌then◌else◌, trim,
}
use sparkl_router.Config.{SettlementConfig, is_active}
use sparkl_router.Models.NodeId.{Hex}
use sparkl_router.Chain.RoleKey.{
  Signers, Disk, Network, Transaction, RecordUsageKeyMaterial, parse_signer, bootstrap, Booted,
}

module _ (h : Hex) (s : Signers h) where
  -- The signer of the client, if its address has the role.
  unfoldable pub new_client : Network h s → Text → Option s.Signer
  unfolding trim
  new_client n private_key = elim n.escrow [
    | none ↦ none
    | some escrow ↦
        if escrow == 0
        then none
        else if not n.url_is_valid
        then none
        else elim (parse_signer h s private_key) [
          | none ↦ none
          | some signer ↦ elim n.role [
            | none ↦ none
            | some role ↦ if not (role == s.address_of signer) then none else some signer
          ]
        ]
  ]

  -- The state when the servers start: the disk, what was sent, the settings, and the signer of the
  -- batcher if there is one.
  pub record Started : Type 0 where
    pub disk : Disk
    pub sent : List (Transaction h s)
    pub settlement : SettlementConfig
    pub usage_batcher : Option s.Signer

  abbrev pub batcher_of : Network h s → Bool → SettlementConfig → Option s.Signer
  batcher_of n chain_enabled settlement =
      if is_active chain_enabled settlement
      then new_client n settlement.record_usage_private_key
      else none

  -- `n` is what the chain answers to the bootstrap, and `later` what it answers to the client. `none` is
  -- the error that ends the process.
  unfoldable pub start :
      s.Signer → Bool → Disk → SettlementConfig → Network h s → Network h s → Option Started
  unfolding bootstrap new_client is_active
  start random chain_enabled d settlement n later =
      let booted =
        bootstrap h s random chain_enabled d settlement.record_usage_private_key
          settlement.registry_owner_private_key true n in
      if chain_enabled
      then elim booted.material [
        | none ↦ none
        | some key ↦
            let keyed = record settlement { record_usage_private_key = key.private_key_hex } in
            some (record {
              disk = booted.disk;
              sent = booted.sent;
              settlement = keyed;
              usage_batcher = batcher_of later true keyed;
            })
      ]
      else some (record {
        disk = d;
        sent = [];
        settlement = settlement;
        usage_batcher = batcher_of later false settlement;
      })
