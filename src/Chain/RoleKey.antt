-- ===== src/Chain/RoleKey.antt =====
-- src/chain/record_usage_key.rs: the key that signs the recording of usage, which is read from the
-- configuration or from a file, or made anew; then its role and its gas on the chain. What `alloy` and
-- `serde` do with keys and with the file's text is an interface; an error is `none`.
pub mod Reload
use sparkl_router.Common.{
  ℕ, ◌≡◌, ◌*◌, ◌^◌, Bool, true, false, not, Option, none, some, List, [], ◌∷◌, ◌++◌, Text, codes,
  text_eq, leb, ◌==◌, if◌then◌else◌, trim,
}
use sparkl_router.Models.NodeId.{Hex}

pub record StoredRecordUsageKey : Type 0 where
  pub private_key : Text
  pub address : ℕ

pub record RecordUsageKeyMaterial : Type 0 where
  pub private_key_hex : Text
  pub address : ℕ
  pub generated : Bool

-- `PrivateKeySigner`, and the JSON of a stored key.
pub record Signers (h : Hex) : Type 1 where
  pub Signer : Type 0
  pub parse : Text → Option Signer
  pub to_bytes : Signer → List ℕ
  pub address_of : Signer → ℕ
  pub to_vec_pretty : StoredRecordUsageKey → Text
  pub from_slice : Text → Option StoredRecordUsageKey
  pub parse_written : (s : Signer) → parse (codes "0x" ++ h.encode (to_bytes s)) ≡ some s
  pub from_slice_to_vec : (k : StoredRecordUsageKey) → from_slice (to_vec_pretty k) ≡ some k

-- The data directory: whether it can be made, the key file, whether it can be read and written, and
-- whether only the owner may read it.
pub record Disk : Type 0 where
  pub can_create : Bool
  pub can_read : Bool
  pub can_write : Bool
  pub key_file : Option Text
  pub is_private : Bool

-- `parent` and `join` are those of `Path`.
unfoldable pub resolve_data_dir : (Text → Option Text) → (Text → Text → Text) → Text → Text → Text
unfolding trim
resolve_data_dir parent join config_path configured =
    if not (text_eq (trim configured) [])
    then trim configured
    else join (elim (parent config_path) [ none ↦ codes "." | some dir ↦ dir ]) (codes "data")

module _ (h : Hex) (s : Signers h) where
  abbrev pub parse_signer : Text → Option s.Signer
  parse_signer hex_key = s.parse (trim hex_key)

  abbrev pub signer_to_hex : s.Signer → Text
  signer_to_hex signer = codes "0x" ++ h.encode (s.to_bytes signer)

  abbrev pub material_of : s.Signer → Bool → RecordUsageKeyMaterial
  material_of signer generated = record {
    private_key_hex = signer_to_hex signer;
    address = s.address_of signer;
    generated = generated;
  }

  unfoldable pub persist_key_file : RecordUsageKeyMaterial → Disk → Option Disk
  persist_key_file material d =
      if d.can_write
      then some (record d {
        key_file = some (
            s.to_vec_pretty
              (record { private_key = material.private_key_hex; address = material.address }));
        is_private = true;
      })
      else none

  -- The key is returned only if it could be written.
  abbrev pub persisted : RecordUsageKeyMaterial → Disk → Disk × Option RecordUsageKeyMaterial
  persisted material d = elim (persist_key_file material d) [
    | none ↦ (d, none)
    | some written ↦ (written, some material)
  ]

  abbrev pub stored_signer : Text → Option s.Signer
  stored_signer text = elim (s.from_slice text) [
    | none ↦ none
    | some stored ↦ parse_signer stored.private_key
  ]

  -- `random` is the key that `PrivateKeySigner::random` would make.
  unfoldable pub load_or_generate : s.Signer → Disk → Text → Disk × Option RecordUsageKeyMaterial
  unfolding persist_key_file
  load_or_generate random d config_inline_key =
      if not d.can_create
      then (d, none)
      else if not (text_eq (trim config_inline_key) [])
      then elim (parse_signer (trim config_inline_key)) [
        | none ↦ (d, none)
        | some signer ↦ persisted (material_of signer false) d
      ]
      else elim d.key_file [
        | none ↦ persisted (material_of random true) d
        | some text ↦ if not d.can_read then (d, none) else elim (stored_signer text) [
          | none ↦ (d, none)
          | some signer ↦ (d, some (material_of signer false))
        ]
      ]

  pub data Transaction : Type 0 where
    set_record_usage : (owner : s.Signer) (role : ℕ) → Transaction
    top_up : (owner : s.Signer) (to value : ℕ) → Transaction

  -- What the chain and its node answer.
  pub record Network : Type 0 where
    pub escrow : Option ℕ
    pub url_is_valid : Bool
    pub role : Option ℕ
    pub balance : Option ℕ
    pub role_sent : Bool
    pub role_confirmed : Bool
    pub gas_sent : Bool
    pub gas_confirmed : Bool

  -- What was sent, and whether it is no error.
  unfoldable pub ensure_record_usage_role : Network → ℕ → Text → List Transaction × Bool
  unfolding trim
  ensure_record_usage_role n role_address owner_key = elim n.escrow [
    | none ↦ ([], false)
    | some escrow ↦
        if escrow == 0
        then ([], true)
        else if not n.url_is_valid
        then ([], false)
        else elim n.role [
          | none ↦ ([], true)
          | some on_chain ↦
              if on_chain == role_address
              then ([], true)
              else if text_eq (trim owner_key) []
              then ([], true)
              else elim (parse_signer (trim owner_key)) [
                | none ↦ ([], false)
                | some owner ↦
                    if n.role_sent
                    then (set_record_usage owner role_address ∷ [], n.role_confirmed)
                    else ([], false)
              ]
        ]
  ]

  abbrev pub min_balance_wei : ℕ
  min_balance_wei = 10 ^ 16

  abbrev pub top_up_wei : ℕ
  top_up_wei = 10 ^ 17

  unfoldable pub ensure_record_usage_gas_funded : Network → ℕ → Text → List Transaction × Bool
  unfolding trim
  ensure_record_usage_gas_funded n role_address owner_key =
      if not n.url_is_valid then ([], false) else elim n.balance [
        | none ↦ ([], false)
        | some balance ↦
            if leb min_balance_wei balance
            then ([], true)
            else if text_eq (trim owner_key) []
            then ([], true)
            else elim (parse_signer (trim owner_key)) [
              | none ↦ ([], false)
              | some owner ↦
                  if n.gas_sent
                  then (top_up owner role_address top_up_wei ∷ [], n.gas_confirmed)
                  else ([], false)
            ]
      ]

  -- The role, then the gas, in which an error of the first stops the second.
  unfoldable pub register_key : Network → ℕ → Text → List Transaction × Bool
  unfolding ensure_record_usage_role ensure_record_usage_gas_funded
  register_key n role_address owner_key =
      let (sent, ok) = ensure_record_usage_role n role_address owner_key in
      let (funded, paid) = ensure_record_usage_gas_funded n role_address owner_key in
      if ok then (sent ++ funded, paid) else (sent, false)

  pub record Booted : Type 0 where
    pub disk : Disk
    pub sent : List Transaction
    pub material : Option RecordUsageKeyMaterial

  unfoldable pub bootstrap : s.Signer → Bool → Disk → Text → Text → Bool → Network → Booted
  unfolding load_or_generate register_key
  bootstrap random chain_enabled d inline_key owner_key register_on_chain n =
      if not chain_enabled
      then record { disk = d; sent = []; material = none }
      else let (d', loaded) = load_or_generate random d inline_key in
        elim loaded [
          | none ↦ record { disk = d'; sent = []; material = none }
          | some m ↦
              let (sent, ok) = register_key n m.address owner_key in
              if register_on_chain
              then record { disk = d'; sent = sent; material = if ok then some m else none }
              else record { disk = d'; sent = []; material = some m }
        ]
