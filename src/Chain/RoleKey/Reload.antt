-- ===== src/Chain/RoleKey/Reload.antt =====
-- src/chain/record_usage_key.rs: a key that was once returned is the one of the next start.
use sparkl_router.Common.{
  some-inj, ◌≡◌, refl, sym, ap, ◌∙◌, inl, inr, Bool, true, false, Option, none, some, [], Text,
  text_eq, if◌then◌else◌, trim, subst, Bool-cases, Option-cases,
}
use sparkl_router.Models.NodeId.{Hex, trim-id}
use sparkl_router.Chain.RoleKey.{
  RecordUsageKeyMaterial, Signers, Disk, parse_signer, signer_to_hex, material_of, persist_key_file,
  persisted, stored_signer, load_or_generate,
}

module _ (h : Hex) (s : Signers h) where
  parse_signer-signer_to_hex :
      (signer : s.Signer) → parse_signer h s (signer_to_hex h s signer) ≡ some signer
  parse_signer-signer_to_hex signer =
      ap s.parse
        (trim-id (signer_to_hex h s signer) (refl, (refl, h.encode_no_space (s.to_bytes signer))))
      ∙ s.parse_written signer

  -- The start after one that left this key.
  abbrev Reloads : Disk → s.Signer → Type 0
  Reloads d signer =
      (random : s.Signer)
      → load_or_generate h s random d [] ≡ (d, some (material_of h s signer false))

  reload_stored :
      (d : Disk) (text : Text) (signer : s.Signer)
      → d.can_create ≡ true
      → d.can_read ≡ true
      → d.key_file ≡ some text
      → stored_signer h s text ≡ some signer
      → Reloads d signer
  unfolding load_or_generate trim
  reload_stored d text signer c r f e random = simp (c, r, f, e, load_or_generate) refl

  stored_signer-to_vec :
      (signer : s.Signer) (generated : Bool)
      → stored_signer h s (
          s.to_vec_pretty (record {
            private_key = (material_of h s signer generated).private_key_hex;
            address = (material_of h s signer generated).address;
          }))
        ≡ some signer
  stored_signer-to_vec signer generated =
      rw
        (
          s.from_slice_to_vec
              (record { private_key = signer_to_hex h s signer; address = s.address_of signer }),
          stored_signer,
        )
        (parse_signer-signer_to_hex signer)

  -- The disk with the key in its file.
  abbrev written_disk : RecordUsageKeyMaterial → Disk → Disk
  written_disk m d = record d {
    key_file =
        some (s.to_vec_pretty (record { private_key = m.private_key_hex; address = m.address }));
    is_private = true;
  }

  persisted_ok :
      (d : Disk) (m : RecordUsageKeyMaterial)
      → d.can_write ≡ true
      → persisted h s m d ≡ (written_disk m d, some m)
  unfolding persist_key_file
  persisted_ok d m w =
      ap
        (λ b.
          elim (if b then some (written_disk m d) else none)
            as (λ _. Disk × Option RecordUsageKeyMaterial) [
              | none ↦ (d, none)
              | some written ↦ (written, some m)
            ])
        w

  reload_persisted :
      (d after : Disk) (signer : s.Signer) (generated : Bool) (m : RecordUsageKeyMaterial)
      → d.can_create ≡ true
      → d.can_read ≡ true
      → persisted h s (material_of h s signer generated) d ≡ (after, some m)
      → (m ≡ material_of h s signer generated) × Reloads after signer
  unfolding persist_key_file
  reload_persisted d after signer generated m c r e = elim (Bool-cases d.can_write) [
    | inr w ↦ let wrong = ap (λ x. x.1) (simp (w, persisted, persist_key_file) at e) in absurd (cc)
    | inl w ↦
        let text = s.to_vec_pretty (record {
          private_key = (material_of h s signer generated).private_key_hex;
          address = (material_of h s signer generated).address;
        }) in
        let written = record d { key_file = some text; is_private = true } in
        let done : (written, some (material_of h s signer generated)) ≡ (after, some m) =
          sym (persisted_ok d (material_of h s signer generated) w) ∙ e in
        let same = ap (λ x. x.1) done in
        (
          sym (some-inj same),
          subst (λ x. Reloads x signer) (ap (λ x. x.0) done)
              (reload_stored written text signer c r refl (stored_signer-to_vec signer generated)),
        )
  ]

  -- The key of a start: from the configuration, from the file, or new.
  load-Reloads :
      (random : s.Signer) (d after : Disk) (inline : Text) (m : RecordUsageKeyMaterial)
      → d.can_create ≡ true
      → d.can_read ≡ true
      → load_or_generate h s random d inline ≡ (after, some m)
      → (signer : s.Signer) × ((b : Bool) × ((m ≡ material_of h s signer b) × Reloads after signer))
  unfolding load_or_generate
  load-Reloads random d after inline m c r e = elim (Bool-cases (text_eq (trim inline) [])) [
    | inr given ↦ elim (Option-cases (parse_signer h s (trim inline))) [
      | inl n ↦
          let wrong = ap (λ x. x.1) (rw n at (rw given at (rw (c, load_or_generate) at e))) in
          absurd (cc)
      | inr (signer, n) ↦ (
        signer,
        (
          false,
          reload_persisted d after signer false m c r
              (rw n at (rw given at (rw (c, load_or_generate) at e))),
        ),
      )
    ]
    | inl blank ↦ elim (Option-cases d.key_file) [
      | inl n ↦ (
        random,
        (
          true,
          reload_persisted d after random true m c r
              (rw n at (rw blank at (rw (c, load_or_generate) at e))),
        ),
      )
      | inr (text, n) ↦ elim (Option-cases (stored_signer h s text)) [
        | inl q ↦
            let wrong =
              ap (λ x. x.1)
                (rw q at (rw r at (rw n at (rw blank at (rw (c, load_or_generate) at e))))) in
            absurd (cc)
        | inr (signer, q) ↦
            let done : (d, some (material_of h s signer false)) ≡ (after, some m) =
              rw q at (rw r at (rw n at (rw blank at (rw (c, load_or_generate) at e)))) in
            (
              signer,
              (
                false,
                (
                  sym (some-inj (ap (λ x. x.1) done)),
                  subst (λ x. Reloads x signer) (ap (λ x. x.0) done)
                      (reload_stored d text signer c r n q),
                ),
              ),
            )
      ]
    ]
  ]

  -- If a start returns a key, on a disk that can be read, then every later start with no key in the
  -- configuration returns the same key and address, whatever key it could have made, does not call it
  -- generated, and leaves the disk as it is.
  pub load_or_generate-again :
      (random other : s.Signer) (d after : Disk) (inline : Text) (m : RecordUsageKeyMaterial)
      → d.can_create ≡ true
      → d.can_read ≡ true
      → load_or_generate h s random d inline ≡ (after, some m)
      → load_or_generate h s other after [] ≡ (after, some (record m { generated = false }))
  load_or_generate-again random other d after inline m c r e =
      let (signer, (b, (same, again))) = load-Reloads random d after inline m c r e in
      again other ∙ ap (λ x. (after, some (record x { generated = false }))) (sym same)
