-- ===== src/Status/Authorized.antt =====
-- src/status/subscribe.rs: who may subscribe.
use sparkl_router.Common.{
  ℕ, ◌≡◌, ◌≢◌, ◌≤◌, ◌↔◌, ◌⊎◌, inl, inr, refl, true, false, Option, some, List, [], arith, Text,
  codes, Map, lookup, text_key, text_eq, text_eq_iff, trim, Bool-cases, Option-cases,
}
use sparkl_router.Admin.Token.{IsAuthorized, is_valid_iff}
use sparkl_router.Admin.{is_valid}
use sparkl_router.Status.Subscribe.{
  Signed, plus, minus, is_past, parse_i64, to_lowercase, verify_subscribe_token, check_query,
  authorize_subscribe,
}

-- The expiry is not before the present second.
abbrev pub Lasts : ℕ → Signed → Type 0
Lasts now (plus n) = now ≤ n
Lasts now (minus n) = (now ≡ 0) × (n ≡ 0)

is_past_iff : (now : ℕ) (expiry : Signed) → (is_past now expiry ≡ false) ↔ Lasts now expiry
is_past_iff now (plus n) = (λ h. ground arith, λ h. ground arith)
is_past_iff now (minus n) = (λ h. (ground arith, ground arith), λ (a, b). ground arith)

module _ (encode : List ℕ → Text) (hmac : Text → Text → List ℕ) where
  -- A link whose token signs its expiry with the admin token, and which has not expired.
  pub record IsLinked (now : ℕ) (admin_token : Text) (query : Map Text Text) : Type 0 where
    pub token : Text
    pub exp : Text
    pub expiry : Signed
    pub has_token : lookup (codes "token") query ≡ some token
    pub has_exp : lookup (codes "exp") query ≡ some exp
    pub reads : parse_i64 exp ≡ some expiry
    pub lasts : Lasts now expiry
    pub signs : encode (hmac admin_token exp) ≡ to_lowercase (trim token)

  verify_sound :
      (now : ℕ) (key token exp : Text)
      → verify_subscribe_token encode hmac now key token exp ≡ true
      → (expiry : Signed) × ((parse_i64 exp ≡ some expiry)
          × (Lasts now expiry × (encode (hmac key exp) ≡ to_lowercase (trim token))))
  unfolding verify_subscribe_token
  verify_sound now key token exp h = elim (Option-cases (parse_i64 exp)) [
    | inl e ↦ let wrong : false ≡ true = rw (e, verify_subscribe_token) at h in absurd (cc)
    | inr (expiry, e) ↦ elim (Bool-cases (is_past now expiry)) [
      | inl p ↦
          let wrong : false ≡ true = rw p at (rw (e, verify_subscribe_token) at h) in absurd (cc)
      | inr p ↦
          let same = rw p at (rw (e, verify_subscribe_token) at h) in
          (
            expiry,
            (
              e,
              (
                (is_past_iff now expiry).0 p,
                (text_eq_iff (encode (hmac key exp)) (to_lowercase (trim token))).0 same,
              ),
            ),
          )
    ]
  ]

  check_query_iff :
      (now : ℕ) (key : Text) (query : Map Text Text)
      → (check_query encode hmac now key (lookup (codes "token") query) (lookup (codes "exp") query)
          ≡ true)
        ↔ IsLinked now key query
  unfolding verify_subscribe_token
  check_query_iff now key query = (
    λ h. elim (Option-cases (lookup (codes "token") query)) [
      | inl e ↦ let wrong : false ≡ true = rw e at h in absurd (cc)
      | inr (token, e) ↦ elim (Option-cases (lookup (codes "exp") query)) [
        | inl f ↦ let wrong : false ≡ true = rw (e, f) at h in absurd (cc)
        | inr (exp, f) ↦
            let (expiry, (reads, (lasts, signs))) =
              verify_sound now key token exp (rw (e, f) at h) in
            record {
              token = token;
              exp = exp;
              expiry = expiry;
              has_token = e;
              has_exp = f;
              reads = reads;
              lasts = lasts;
              signs = signs;
            }
      ]
    ],
    λ l.
        let same =
          (text_eq_iff (encode (hmac key l.exp)) (to_lowercase (trim l.token))).1 l.signs in
        rw (l.has_token, l.has_exp)
          (rw (l.reads, verify_subscribe_token) (rw ((is_past_iff now l.expiry).1 l.lasts) same)),
  )

  -- A subscriber is let in exactly if the setting of the admin token is not blank, and either the
  -- Authorization header has it as its token, or the query has a link that lasts and is signed with it.
  pub authorize_subscribe_iff :
      (now : ℕ) (admin_token : Text) (auth : Option Text) (query : Map Text Text)
      → (authorize_subscribe encode hmac now admin_token auth query ≡ true) ↔ (
          IsAuthorized (trim admin_token) auth
          ⊎ ((trim admin_token ≢ []) × IsLinked now (trim admin_token) query))
  unfolding authorize_subscribe
  authorize_subscribe_iff now admin_token auth query =
      let key = trim admin_token in
      let blank = text_eq_iff key [] in
      elim (Bool-cases (text_eq key [])) [
        | inl t ↦ (
          λ h. let wrong : false ≡ true = rw (t, authorize_subscribe) at h in absurd (cc),
          λ h. elim h [
            | inl a ↦ absurd (a.configured (blank.0 t))
            | inr (ne, l) ↦ absurd (ne (blank.0 t))
          ],
        )
        | inr f ↦
            let set : key ≢ [] = λ e. let t = blank.1 e in cc in
            let valid = is_valid_iff key auth set in
            let linked = check_query_iff now key query in
            elim (Bool-cases (is_valid key auth)) [
              | inl v ↦ (λ h. inl (valid.0 v), λ h. rw (f, authorize_subscribe) (rw v refl))
              | inr v ↦ (
                λ h. inr (set, linked.0 (rw v at (rw (f, authorize_subscribe) at h))),
                λ h. elim h [
                  | inl a ↦ let t = valid.1 a in absurd (cc)
                  | inr (ne, l) ↦ rw (f, authorize_subscribe) (rw v (linked.1 l))
                ],
              )
            ]
      ]
