-- ===== src/Models/Hits.antt =====
-- src/consumer/models.rs: what `query_providers` returns, against a description of the offerings that
-- are asked for.
use sparkl_router.Common.{
  some-inj, ℕ, ◌≤◌, ◌≡◌, ◌≢◌, ◌↔◌, refl, sym, ap, ◌∙◌, ◌⊎◌, inl, inr, Bool, true, false, not, ◌&&◌,
  ◌||◌, Option, none, some, List, [], ◌∷◌, arith, Text, codes, Map, lookup, text_key, nat_eq,
  text_eq, text_eq_iff, text_eq_sound, text_eq_refl, is_some, contains as contains_text, Bool-cases,
  Option-cases, mem-cons,
}
use mathlib.Core.List.{Memᴰ}
use mathlib.Core.List.Memᴰ.{head, tail}
use sparkl_router.Models.Parts.{HasPart, contains_iff}
use sparkl_router.Models.Offering.{ProviderOffering}
use sparkl_router.Models.Filters.{ProviderQueryFilters}
use sparkl_router.Models.Query.{
  differs, is_less, any_feature, lacks_feature, lacks_value, none_if, is_empty, keep_if_hit,
}

abbrev pub Matches : Option Text → Text → Type 0
Matches none s = Unit
Matches (some wanted) s = s ≡ wanted

abbrev pub AtLeast : Option ℕ → ℕ → Type 0
AtLeast none n = Unit
AtLeast (some least) n = least ≤ n

abbrev pub Has : Map Text Text → Text → Type 0
Has features k = (v : Text) × (lookup k features ≡ some v)

abbrev pub HasAll : Map Text Text → List Text → Type 0
HasAll features [] = Unit
HasAll features (k ∷ ks) = Has features k × HasAll features ks

abbrev pub HasValues : Map Text Text → Map Text Text → Type 0
HasValues features [] = Unit
HasValues features ((k, needle) ∷ wanted) =
    ((v : Text) × ((lookup k features ≡ some v) × HasPart needle v)) × HasValues features wanted

-- The offering, with its status, is asked for.
pub record IsHit (f : ProviderQueryFilters) (o : ProviderOffering) : Type 0 where
  pub online : (f.online_only ≡ false) ⊎ (o.tunnel_status ≢ codes "offline")
  pub model : Matches f.model o.model_id
  pub quantization : Matches f.quantization o.quantization
  pub parameter_count : Matches f.parameter_count o.parameter_count
  pub context : AtLeast f.min_context_length o.context_length
  pub slots : AtLeast f.min_available_slots o.available_slots
  pub any : (f.features_any ≡ []) ⊎ ((k : Text) × (Memᴰ k f.features_any × Has o.features k))
  pub all : HasAll o.features f.features_all
  pub values : HasValues o.features f.feature_value_contains

differs_iff : (w : Option Text) (s : Text) → (differs w s ≡ false) ↔ Matches w s
differs_iff none s = (λ h. tt, λ h. refl)
differs_iff (some w) s =
    (λ h. ground (arith, text_eq_sound s w), λ h. rw h (rw (text_eq_refl w) refl))

is_less_iff : (w : Option ℕ) (n : ℕ) → (is_less w n ≡ false) ↔ AtLeast w n
is_less_iff none n = (λ h. tt, λ h. refl)
is_less_iff (some w) n = (λ h. ground arith, λ h. ground arith)

Has-iff :
    (features : Map Text Text) (k : Text) → (is_some (lookup k features) ≡ true) ↔ Has features k
Has-iff features k = elim (Option-cases (lookup k features)) [
  | inl e ↦ (λ h. let wrong : false ≡ true = rw e at h in absurd (cc), λ (v, p). absurd (cc))
  | inr (v, e) ↦ (λ h. (v, e), λ (w, p). rw e refl)
]

lacks_feature_iff :
    (features : Map Text Text) (ks : List Text)
    → (lacks_feature features ks ≡ false) ↔ HasAll features ks
unfolding lacks_feature
lacks_feature_iff features [] = (λ h. tt, λ h. refl)
lacks_feature_iff features (k ∷ ks) =
    let here = Has-iff features k in
    let rest = lacks_feature_iff features ks in
    (
      λ h. (here.0 (ground arith), rest.0 (ground arith)),
      λ (a, b). let x = here.1 a in let y = rest.1 b in ground arith,
    )

any_feature_iff :
    (features : Map Text Text) (ks : List Text)
    → (any_feature features ks ≡ true) ↔ ((k : Text) × (Memᴰ k ks × Has features k))
unfolding any_feature
any_feature_iff features [] = (λ h. absurd (cc), λ (k, (m, h)). elim m [ ])
any_feature_iff features (k ∷ ks) =
    let here = Has-iff features k in
    let rest = any_feature_iff features ks in
    (
      λ h. elim (Bool-cases (is_some (lookup k features))) [
        | inl t ↦ (k, (head refl, here.0 t))
        | inr f ↦ let (i, (m, has)) = rest.0 (ground arith) in (i, (tail m, has))
      ],
      λ (i, (m, has)). elim (mem-cons m) [
        | inl e ↦ let x = here.1 (rw e at has) in ground arith
        | inr n ↦ let x = rest.1 (i, (n, has)) in ground arith
      ],
    )

lacks_value_iff :
    (features wanted : Map Text Text)
    → (lacks_value features wanted ≡ false) ↔ HasValues features wanted
unfolding lacks_value
lacks_value_iff features [] = (λ h. tt, λ h. refl)
lacks_value_iff features ((k, needle) ∷ wanted) =
    let rest = lacks_value_iff features wanted in
    elim (Option-cases (lookup k features)) [
      | inl e ↦ (
        λ h. let wrong : true ≡ false = rw e at h in absurd (cc),
        λ ((v, (p, part)), b). absurd (cc),
      )
      | inr (v, e) ↦
          let part = contains_iff needle v in
          (
            λ h.
                let found : (not (contains_text needle v) || lacks_value features wanted) ≡ false =
                  rw e at h in
                ((v, (e, part.0 (ground arith))), rest.0 (ground arith)),
            λ ((w, (p, has)), b).
                let same : v ≡ w = some-inj (sym e ∙ p) in
                let x = part.1 (rw same has) in let y = rest.1 b in rw e (ground arith),
          )
    ]

online_iff :
    (f : ProviderQueryFilters) (o : ProviderOffering)
    → ((f.online_only && text_eq o.tunnel_status (codes "offline")) ≡ false)
      ↔ ((f.online_only ≡ false) ⊎ (o.tunnel_status ≢ codes "offline"))
online_iff f o =
    let test = text_eq_iff o.tunnel_status (codes "offline") in
    (
      λ h. elim (Bool-cases f.online_only) [
        | inl t ↦ inr (λ e. let x = test.1 e in ground arith)
        | inr n ↦ inl n
      ],
      λ h. elim h [
        | inl n ↦ rw n refl
        | inr n ↦ elim (Bool-cases (text_eq o.tunnel_status (codes "offline"))) [
          | inl t ↦ absurd (n (test.0 t))
          | inr m ↦ rw m (ground arith)
        ]
      ],
    )

is_empty_iff :
    (ks : List Text) (features : Map Text Text)
    → ((not (is_empty ks) && not (any_feature features ks)) ≡ false)
      ↔ ((ks ≡ []) ⊎ ((k : Text) × (Memᴰ k ks × Has features k)))
is_empty_iff [] features = (λ h. inl refl, λ h. refl)
is_empty_iff (k ∷ ks) features =
    let any = any_feature_iff features (k ∷ ks) in
    (
      λ h. inr (any.0 (ground arith)),
      λ h. elim h [ inl e ↦ absurd (cc) | inr x ↦ let y = any.1 x in ground arith ],
    )

-- One early return, before the rest.
none_if_iff :
    {P Q : Type 0} (b : Bool) (rest : Option ProviderOffering) (x : ProviderOffering)
    → (b ≡ false) ↔ P
    → (rest ≡ some x) ↔ Q
    → (none_if b rest ≡ some x) ↔ (P × Q)
none_if_iff true rest x p q = (λ h. absurd (cc), λ (a, c). let wrong = p.1 a in absurd (cc))
none_if_iff false rest x p q = (λ h. (p.0 refl, q.0 h), λ (a, c). q.1 c)

some_iff : (o x : ProviderOffering) → (some o ≡ some x) ↔ (o ≡ x)
some_iff o x = (λ h. some-inj h, λ e. ap some e)

-- An offering is kept, as it is, exactly when it is asked for.
pub keep_if_hit-IsHit :
    (f : ProviderQueryFilters) (o x : ProviderOffering)
    → (keep_if_hit f o ≡ some x) ↔ (IsHit f o × (o ≡ x))
unfolding keep_if_hit
keep_if_hit-IsHit f o x =
    let chain = none_if_iff _ _ x (online_iff f o) (
      none_if_iff _ _ x (differs_iff f.model o.model_id) (
        none_if_iff _ _ x (differs_iff f.quantization o.quantization) (
          none_if_iff _ _ x (differs_iff f.parameter_count o.parameter_count) (
            none_if_iff _ _ x (is_less_iff f.min_context_length o.context_length) (
              none_if_iff _ _ x (is_less_iff f.min_available_slots o.available_slots) (
                none_if_iff _ _ x (is_empty_iff f.features_any o.features) (
                  none_if_iff _ _ x (lacks_feature_iff o.features f.features_all) (
                    none_if_iff _ _ x (lacks_value_iff o.features f.feature_value_contains)
                      (some_iff o x))))))))) in
    (
      λ h.
          let (a, (b, (c, (d, (e, (g, (k, (l, (m, same))))))))) = chain.0 h in
          (
            record {
              online = a;
              model = b;
              quantization = c;
              parameter_count = d;
              context = e;
              slots = g;
              any = k;
              all = l;
              values = m;
            },
            same,
          ),
      λ (hit, same). chain.1 (
        hit.online,
        (
          hit.model,
          (
            hit.quantization,
            (
              hit.parameter_count,
              (hit.context, (hit.slots, (hit.any, (hit.all, (hit.values, same))))),
            ),
          ),
        ),
      ),
    )
