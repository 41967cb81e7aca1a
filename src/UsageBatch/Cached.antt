-- ===== src/UsageBatch/Cached.antt =====
-- src/consumer/usage_batch.rs with the cache of src/chain/mod.rs: the calls of a flush on both.
use sparkl_router.Common.{
  ℕ, ◌≡◌, ◌≢◌, refl, ◌∙◌, inl, inr, Bool, true, Option, none, some, if◌then◌else◌, is_some, lookup,
  nat_eq, lookup-insert_ne, lookup-remove_ne, Bool-cases, Option-cases,
}
use sparkl_router.Config.{SettlementConfig}
use sparkl_router.Chain.Session.{ChainSession, is_open}
use sparkl_router.Chain.Cache.{ChainVerifier, get_session, warm_session, evict_session}
use sparkl_router.UsageBatch.{
  Watermarks, Batcher, Answers, ensure_session, take_pending, flush_session, forget_session,
}

-- What the chain answers when the first and the second `get_session` and `warm_session` ask for it.
pub record Fetches : Type 0 where
  pub init : Option ChainSession
  pub refresh : Option ChainSession
  pub warm : Option ChainSession

abbrev pub watermarks_of : Option ChainSession → Option Watermarks
watermarks_of none = none
watermarks_of (some s) = some (record {
  input_tokens_recorded = s.input_tokens_recorded;
  output_tokens_recorded = s.output_tokens_recorded;
})

-- The call of `get_session` in `ensure_session`, for a session with no batch.
unfoldable pub ensure_fetch :
    ℕ → Option ChainSession → Batcher → ChainVerifier → ChainVerifier × Option ChainSession
unfolding get_session
ensure_fetch id fetched b v =
    if is_some (lookup id b.sessions) then (v, none) else get_session id fetched v

-- `evict_session` and `warm_session`, if the second `get_session` answers.
abbrev pub rewarm : ℕ → Option ChainSession → Option ChainSession → ChainVerifier → ChainVerifier
rewarm id none warm v = v
rewarm id (some s) warm v = warm_session id warm (evict_session id v)

unfoldable pub flush_cached :
    SettlementConfig → ℕ → Bool → Fetches → ℕ → Batcher → ChainVerifier → Batcher × ChainVerifier
unfolding ensure_fetch flush_session ensure_session take_pending get_session
flush_cached config id force f now b v =
    let (v1, init) = ensure_fetch id f.init b v in
    let (v2, refreshed) = get_session id f.refresh v1 in
    let answers : Answers = record {
      init = watermarks_of init;
      refresh = watermarks_of refreshed;
    } in
    let (_, submits) =
      take_pending config id force now (ensure_session id (watermarks_of init) now b) in
    (
      flush_session config id force answers now b,
      if submits then rewarm id refreshed f.warm v2 else v1,
    )

unfoldable pub remove_cached :
    SettlementConfig → ℕ → Fetches → ℕ → Batcher → ChainVerifier → Batcher × ChainVerifier
unfolding flush_cached
remove_cached config id f now b v =
    let (b', v') = flush_cached config id true f now b v in (forget_session id b', v')

-- The cache of another session stays as it is.
module _ (k id : ℕ) (differ : id ≢ k) where
  get_session-other :
      (fetched : Option ChainSession) (v : ChainVerifier)
      → lookup k (get_session id fetched v).0.cache ≡ lookup k v.cache
  unfolding get_session
  get_session-other fetched v = elim (Option-cases (lookup id v.cache)) [
    | inr (s, e) ↦ rw (e, get_session) refl
    | inl e ↦ elim (Option-cases fetched) [
      | inl f ↦ rw (e, f, get_session) refl
      | inr (s, f) ↦ elim (Bool-cases (is_open s)) [
        | inl o ↦ rw (e, f, get_session) (rw o (lookup-insert_ne id k s v.cache differ))
        | inr o ↦ rw (e, f, get_session) (rw o refl)
      ]
    ]
  ]

  warm_session-other :
      (fetched : Option ChainSession) (v : ChainVerifier)
      → lookup k (warm_session id fetched v).cache ≡ lookup k v.cache
  unfolding warm_session
  warm_session-other none v = refl
  warm_session-other (some s) v = elim (Bool-cases (is_open s)) [
    | inl o ↦ rw o (lookup-insert_ne id k s v.cache differ)
    | inr o ↦ rw o refl
  ]

  rewarm-other :
      (refreshed warm : Option ChainSession) (v : ChainVerifier)
      → lookup k (rewarm id refreshed warm v).cache ≡ lookup k v.cache
  unfolding evict_session
  rewarm-other none warm v = refl
  rewarm-other (some s) warm v =
      warm_session-other warm (evict_session id v) ∙ lookup-remove_ne id k v.cache differ

  ensure_fetch-other :
      (fetched : Option ChainSession) (b : Batcher) (v : ChainVerifier)
      → lookup k (ensure_fetch id fetched b v).0.cache ≡ lookup k v.cache
  unfolding ensure_fetch
  ensure_fetch-other fetched b v = elim (Bool-cases (is_some (lookup id b.sessions))) [
    | inl e ↦ rw (e, ensure_fetch) refl
    | inr e ↦ rw (e, ensure_fetch) (get_session-other fetched v)
  ]

  pub flush_cached-other :
      (config : SettlementConfig) (force : Bool) (f : Fetches) (now : ℕ) (b : Batcher)
      (v : ChainVerifier)
      → lookup k (flush_cached config id force f now b v).1.cache ≡ lookup k v.cache
  unfolding flush_cached
  flush_cached-other config force f now b v =
      let first = ensure_fetch id f.init b v in
      let same = ensure_fetch-other f.init b v in
      elim (Bool-cases
        (take_pending config id force now (ensure_session id (watermarks_of first.1) now b)).1) [
          | inl e ↦
              rw (e, flush_cached)
                (rewarm-other (get_session id f.refresh first.0).1 f.warm _
                  ∙ get_session-other f.refresh first.0
                  ∙ same)
          | inr e ↦ rw (e, flush_cached) same
        ]
