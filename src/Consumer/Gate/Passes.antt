-- ===== src/Consumer/Gate/Passes.antt =====
-- What the gate (src/consumer/middleware.rs) lets pass.
use sparkl_router.Common.{
  ℕ, ◌<◌, ◌≡◌, ◌≢◌, ◌↔◌, ◌⊎◌, inl, inr, refl, Bool, true, false, Option, none, some, arith,
  Option-cases, Text,
}
use sparkl_router.Chain.Session.{ChainSession}
use sparkl_router.Consumer.Bearer.{parse_authorization_header}
use sparkl_router.Consumer.Gate.{
  AuthenticatedSession, authenticated, passed, check_session, require_v1_session,
}

module _ (base58 : Text → Option Text) (get_session : ℕ → Option ChainSession) (enforce : Bool)
    (online : ℕ → Bool) where
  -- What a request must bring.
  pub record IsAdmitted (header : Option Text) (auth : AuthenticatedSession) : Type 0 where
    pub authz : Text
    pub id : ℕ
    pub session : ChainSession
    pub has_header : header ≡ some authz
    pub has_token : parse_authorization_header base58 authz ≡ some id
    pub on_chain : get_session id ≡ some session
    pub with_user : session.user ≢ 0
    pub unsettled : session.settled ≡ false
    pub within_budget :
        (enforce ≡ false)
        ⊎ (session.usage_recorded < session.locked_internal)
        ⊎ (session.locked_internal ≡ 0)
    pub has_tunnel : online session.node_id ≡ true
    pub as_on_chain : auth ≡ authenticated id session

  check_sound :
      (id : ℕ) (s : ChainSession) (auth : AuthenticatedSession)
      → check_session base58 get_session enforce online id s ≡ passed auth
      → (s.user ≢ 0)
        × (s.settled ≡ false)
        × ((enforce ≡ false) ⊎ (s.usage_recorded < s.locked_internal) ⊎ (s.locked_internal ≡ 0))
        × (online s.node_id ≡ true)
        × (auth ≡ authenticated id s)
  unfolding check_session
  check_sound id s auth h = (ground arith, ground arith, ground arith, ground arith, ground arith)

  sound :
      (header : Option Text) (auth : AuthenticatedSession)
      → require_v1_session base58 get_session enforce online header ≡ passed auth
      → IsAdmitted header auth
  unfolding require_v1_session
  sound none auth h = absurd (ground arith)
  sound (some authz) auth h = elim (Option-cases (parse_authorization_header base58 authz)) [
    | inl e ↦ absurd (ground (arith, e))
    | inr (id, e) ↦ elim (Option-cases (get_session id)) [
      | inl g ↦ absurd (ground (arith, e, g))
      | inr (s, g) ↦
          let (user, open_session, budget, tunnel, same) =
            check_sound id s auth (rw (← h) (rw (e, g, require_v1_session) refl)) in
          record {
            authz = authz;
            id = id;
            session = s;
            has_header = refl;
            has_token = e;
            on_chain = g;
            with_user = user;
            unsettled = open_session;
            within_budget = budget;
            has_tunnel = tunnel;
            as_on_chain = same;
          }
    ]
  ]

  check_complete :
      (id : ℕ) (s : ChainSession)
      → s.user ≢ 0
      → s.settled ≡ false
      → (enforce ≡ false) ⊎ (s.usage_recorded < s.locked_internal) ⊎ (s.locked_internal ≡ 0)
      → online s.node_id ≡ true
      → check_session base58 get_session enforce online id s ≡ passed (authenticated id s)
  unfolding check_session
  check_complete id s user open_session budget tunnel = ground arith

  complete :
      (header : Option Text) (auth : AuthenticatedSession)
      → IsAdmitted header auth
      → require_v1_session base58 get_session enforce online header ≡ passed auth
  unfolding require_v1_session
  complete header auth a =
      rw (a.has_header, require_v1_session, a.has_token, a.on_chain, a.as_on_chain)
        (check_complete a.id a.session a.with_user a.unsettled a.within_budget a.has_tunnel)

  -- A request passes the gate exactly if it has an Authorization header, the header parses to a
  -- session id, the chain answers for that session, the session is open, it is within its budget
  -- where budgets are enforced, and its node has a tunnel; what is passed on is that session.
  pub require_v1_session_iff :
      (header : Option Text) (auth : AuthenticatedSession)
      → (require_v1_session base58 get_session enforce online header ≡ passed auth)
        ↔ IsAdmitted header auth
  require_v1_session_iff header auth = (sound header auth, complete header auth)
