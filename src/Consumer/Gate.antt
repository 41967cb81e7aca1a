-- ===== src/Consumer/Gate.antt =====
-- src/consumer/middleware.rs: who may call the protected routes. The error messages are left out of
-- the refusals.
pub mod Passes
use sparkl_router.Common.{ℕ, Bool, true, false, not, ◌&&◌, Option, none, some, if◌then◌else◌, Text}
use sparkl_router.Chain.Session.{ChainSession, is_open, budget_exhausted}
use sparkl_router.Consumer.Bearer.{parse_authorization_header}

pub record AuthenticatedSession : Type 0 where
  pub session_id : ℕ
  pub user : ℕ
  pub node_id : ℕ
  pub locked_internal : ℕ
  pub usage_recorded : ℕ

abbrev pub authenticated : ℕ → ChainSession → AuthenticatedSession
authenticated id s = record {
  session_id = id;
  user = s.user;
  node_id = s.node_id;
  locked_internal = s.locked_internal;
  usage_recorded = s.usage_recorded;
}

pub data Decision : Type 0 where
  refused : (status : ℕ) → Decision
  passed : AuthenticatedSession → Decision

-- `get_session` is what the verifier answers, `online` whether the registry has a tunnel of a node.
module _ (base58 : Text → Option Text) (get_session : ℕ → Option ChainSession) (enforce : Bool)
    (online : ℕ → Bool) where
  unfoldable pub check_session : ℕ → ChainSession → Decision
  check_session id s =
      if not (is_open s)
      then refused 401
      else if enforce && budget_exhausted s
      then refused 402
      else if not (online s.node_id)
      then refused 503
      else passed (authenticated id s)

  unfoldable pub require_v1_session : Option Text → Decision
  unfolding check_session
  require_v1_session none = refused 401
  require_v1_session (some authz) = elim (parse_authorization_header base58 authz) [
    | none ↦ refused 400
    | some id ↦ elim (get_session id) [ none ↦ refused 401 | some s ↦ check_session id s ]
  ]
