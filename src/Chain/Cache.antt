-- ===== src/Chain/Cache.antt =====
-- src/chain/mod.rs: the cache of sessions in front of the chain. What the chain answers at a call is
-- an argument, an error being `none`; `moka` may drop an entry at any time.
pub mod Fresh
use sparkl_router.Common.{
  ℕ, Bool, true, false, not, Option, none, some, if◌then◌else◌, Map, lookup, insert, remove, nat_eq,
}
use sparkl_router.Chain.Session.{ChainSession, is_open}
use sparkl_router.Chain.Registry

pub record ChainVerifier : Type 0 where
  pub cache : Map ℕ ChainSession

unfoldable pub get_session :
    ℕ → Option ChainSession → ChainVerifier → ChainVerifier × Option ChainSession
get_session id fetched v = elim (lookup id v.cache) [
  | some cached ↦ (v, some cached)
  | none ↦ elim fetched [
    | none ↦ (v, none)
    | some s ↦ (if is_open s then record { cache = insert id s v.cache } else v, some s)
  ]
]

unfoldable pub warm_session : ℕ → Option ChainSession → ChainVerifier → ChainVerifier
warm_session id none v = v
warm_session id (some s) v = if is_open s then record { cache = insert id s v.cache } else v

unfoldable pub evict_session : ℕ → ChainVerifier → ChainVerifier
evict_session id v = record { cache = remove id v.cache }

-- Without a chain every node counts as registered.
unfoldable pub is_node_registered : Bool → Option ℕ → Bool → Option ℕ → Option Bool
is_node_registered enabled registry url_is_valid answer =
    if not enabled then some true else Registry.is_node_registered registry url_is_valid answer
