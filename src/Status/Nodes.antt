-- ===== src/Status/Nodes.antt =====
-- src/status/nodes.rs: the pages of the nodes. The times of the clock that the pages show are left out,
-- but for the age of the last pong.
use sparkl_router.Common.{
  ℕ, ◌*◌, ◌^◌, ◌%◌, Option, none, some, List, [], ◌∷◌, Text, codes, lookup, nat_eq, length,
  if◌then◌else◌,
}
use sparkl_router.Tunnel.{NodeTunnel, in_flight_count}
use sparkl_router.Lifecycle.{Router, TunnelRegistry}
use sparkl_router.Handshake.{parse_node_id_hex}
use sparkl_router.Models.Offering.{age_le, node_id_key}

pub record NodeStatus : Type 0 where
  pub node_id : Text
  pub moniker : Option Text
  pub status : Text
  pub last_pong_at : Option ℕ
  pub in_flight_requests : ℕ
  pub model_count : ℕ

pub record NodesListResponse : Type 0 where
  pub tunnel_count : ℕ
  pub nodes : List NodeStatus

unfoldable pub derive_status : ℕ → ℕ → ℕ → Text
derive_status now last_pong stale =
    if age_le now last_pong stale
    then codes "online"
    else if age_le now last_pong ((stale * 2) % 2 ^ 64)
    then codes "degraded"
    else codes "offline"

module _ {V C : Type 0} (encode : List ℕ → Text) (now stale : ℕ) where
  unfoldable pub tunnel_status : NodeTunnel V C → NodeStatus
  unfolding derive_status node_id_key
  tunnel_status t = record {
    node_id = node_id_key encode t.node_id;
    moniker = t.moniker;
    status = derive_status now t.last_pong_at stale;
    last_pong_at = some t.last_pong_at;
    in_flight_requests = in_flight_count t;
    model_count = t.model_count;
  }

  unfoldable pub statuses : (ℕ → NodeTunnel V C) → TunnelRegistry → List NodeStatus
  unfolding tunnel_status
  statuses heap [] = []
  statuses heap ((node, a) ∷ m) = tunnel_status (heap a) ∷ statuses heap m

  unfoldable pub list_nodes : Router V C → NodesListResponse
  unfolding statuses
  list_nodes r =
      let nodes = statuses r.heap r.tunnels in record { tunnel_count = length nodes; nodes = nodes }

  -- `none` is the status 400.
  unfoldable pub get_node : (Text → Option (List ℕ)) → Router V C → Text → Option NodeStatus
  unfolding tunnel_status parse_node_id_hex
  get_node decode r node_id = elim (parse_node_id_hex decode node_id) [
    | none ↦ none
    | some id ↦ elim (lookup id r.tunnels) [
      | some a ↦ some (tunnel_status (r.heap a))
      | none ↦ some (record {
        node_id = node_id_key encode id;
        moniker = none;
        status = codes "offline";
        last_pong_at = none;
        in_flight_requests = 0;
        model_count = 0;
      })
    ]
  ]
