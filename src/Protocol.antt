-- ===== src/Protocol.antt =====
-- src/protocol.rs: the frames between the router and the nodes. A text is the list of its bytes, a
-- request id (`Uuid`) a number. `V` is `serde_json::Value`, whose content no frame looks at.
use sparkl_router.Common.{ℕ, Bool, true, false, Option, Text}

pub data NodeToRouterFrame (V : Type 0) : Type 0 where
  auth : (node_id signature : Text) (ed25519_pubkey moniker : Option Text) → NodeToRouterFrame V
  pong : NodeToRouterFrame V
  response : (rid status : ℕ) (headers : V) → NodeToRouterFrame V
  chunk : (rid : ℕ) (text : Text) → NodeToRouterFrame V
  end : (rid status : ℕ) → NodeToRouterFrame V
  error : (rid code : ℕ) (message : Text) → NodeToRouterFrame V
  activate_response : (rid : ℕ) (api_key : Text) → NodeToRouterFrame V

pub data RouterToNodeFrame (V : Type 0) : Type 0 where
  challenge : (nonce : Text) (block : ℕ) → RouterToNodeFrame V
  ready : (router_url : Text) → RouterToNodeFrame V
  request : (rid : ℕ) (method path : Text) (headers : V) (body : Option Text) → RouterToNodeFrame V
  activate_request :
      (rid : ℕ) (session_id signature : Text) (block_number : ℕ) (message : Option Text)
      → RouterToNodeFrame V
  ping : RouterToNodeFrame V

-- What reaches the request that waits for it.
pub data InboundFrame (V : Type 0) : Type 0 where
  response : (status : ℕ) (headers : V) → InboundFrame V
  chunk : (text : Text) → InboundFrame V
  end : (status : ℕ) → InboundFrame V
  error : (code : ℕ) (message : Text) → InboundFrame V
  activate_response : (api_key : Text) → InboundFrame V

-- `is_terminal_frame` of src/tunnel/dispatch.rs
abbrev pub is_terminal_frame : {V : Type 0} → InboundFrame V → Bool
is_terminal_frame (InboundFrame.end status) = true
is_terminal_frame (InboundFrame.error code message) = true
is_terminal_frame (InboundFrame.activate_response api_key) = true
is_terminal_frame _ = false
