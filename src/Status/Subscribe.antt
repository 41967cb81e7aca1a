-- ===== src/Status/Subscribe.antt =====
-- src/status/subscribe.rs: who may subscribe, and what a subscriber receives. `hmac` is HMAC-SHA-256 of
-- a key and a text. Texts are ASCII.
use sparkl_router.Common.{
  ℕ, ◌+◌, ◌-◌, ◌^◌, Bool, true, false, ◌&&◌, Option, none, some, List, [], ◌∷◌, Text, codes, Map,
  lookup, text_key, text_eq, ltb, leb, ◌==◌, if◌then◌else◌, trim, from_str_radix, unsigned,
  digits_from,
}
use sparkl_router.Admin.{is_valid}
use sparkl_router.Telemetry.{TelemetryEvent, snapshot_event, model_capacity, node_status}

-- `i64`: `n`, or `- n`.
pub data Signed : Type 0 where
  plus : ℕ → Signed
  minus : ℕ → Signed

abbrev pub signed : (ℕ → Signed) → Option ℕ → Option Signed
signed f none = none
signed f (some n) = some (f n)

-- `exp.parse::<i64>()`
unfoldable pub parse_i64 : Text → Option Signed
unfolding from_str_radix digits_from
parse_i64 [] = none
parse_i64 (c ∷ s) =
    if c == 45
    then signed minus (unsigned 10 (2 ^ 63) s)
    else signed plus (from_str_radix 10 (2 ^ 63 - 1) (c ∷ s))

-- `expiry < now` for a clock after the epoch
abbrev pub is_past : ℕ → Signed → Bool
is_past now (plus n) = ltb n now
is_past now (minus n) = ltb 0 (now + n)

abbrev pub lower : ℕ → ℕ
lower c = if leb 65 c && leb c 90 then c + 32 else c

abbrev pub to_lowercase : Text → Text
to_lowercase [] = []
to_lowercase (c ∷ s) = lower c ∷ to_lowercase s

module _ (encode : List ℕ → Text) (hmac : Text → Text → List ℕ) where
  unfoldable pub verify_subscribe_token : ℕ → Text → Text → Text → Bool
  unfolding parse_i64 trim
  verify_subscribe_token now admin_token token exp = elim (parse_i64 exp) [
    | none ↦ false
    | some expiry ↦
        if is_past now expiry
        then false
        else text_eq (encode (hmac admin_token exp)) (to_lowercase (trim token))
  ]

  -- The token and its expiry in the query.
  abbrev pub check_query : ℕ → Text → Option Text → Option Text → Bool
  check_query now expected (some token) (some exp) = verify_subscribe_token now expected token exp
  check_query now expected none exp = false
  check_query now expected (some token) none = false

  unfoldable pub authorize_subscribe : ℕ → Text → Option Text → Map Text Text → Bool
  unfolding trim is_valid verify_subscribe_token
  authorize_subscribe now admin_token auth query =
      if text_eq (trim admin_token) []
      then false
      else if is_valid (trim admin_token) auth
      then true
      else check_query now (trim admin_token) (lookup (codes "token") query)
          (lookup (codes "exp") query)

-- What wakes the loop, in order: an event of the bus, whether its text could be made and sent, a gap in
-- the bus, its end, or what the socket says.
pub data Wake : Type 0 where
  event : TelemetryEvent → (made sent : Bool) → Wake
  lagged : Wake
  bus_closed : Wake
  socket_message : Wake
  socket_closed : Wake
  socket_error : Wake

-- The events that are sent, until the loop ends.
unfoldable pub forward_events : List Wake → List TelemetryEvent
forward_events [] = []
forward_events (event (snapshot_event ns ms) made sent ∷ ws) = forward_events ws
forward_events (event (model_capacity e) true true ∷ ws) = model_capacity e ∷ forward_events ws
forward_events (event (model_capacity e) true false ∷ ws) = []
forward_events (event (model_capacity e) false sent ∷ ws) = forward_events ws
forward_events (event (node_status e) true true ∷ ws) = node_status e ∷ forward_events ws
forward_events (event (node_status e) true false ∷ ws) = []
forward_events (event (node_status e) false sent ∷ ws) = forward_events ws
forward_events (lagged ∷ ws) = forward_events ws
forward_events (bus_closed ∷ ws) = []
forward_events (socket_message ∷ ws) = forward_events ws
forward_events (socket_closed ∷ ws) = []
forward_events (socket_error ∷ ws) = []

-- `none` if the snapshot could not be sent.
unfoldable pub handle_subscribe : TelemetryEvent → Bool → List Wake → List TelemetryEvent
unfolding forward_events
handle_subscribe snapshot sent wakes = if sent then snapshot ∷ forward_events wakes else []
