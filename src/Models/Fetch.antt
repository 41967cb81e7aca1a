-- ===== src/Models/Fetch.antt =====
-- src/consumer/models.rs: the fetch of a node's model list over its tunnel, and when it is made. The
-- frames that come before the end of the channel, or before the timeout, are an argument.
use sparkl_router.Common.{
  ℕ, ◌+◌, ◌^◌, Bool, true, false, not, ◌&&◌, Option, none, some, List, [], ◌∷◌, ◌++◌, Text, codes,
  Map, insert, text_key, ltb, ◌==◌, if◌then◌else◌, length,
}
use sparkl_router.Json.{Json, ◌>>=◌, get}
use sparkl_router.Mpsc.{Mpsc}
use sparkl_router.Protocol.{InboundFrame}
use sparkl_router.Tunnel.{NodeTunnel, drop_pending}
use sparkl_router.Tunnel.Dispatch.{forward_http_request}
use sparkl_router.Consumer.Sse.{Tail, closes, times_out}
use sparkl_router.Models.Catalog.{ModelsCatalog, upsert_node}

-- The loop over the frames; an error is `none`.
unfoldable pub models_body : {V : Type 0} → Text → List (InboundFrame V) → Tail → Option Text
models_body body [] closes = some body
models_body body [] times_out = none
models_body body (InboundFrame.response status headers ∷ fs) tail =
    let rest = models_body body fs tail in if not (status == 200) then none else rest
models_body body (InboundFrame.chunk text ∷ fs) tail = models_body (body ++ text) fs tail
models_body body (InboundFrame.end status ∷ fs) tail = if status == 200 then some body else none
models_body body (InboundFrame.error code message ∷ fs) tail = none
models_body body (InboundFrame.activate_response api_key ∷ fs) tail = models_body body fs tail

module _ (j : Json) where
  unfoldable pub entries_by_id : List j.Value → Map Text j.Value → Map Text j.Value
  entries_by_id [] out = out
  entries_by_id (item ∷ items) out =
      entries_by_id items
        (elim (get j item (codes "id") >>= j.as_str) [ none ↦ out | some id ↦ insert id item out ])

  unfoldable pub parse_model_entries : Text → Option (Map Text j.Value)
  unfolding entries_by_id
  parse_model_entries body = do
    v ← j.from_str body
    items ← get j v (codes "data") >>= j.as_array
    some (entries_by_id items [])

  module _ (q : Mpsc (InboundFrame j.Value)) where
    unfoldable pub fetch_models_from_tunnel :
        ℕ
        → List (InboundFrame j.Value)
        → Tail
        → NodeTunnel j.Value q.Chan
        → NodeTunnel j.Value q.Chan × Option (Map Text j.Value)
    unfolding forward_http_request models_body parse_model_entries drop_pending
    fetch_models_from_tunnel rid frames tail t =
        let (t', sent) =
          forward_http_request q rid (codes "GET") (codes "/v1/models") (j.of_object j.empty) none
            t in
        elim sent [
          | none ↦ (t', none)
          | some pending ↦
              (drop_pending q pending t', models_body [] frames tail >>= parse_model_entries)
        ]

    unfoldable pub refresh_tunnel :
        (List ℕ → Text)
        → ℕ
        → ℕ
        → ℕ
        → List (InboundFrame j.Value)
        → Tail
        → NodeTunnel j.Value q.Chan
        → ModelsCatalog j.Value
        → NodeTunnel j.Value q.Chan × ModelsCatalog j.Value
    unfolding fetch_models_from_tunnel upsert_node
    refresh_tunnel encode now rid node_id frames tail t catalog =
        let (t', fetched) = fetch_models_from_tunnel rid frames tail t in
        elim fetched [
          | none ↦ (t', catalog)
          | some models ↦ (
            record t' { model_count = length models },
            upsert_node j encode now node_id models catalog,
          )
        ]

    -- What comes with one tunnel of the loop over all: the time, the request and the frames.
    pub record Refresh : Type 0 where
      pub now : ℕ
      pub rid : ℕ
      pub node_id : ℕ
      pub frames : List (InboundFrame j.Value)
      pub tail : Tail
      pub tunnel : NodeTunnel j.Value q.Chan

    unfoldable pub refresh_all_tunnels :
        (List ℕ → Text)
        → List Refresh
        → ModelsCatalog j.Value
        → List (NodeTunnel j.Value q.Chan) × ModelsCatalog j.Value
    unfolding refresh_tunnel
    refresh_all_tunnels encode [] catalog = ([], catalog)
    refresh_all_tunnels encode (f ∷ fs) catalog =
        let (t, one) =
          refresh_tunnel encode f.now f.rid f.node_id f.frames f.tail f.tunnel catalog in
        let (ts, all) = refresh_all_tunnels encode fs one in (t ∷ ts, all)

-- `(now - last) < min_interval_secs as i64`
abbrev pub too_soon : ℕ → ℕ → ℕ → Bool
too_soon now last min_interval_secs =
    if ltb min_interval_secs (2 ^ 63)
    then ltb now (last + min_interval_secs)
    else ltb (now + 2 ^ 64) (last + min_interval_secs)

-- The tunnel, and whether a refresh is spawned.
unfoldable pub maybe_refresh_on_pong :
    {V C : Type 0} → ℕ → ℕ → NodeTunnel V C → NodeTunnel V C × Bool
maybe_refresh_on_pong now min_interval_secs t =
    if ltb 0 t.last_models_refresh_at && too_soon now t.last_models_refresh_at min_interval_secs
    then (t, false)
    else (record t { last_models_refresh_at = now }, true)
