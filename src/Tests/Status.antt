-- ===== src/Tests/Status.antt =====
-- The theorems of Status, Chain/RoleKey, Consumer/Reading and Models/Throttle at concrete inputs.
use sparkl_router.Common.{
  ℕ, ◌≡◌, ◌≢◌, ◌↔◌, ◌⊎◌, refl, Bool, true, false, Option, none, some, List, [], ◌∷◌, ◌++◌, arith,
  Text, codes, Map, lookup, insert, remove, text_key, is_some, text_eq, if◌then◌else◌, trim,
  trim_start, trim_end,
}
use sparkl_router.Json.{Json}
use sparkl_router.Capacity.{queue_full, max_queue_depth}
use sparkl_router.Models.Catalog.{
  concurrency_for, contains, listings, listings_of, rebuild_union, upsert_node,
}
use sparkl_router.Models.Merge.{merge_all, merge_model_entry}
use sparkl_router.Models.Replay.{Event, upsert, advertised, replay}
use sparkl_router.Models.Throttle.{refreshes, IsSpaced, refreshes-IsSpaced}
use sparkl_router.Tunnel.{NodeTunnel}
use sparkl_router.Consumer.Gate.{AuthenticatedSession}
use sparkl_router.Consumer.Sse.{closes}
use sparkl_router.Consumer.Forward.{Answer, chat_completions, with_model}
use sparkl_router.Consumer.Reading.{parse_model, parse_stream_flag, json_reading}
use sparkl_router.Consumer.Reading.Offered.{sent_body, chat_completions-advertised}
use sparkl_router.Config.{SettlementConfig, default_settlement, is_active}
use sparkl_router.Startup.{Started, start}
use sparkl_router.Startup.Batching.{start-role}
use sparkl_router.Chain.RoleKey.{
  StoredRecordUsageKey, Signers, Disk, Network, parse_signer, load_or_generate, persist_key_file,
}
use sparkl_router.Chain.RoleKey.Reload.{load_or_generate-again}
use sparkl_router.Admin.Token.{IsAuthorized}
use sparkl_router.Status.Subscribe.{authorize_subscribe}
use sparkl_router.Status.Authorized.{IsLinked, authorize_subscribe_iff}
use sparkl_router.Tests.Values.{Value, fields, field, no_fields, string, number, json, hex}

-- A link of the admin token "adm", under a code that repeats its text.
abbrev query : Map Text Text
query = (codes "token", codes "250") ∷ (codes "exp", codes "250") ∷ []

authorize_subscribe_iff_example :
    (authorize_subscribe (λ b. b) (λ k s. s) 100 (codes " adm ") none query ≡ true) ↔ (
      IsAuthorized (trim (codes " adm ")) none
      ⊎ ((trim (codes " adm ") ≢ [])
          × IsLinked (λ b. b) (λ k s. s) 100 (trim (codes " adm ")) query))
authorize_subscribe_iff_example =
    authorize_subscribe_iff (λ b. b) (λ k s. s) 100 (codes " adm ") none query

-- Two keys; a stored key is its address, then its text.
abbrev parse : Text → Option Bool
parse s =
    if text_eq s (codes "0x01")
    then some true
    else if text_eq s (codes "0x00")
    then some false
    else none

abbrev to_bytes : Bool → List ℕ
to_bytes true = 1 ∷ []
to_bytes false = 0 ∷ []

parse_to_bytes : (b : Bool) → parse (codes "0x" ++ hex.encode (to_bytes b)) ≡ some b
parse_to_bytes true = refl
parse_to_bytes false = refl

abbrev from_slice : Text → Option StoredRecordUsageKey
from_slice [] = none
from_slice (a ∷ s) = some (record { private_key = s; address = a })

-- The key 1 has the address 9.
abbrev signers : Signers hex
signers = record {
  Signer = Bool;
  parse = parse;
  to_bytes = to_bytes;
  address_of = λ b. if b then 9 else 8;
  to_vec_pretty = λ k. k.address ∷ k.private_key;
  from_slice = from_slice;
  parse_written = parse_to_bytes;
  from_slice_to_vec = λ k. refl;
}

abbrev disk : Disk
disk = record {
  can_create = true;
  can_read = true;
  can_write = true;
  key_file = none;
  is_private = false;
}

abbrev written : Disk
written = record {
  can_create = true;
  can_read = true;
  can_write = true;
  key_file = some (9 ∷ codes "0x01");
  is_private = true;
}

load_or_generate-again_example :
    load_or_generate hex signers false written []
    ≡ (written, some (record { private_key_hex = codes "0x01"; address = 9; generated = false }))
unfolding load_or_generate persist_key_file trim trim_start trim_end
load_or_generate-again_example =
    load_or_generate-again hex signers true false disk written []
      (record { private_key_hex = codes "0x01"; address = 9; generated = true }) refl refl refl

abbrev network : Network hex signers
network = record {
  escrow = some 5;
  url_is_valid = true;
  role = some 9;
  balance = some 200000000000000000;
  role_sent = true;
  role_confirmed = true;
  gas_sent = true;
  gas_confirmed = true;
}

abbrev settlement : SettlementConfig
settlement = record default_settlement { enabled = true }

abbrev started : Started hex signers
started = record {
  disk = written;
  sent = [];
  settlement = record settlement { record_usage_private_key = codes "0x01" };
  usage_batcher = some true;
}

start-role_example :
    (is_active true started.settlement ≡ true)
    × ((parse_signer hex signers started.settlement.record_usage_private_key ≡ some true)
        × (network.role ≡ some (signers.address_of true)))
unfolding start
start-role_example =
    start-role hex signers false true true written settlement network network started refl refl

abbrev tunnel : NodeTunnel (Unit {0}) (Unit {0})
tunnel = record {
  node_id = 1;
  moniker = none;
  sender = [];
  sender_open = true;
  pending = [];
  channels = λ _. tt;
  created = 0;
  last_pong_at = 0;
  last_models_refresh_at = 0;
  model_count = 0;
  shutdown = false;
}

refreshes-IsSpaced_example : IsSpaced 30 0 (refreshes 30 (100 ∷ 110 ∷ 130 ∷ []) tunnel)
refreshes-IsSpaced_example = refreshes-IsSpaced 30 (100 ∷ 110 ∷ 130 ∷ []) tunnel (omega arith)

-- `{"model": "llama"}`
abbrev request : Value
request = fields (field (codes "model") (string (codes "llama")) no_fields)

abbrev j : Json
j = json (λ s. if text_eq s (codes "R") then some request else none)

abbrev models : Map Text Value
models =
    (
      codes "llama",
      fields (
          field (codes "sparkl") (fields (field (codes "concurrency") (number 2) no_fields))
            no_fields),
    )
    ∷ []

abbrev history : List (Event Value)
history = upsert 8 2 models ∷ []

abbrev auth : AuthenticatedSession
auth = record { session_id = 7; user = 1; node_id = 2; locked_internal = 100; usage_recorded = 5 }

abbrev busy : Answer (Unit {0})
busy = record {
  online = true;
  acquired = some (queue_full 2 2 0);
  sent = false;
  frames = [];
  tail = closes;
  polls = [];
}

abbrev base64 : Text → Option (List ℕ)
base64 s = none

takes_action :
    (chat_completions
      (json_reading j base64 (λ b. none) (λ s. s) (replay j hex.encode history))
      (λ c. c)
      some
      true
      auth
      (codes "R")
      busy).1
    ≢ []
unfolding contains replay upsert_node rebuild_union merge_all merge_model_entry insert remove lookup
    listings listings_of chat_completions with_model json_reading parse_model parse_stream_flag
    max_queue_depth concurrency_for
takes_action = λ e. cc

chat_completions-advertised_example :
    (model : Text) × ((parse_model j
          (sent_body j hex.encode base64 (λ b. none) (λ s. s) (λ c. c) some true (codes "R"))
        ≡ some model)
      × ((n : ℕ) × ((ms : Map Text Value) × ((advertised history n ≡ some ms)
              × (is_some (lookup model ms) ≡ true)))))
unfolding listings_of
chat_completions-advertised_example =
    chat_completions-advertised j hex.encode base64 (λ b. none) (λ s. s) (λ c. c) some true history
      auth (codes "R") busy (((_, refl, (_, refl)), tt), tt) takes_action
