-- ===== src/Lib.antt =====
-- The router of sparkl: providers (nodes) hold a tunnel to it, consumers send requests that it
-- forwards through the tunnel of their session's node, and the tokens that are spent are reported to
-- an escrow contract in batches. The parts and the files that model them:
--
--   src/capacity/mod.rs        Capacity and its children: the slots of each model of each node.
--                              `attempt` is one atomic operation of `acquire`; `Step` interleaves any
--                              number of calls and guards.
--   src/protocol.rs            Protocol: the frames.
--   src/state.rs               Tunnel: `NodeTunnel`, with tokio's channels as the interface `Mpsc`.
--   src/tunnel/dispatch.rs     Tunnel (operations), Tunnel.Events (histories), Tunnel.Delivery.
--   src/consumer/sse.rs        Consumer.Sse: the collected response, and the stream with its
--                              completion; `Poll` is one round of the loop of the stream.
--   src/consumer/usage_batch.rs  UsageBatch: the batches of each session. Runs interleaves the regions
--                              under their locks; Cached adds the calls on the cache of sessions.
--   src/chain/session.rs       Chain.Session: the decoder of a session of the contract.
--   src/chain/mod.rs           Chain.Cache: the cache of sessions.
--   src/chain/usage.rs         Chain.Usage: the transactions that report usage, with their retries.
--   src/chain/watcher.rs       Chain.Watcher: a poll of the contract's logs, and the loop of polls.
--   src/admin.rs               Admin: the token of the administrative routes.
--   src/consumer/bearer.rs     Consumer.Bearer: the bearer token.
--   src/consumer/middleware.rs  Consumer.Gate: who may call the protected routes.
--   src/consumer/forward.rs    Consumer.Forward: the handler of chat completions.
--   src/tunnel/connect.rs, src/node_auth.rs  Handshake: the checks of a node's first frame.
--   src/tunnel/registry.rs, src/tunnel/connect.rs (the reconnect), src/tunnel/lifecycle.rs
--                              Lifecycle: the tunnels of all nodes, their dispatch and their end.
--   src/consumer/models.rs     Models and its children: the catalog with its union (Catalog), the fetch of
--                              a node's list (Fetch), and the JSON of the list (Merge, Aggregate).
--   src/consumer/offerings.rs  Models.Offering, with the ids of nodes in Models.NodeId.
--   src/consumer/catalog.rs    Models.Query, Models.Filters: the list of providers and its filters;
--                              Models.Features: the documented feature keys.
--   src/consumer/metering.rs   Consumer.Metering: the usage that a response reports.
--   src/consumer/activate.rs   Consumer.Activate: the activation of a session.
--   src/chain/record_usage_key.rs  Chain.RoleKey: the key of the recording role, its file and its gas.
--   src/chain/registry.rs      Chain.Registry: the operator of a node.
--   src/telemetry/mod.rs       Telemetry: the events.
--   src/status/                Status: the pages of the nodes (Nodes), the first message of the stream
--                              (Snapshot) and its subscribers (Subscribe).
--   src/config.rs              Config: the settings and what stands for a missing one.
--   src/main.rs                Startup: which key signs, and whether usage is batched.
--
-- Json is the interface of a JSON library, with the operations the source calls; Consumer.Reading fills
-- with it, and with the catalog, what the handler of chat completions reads.
--
-- A request passes Consumer.Gate and holds a guard of Capacity while its frames pass through Tunnel to
-- Consumer.Sse, which gives the guard back and reports the usage to UsageBatch.
--
-- Numbers are natural numbers; u32 counters wrap by `% 2 ^ 32` and u64 additions saturate as in the
-- source. Texts are lists of bytes, node ids and request ids are numbers. A time is a number that the
-- caller passes in. No definition uses fuel: each recursion is on a list or on the attempts that are
-- left, and `acquire`, whose loop need not end under contention, is a step relation.
--
-- Not modelled: serde_json, base58, hexadecimal and cryptographic libraries, HTTP and WebSocket I/O, the
-- reading of files and the network calls to the chain, which are parameters where a definition uses
-- their results; the routes, metrics and logs; the spawning of tasks and the shutdown of the process.
mod Common
pub mod Json
pub mod Models
pub mod Capacity
pub mod Mpsc
pub mod Protocol
pub mod Tunnel
pub mod Handshake
pub mod Lifecycle
pub mod Consumer
pub mod UsageBatch
pub mod Chain
pub mod Admin
pub mod Telemetry
pub mod Config
pub mod Startup
pub mod Status
mod Tests
