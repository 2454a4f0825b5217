-- ===== src/Lib.antt =====
-- Verification of the Reveries network: a peer-to-peer network of nodes that host agents, keep the
-- re-encrypted fragments of their secrets, and start an agent anew on the next node when its vessel
-- goes silent; and of the proxy that meters the agents' use of language models.
--
-- The parts, and where they are modelled:
--
-- - Types: the data that nodes keep and exchange, node/p2p-network/src/types. Types/Kademlia is
--   kademlia_keys.rs, how a record key is read; Types/Signatures is `AccessKey::verify_access` of
--   signatures.rs, Types/Text the texts of access keys and conditions there, and Types/Naming how a name
--   is read in reverie_name.rs.
-- - PeerManager: node/p2p-network/src/network_events/peer_manager, what a node knows of its peers.
--   PeerManager/Kfrags is about the two indices of key fragments, PeerManager/Vessels about which
--   agent a node believes a peer to host, PeerManager/Liveness about who counts as offline, and
--   PeerManager/Invariant puts these together for every operation.
-- - Network: node/p2p-network/src/network_events. Network holds the state of the event loop,
--   `NetworkEvents`; Network/Reincarnation and Network/Failure are reincarnation.rs, the latter with
--   node_client/container_manager.rs (under node/p2p-network/src), Network/Fragments
--   request_response_handlers.rs (its children are about what it gives away), Network/Commands
--   command_handlers.rs, Network/Discovery kademlia_handlers.rs and swarm_handlers.rs.
--   Network/Invariant goes through every handler, and Network/Events is the select loop of mod.rs as
--   a step relation with its reachable states.
-- - Client: node/p2p-network/src/node_client, the methods that callers of a node use. Client/Vessels,
--   Client/Broadcast and Client/Cfrags are the parts of mod.rs that choose vessels, hand fragments out
--   and read them back; Client/Spawn is reincarnation.rs with the start of memories of memories.rs. A
--   method returns the commands that it hands to the event loop with its result (Client/Run), and what
--   comes back on its channels is an argument. Client/Distribution puts a broadcast together with the
--   event loop, Client/Respawn is about the end of a respawn, Client/Listener is
--   network_events_listener.rs, and Client/Recovery goes from an encrypted
--   secret over the nodes' request handlers back to the secret. Client/LlmProxy is llm_proxy_client.rs,
--   and Client/LlmProxy/Delivery puts it together with the server of the proxy; Client/Memories is the
--   use of a memory in memories.rs, and Client/Docker the start of the proxy's containers in mod.rs.
-- - Rpc: node/rpc/src/rpc_server.rs, the methods of `run_server` over an interface of the node client.
-- - Usage: the node's side of usage reports. Usage/Attestation is the check of a quote in
--   runtime/src/tee_attestation.rs (under node), Usage/Verify and Usage/Ledger are
--   node_client/usage_verification.rs, Usage/Store and Usage/Readback usage_db.rs with its two SQL
--   statements on a list of rows, and Usage/Metrics and Usage/Totals
--   runtime/src/llm/mcp_tool_usage.rs.
-- - Heartbeat: node/p2p-network/src/behaviour/heartbeat_behaviour. Heartbeat/Handler is
--   heartbeat_handler.rs, Heartbeat/Behaviour mod.rs and Heartbeat/Frame the frames of
--   tee_quote_parser.rs.
-- - Proxy: llm-proxy/src. Proxy/Sse is the buffer of parser/sse_parser.rs, Proxy/Sse/Lines how an
--   event is cut into lines, Proxy/TeeBody tee_body.rs and tee_body_sse.rs under every schedule of
--   the client and the logging task (from frames to the report in Proxy/TeeBody/Metered),
--   Proxy/Parser with its children the parsers (mod.rs, anthropic.rs, deepseek.rs, the data lines
--   of sse_parser.rs) over Proxy/Json, a value of serde_json. Proxy/Usage is the task of usage.rs
--   that reports the usage of a streamed answer, Proxy/Parser/Regular the one for a whole answer,
--   and Proxy/Parser/Effects is about what the events of a stream tell. Proxy/ApiKeys is
--   api_key_delegation_server, with the timestamps of its middleware in Proxy/Clock, and
--   Proxy/Handler the handlers of main.rs: a request gets a key of that store, and the context
--   that it leaves decides in Proxy/Handler/Charging who is charged.
-- - Common: the helpers that the parts share, with maps and sets as lists.
-- - Tests: runs on concrete data, and each theorem at a concrete input.
--
-- How code becomes a definition: a struct is a record, an enum a data type, and a method that
-- changes its object is a function to the changed record. What a handler sends (to the swarm, the
-- DHT, the node client or a waiting caller) is appended to `outbox`. A handler returns the state
-- with an error where it fails, since what it changed before stays changed; a panic is one of the
-- errors. Whether the other end of a channel still listens is an argument or a field of `World`.
-- The clock, the ids that the swarm gives out and what futures say when polled are
-- arguments. The crates that the code calls (umbral_pre, serde_json, sha3, alloy) and the NEAR
-- contract are fields of the records `World`, `Primitives`, `Codec`, `UmbralKey`, `Verifier`, `Dcap`,
-- `Sqlite`, `ApiWorld`, `Codecs`, `Readers`, `ProxyWorld`, `Registrar`, `ProxyCaller`, `Hex`,
-- `DockerHost` and `Params`; what a theorem relies on of them is written out, for umbral_pre as
-- `UmbralLaws`, for signatures of requests as `ProxyLaws`, for UTF-8 as `ReadsAscii`.
--
-- The HTTP servers and clients (axum, reqwest with its TLS) are such parameters too: what the
-- extractor of a JSON body refuses, what is answered where no route fits, and whether the client
-- accepts the proxy.
--
-- Bounds and fuel: the loop of `process_chunk` runs on fuel, for which the length of the buffer is
-- enough, since each event takes at least two bytes off it. The fail count saturates at the
-- largest u32, the block height and the nonce of a name wrap, and so do sums of tokens (u64) and
-- differences of timestamps (i64).
--
-- Not modelled: logging and JSON summaries; the set-up of the swarm; the clients of chains and
-- attestation devices; the two subscriptions of the RPC server, its client and the command line; and
-- the start of the proxy. Of the pending requests of a node, those for providers and for the holder of
-- a reverie are left out, since nothing asks for them. The order in which a hash map is traversed is
-- the order of first insertion.
pub mod Common
pub mod Types
pub mod Heartbeat
pub mod PeerManager
pub mod Network
pub mod Client
pub mod Proxy
pub mod Usage
pub mod Rpc
pub mod Tests
