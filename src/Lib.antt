-- ===== src/Lib.antt =====
-- quinkgl-framework is a gossip learning framework: peers train models and send them to each other
-- over IPv8. This library models its core, in these parts:
--
-- * Transport is the chunked transfer of models in src/quinkgl/network/gossip_community.py. A sender
--   cuts the bytes of a model into chunks of CHUNK_SIZE bytes; the receiver collects them in a
--   ChunkBuffer for each peer and transfer, answers with ACKs (ranges of indices) and with requests
--   for missing chunks, and hands the bytes to the model callback when all chunks are there.
--     Transport/Limits: the constants. Transport/Words: the formats of `struct`.
--     Transport/IndexSet, Transport/Ranges: sets of indices and their packing in an ACK
--       (`_chunk_index_ranges`, `_pack_chunk_ranges`, `_unpack_chunk_ranges`).
--     Transport/Signing: `_chunk_sign_data`, `_chunk_sign`, `_chunk_verify`.
--     Transport/Buffer: `ChunkBuffer`, and how a sender cuts its bytes.
--     Transport/Bucket: the token buckets `_nack_try_consume` and `_nack_try_consume_transfer`.
--     Transport/State: the packets, the fields of `GossipLearningCommunity` that the handlers use,
--       and the effects of a handler: packets to send, drops to report, a model to hand over.
--     Transport/Admission, Transport/Replies, Transport/Receive: `on_model_chunk`, with the checks
--       of a chunk, the answers to the sender, and the whole handler.
--     Transport/Acks: `on_chunk_ack`. Transport/Requests: `on_request_chunks`.
--     Transport/Sender: `_send_chunked_model_update`, whose loop is a function from a point of the
--       loop to the next one; a list of events says when the loop runs on and when an ACK or a request
--       comes between.
--     Transport/Upkeep: the periodic tasks `_cleanup_stale_peers`, `_cleanup_stale_transfers`,
--       `_cleanup_outgoing_cache` and `_nack_incomplete_buffers`.
-- * Consensus is `ConsensusTracker` of src/quinkgl/gossip/consensus.py: the checkpoints that peers
--   announce for a round, and whether enough of them agree on the loss.
-- * Topology/Sampler is `PeerSampler` of src/quinkgl/topology/sampler.py: the partial view of the
--   network that shuffles change, with the eviction of the oldest peer.
-- * Trust/Tofu is `TofuCache` of src/quinkgl/network/tofu.py: the creator key that was first seen for
--   a swarm, in memory and in its file.
-- * Membership is how a node comes to know its peers, in src/quinkgl/network/gossip_community.py:
--   `on_discovery_announce` with its checks, heartbeats, checkpoints, and the handlers of shuffles.
-- * Updates is `on_model_update`, up to its callback and after it, with the replay protection by
--   round, and `send_model_update`, which sends one packet or runs Transport/Sender.
-- * Directory is `SwarmDirectoryCommunity` of src/quinkgl/network/directory.py: the cache of signed
--   advertisements, its limits, and its queries.
-- * Topology/Cyclon is `CyclonTopology` of src/quinkgl/topology/cyclon.py over that view: the shuffles of
--   both sides, with the random choice as an argument.
-- * Telemetry/Tokens is `TelemetryTokenRegistry` of src/quinkgl/telemetry/tokens.py: tokens by their
--   hashes, and the file that keeps them.
-- * Store is `ModelStore` of src/quinkgl/storage/model_store.py, the checkpoints of a node in memory and in
--   a directory. Store/Names: ids and file names. Store/Values: `_serialize_value` and its inverse.
--     Store/Checkpoint: `ModelCheckpoint` and its bytes.
--     Store/State: the fields, and `_enforce_memory_limit`. Store/Saving, Store/Loading, Store/Listing,
--     Store/Deletion: the operations. The other files prove what they do.
-- * Gossip is `ModelAggregator` of src/quinkgl/gossip/aggregator.py. Gossip/Messages: the messages of
--   src/quinkgl/gossip/protocol.py. Gossip/Aggregator: `handle_incoming_message` and its handlers, over
--   Consensus. Gossip/Aggregation: `_aggregate_models` in two steps, before and after the call of the
--   strategy. Gossip/Pending: series of what happens to a node, messages and these steps in any order.
-- * Common has dicts, decidable equality, lists and results. Tests has concrete states and one
--   example for each result with conditions.
--
-- A handler is a function of the state, the peer, the packet and the time; it returns the new
-- state and the effects. Dicts are association lists in insertion order, as in Python; a set of
-- indices is an ascending list. Times are whole milliseconds, and seconds in Directory. A loss in
-- a packet is the pattern of its 64 bits; in Consensus a loss is a fixed-point number and a mean
-- is compared exactly, where the source rounds floats. Every loop of the source that is modelled,
-- but for the sender's, runs over a list or a range, so the recursion is structural and no fuel
-- is needed. The pause between two packets of a resend lets other handlers run in the source;
-- here a resend is one step.
--
-- The sender's loop has no fuel either: a run takes one step for each tick in a list of events, and
-- its measure says how many ticks are enough.
--
-- Keys, SHA-256, text encoding, the deserializer of models and the byte order of the machine are
-- the parameter Host; the JSON of an advertisement and its Ed25519 signature are the parameter
-- Crypto of Directory; msgpack, zlib, SHA-256, and the formats of numpy and datetime are the parameter Codec of Store.
--
-- Not modelled are the manifests, the node, the training and the hooks of the aggregator, the
-- aggregation (numerical code on numpy arrays), the store and the server of telemetry (SQL and
-- HTTP), the file that keeps the rounds of peers, the tasks that call the maintenance at
-- intervals, and the bindings to machine learning libraries.
pub mod Common
pub mod Transport
pub mod Consensus
pub mod Topology
pub mod Trust
pub mod Directory
pub mod Membership
pub mod Updates
pub mod Telemetry
pub mod Store
pub mod Gossip
pub mod Tests
