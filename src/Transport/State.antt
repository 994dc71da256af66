-- ===== src/Transport/State.antt =====
-- The state of `GossipLearningCommunity` in src/quinkgl/network/gossip_community.py that its
-- handlers read and write, their packets, and what a handler does to the outside.
-- A peer is its mid. An event emitter is attached; times are in milliseconds.
use quinkgl_framework.Common.{ℕ, String, Bool, Option, List, nat_eq, string_eq, pair_eq}
use quinkgl_framework.Common.Dict.{Dict}
use quinkgl_framework.Transport.Words.{Bytes}
use quinkgl_framework.Transport.Buffer.{ChunkBuffer}
use quinkgl_framework.Transport.Bucket.{Bucket}
use quinkgl_framework.Transport.Signing.{Signed}

pub record ModelChunk : Type 0 where
  pub transfer_id : String
  pub chunk_index : ℕ
  pub total_chunks : ℕ
  pub sender_id : String
  pub data_schema_hash : String
  pub round_number : ℕ
  pub sample_count : ℕ
  pub loss : ℕ
  pub accuracy : ℕ
  pub timestamp : ℕ
  pub chunk_data : Bytes
  pub signature : Bytes

pub record ChunkAck : Type 0 where
  pub transfer_id : String
  pub sender_id : String
  pub data_schema_hash : String
  pub round_number : ℕ
  pub total_chunks : ℕ
  pub sack_ranges : Bytes
  pub signature : Bytes

pub record RequestChunks : Type 0 where
  pub transfer_id : String
  pub sender_id : String
  pub missing_indices_bytes : Bytes

-- The fields that a chunk's signature covers.
unfoldable pub signed_chunk : ModelChunk → Signed
signed_chunk p = record {
  sender_id = p.sender_id;
  round_number = p.round_number;
  data_schema_hash = p.data_schema_hash;
  chunk_index = p.chunk_index;
  chunk_data = p.chunk_data;
  sample_count = p.sample_count;
  loss = p.loss;
  accuracy = p.accuracy;
  timestamp = p.timestamp;
  total_chunks = p.total_chunks;
}

-- The fields that an ACK's signature covers: the defaults stand for the rest.
unfoldable pub signed_ack : String → ℕ → String → ℕ → Bytes → Signed
signed_ack sender_id round_number data_schema_hash total_chunks sack_ranges = record {
  sender_id = sender_id;
  round_number = round_number;
  data_schema_hash = data_schema_hash;
  chunk_index = 0;
  chunk_data = sack_ranges;
  sample_count = 0;
  loss = 0;
  accuracy = 0;
  timestamp = 0;
  total_chunks = total_chunks;
}

-- `ModelUpdatePayload`
pub record ModelUpdate : Type 0 where
  pub sender_id : String
  pub weights_bytes : Bytes
  pub sample_count : ℕ
  pub round_number : ℕ
  pub data_schema_hash : String
  pub loss : ℕ
  pub accuracy : ℕ
  pub timestamp : ℕ
  pub signature : Bytes

-- Why a payload was dropped.
pub data Reason : Type 0 where
  identity_mismatch invalid_signature missing_signature : Reason
  oversized_transfer future_round duplicate_completed_transfer : Reason
  peer_transfer_limit global_transfer_limit peer_byte_budget : Reason
  oversized_model deserialization_error processing_error : Reason
  unknown_transfer unauthorized_nack malformed_nack : Reason
  nack_transfer_rate_limited nack_rate_limited : Reason
  replayed_round callback_error manifest_mismatch : Reason

pub data Effect : Type 0 where
  -- `_emit_ipv8_payload_dropped`
  dropped : Reason → Effect
  -- packets to a peer
  send_ack : String → ChunkAck → Effect
  send_heartbeat : String → ℕ → Effect
  send_request : String → RequestChunks → Effect
  send_chunk : String → ModelChunk → Effect
  send_update : String → ModelUpdate → Effect
  -- the model callback, with the sender, the bytes that were deserialized, the number of samples,
  -- the round, the loss and the accuracy
  deliver : String → Bytes → ℕ → ℕ → ℕ → ℕ → Effect
  -- the callback of a discovered peer, with its node id
  discovered : String → Effect

-- `PeerInfo`; the data fingerprint is its JSON text.
pub record PeerInfo : Type 0 where
  pub peer_mid : String
  pub node_id : String
  pub domain : String
  pub data_schema_hash : String
  pub model_version : String
  pub manifest_id : String
  pub data_fingerprint : Option String
  pub last_seen : ℕ

pub record Metrics : Type 0 where
  pub chunk_transfers_started : ℕ
  pub chunk_transfers_completed : ℕ
  pub chunk_transfers_failed_timeout : ℕ
  pub chunk_transfers_rejected_peer_limit : ℕ
  pub nacks_sent : ℕ
  pub nacks_received : ℕ
  pub nacks_ignored_budget : ℕ
  pub chunks_resent : ℕ

-- An entry of `_outgoing_transfers`; its timestamp is in seconds.
pub record CachedTransfer : Type 0 where
  pub weights : Bytes
  pub loss : ℕ
  pub accuracy : ℕ
  pub round : ℕ
  pub samples : ℕ
  pub timestamp : ℕ
  pub recipient_mid : String

pub data Failure : Type 0 where
  timeout : Failure
  max_attempts : ℕ → Failure

-- `OutgoingChunkTransfer`
pub record OutgoingTransfer : Type 0 where
  pub transfer_id : String
  pub target_node_id : String
  pub recipient_mid : String
  pub weights_bytes : Bytes
  pub sample_count : ℕ
  pub round_number : ℕ
  pub loss : ℕ
  pub accuracy : ℕ
  pub timestamp : ℕ
  pub total_chunks : ℕ
  pub next_index : ℕ
  pub acked : List ℕ
  pub sent_at : Dict ℕ ℕ
  pub attempts : Dict ℕ ℕ
  pub completed : Bool
  pub failed_reason : Option Failure
  pub created_at : ℕ
  pub retry_count : ℕ

pub record Community : Type 0 where
  pub node_id : String
  pub domain : String
  pub data_schema_hash : String
  pub model_version : String
  -- the swarm id of an attached manifest, or ""
  pub manifest_hash : String
  pub require_signature : Bool
  -- what `_get_local_round` and `_get_max_round_skip` return
  pub local_round : ℕ
  pub max_round_skip : ℕ
  -- a callback for model updates is set
  pub has_callback : Bool
  pub heartbeat_sequence : ℕ
  pub known_peers : Dict String PeerInfo
  pub mid_to_node_id : Dict String String
  pub chunk_buffers : Dict (String × String) ChunkBuffer
  pub outgoing_transfers : Dict String CachedTransfer
  pub active_outgoing_transfers : Dict String OutgoingTransfer
  pub nack_resend_counts : Dict String ℕ
  pub nack_buckets : Dict String Bucket
  pub nack_transfer_buckets : Dict String Bucket
  pub inflight_transfers : Dict (String × (ℕ × String)) String
  pub completed_chunk_transfers : Dict (String × String) ℕ
  pub recent_chunks : Dict (String × (String × ℕ)) ℕ
  -- the last round of a direct update, by mid
  pub last_seen_round : Dict String ℕ
  pub metrics : Metrics
