-- ===== src/Tests.antt =====
-- Concrete hosts, packets and states for the examples.
pub mod Reporting
pub mod Shuffling
pub mod Loop
pub mod Advertising
pub mod Meeting
pub mod Updating
pub mod Sending
pub mod Receiving
pub mod Upkeeping
pub mod Voting
pub mod Viewing
pub mod Trusting
pub mod Storing
pub mod Gossiping
use quinkgl_framework.Common.{
  ℕ, String, true, false, none, [], ◌∷◌, if◌then◌else◌, ◌==◌, nat_eq, string_eq, pair_eq, take,
  range,
}
use quinkgl_framework.Common.Dict.{Dict}
use quinkgl_framework.Transport.Words.{Bytes, little}
use quinkgl_framework.Transport.Host.{Host}
use quinkgl_framework.Transport.Buffer.{ChunkBuffer}
use quinkgl_framework.Transport.Signing.{Signed}
use quinkgl_framework.Transport.State.{
  Community, Metrics, ModelChunk, CachedTransfer, OutgoingTransfer, ChunkAck, RequestChunks,
}

-- A code for the few texts of the examples.
abbrev pub code : String → Bytes
code s =
    if s == "a"
    then 97 ∷ []
    else (if s == "ab"
        then 97 ∷ 98 ∷ []
        else (if s == "d" then 100 ∷ [] else (if s == "cd" then 99 ∷ 100 ∷ [] else [])))

-- Every signature verifies, and every model can be deserialized.
abbrev pub open_host : Host
open_host = record {
  utf8 = code;
  sha256 = take 4;
  sign = λ m. 1 ∷ take 3 m;
  verify = λ _ _ _. true;
  deserializes = λ _. true;
  byte_order = little;
}

-- Two chunks, of 768 and of 32 bytes.
abbrev pub model : Bytes
model = range 800

abbrev pub empty_buffer : ChunkBuffer
empty_buffer = record {
  transfer_id = "t";
  sender_id = "a";
  total_chunks = 2;
  data_schema_hash = "d";
  round_number = 3;
  sample_count = 10;
  loss = 0;
  accuracy = 0;
  timestamp = 7;
  created_at = 1000;
  last_ack_at = 1000;
  chunks_since_ack = 0;
  last_nack_at = 0;
  last_nack_signature = [];
  chunks = [];
}

abbrev pub no_counts : Metrics
no_counts = record {
  chunk_transfers_started = 0;
  chunk_transfers_completed = 0;
  chunk_transfers_failed_timeout = 0;
  chunk_transfers_rejected_peer_limit = 0;
  nacks_sent = 0;
  nacks_received = 0;
  nacks_ignored_budget = 0;
  chunks_resent = 0;
}

abbrev pub idle : Community
idle = record {
  node_id = "ab";
  domain = "health";
  data_schema_hash = "d";
  model_version = "1.0.0";
  manifest_hash = "";
  require_signature = true;
  local_round = 2;
  max_round_skip = 5;
  has_callback = true;
  heartbeat_sequence = 0;
  known_peers = [];
  mid_to_node_id = [];
  chunk_buffers = [];
  outgoing_transfers = [];
  active_outgoing_transfers = [];
  nack_resend_counts = [];
  nack_buckets = [];
  nack_transfer_buckets = [];
  inflight_transfers = [];
  completed_chunk_transfers = [];
  recent_chunks = [];
  last_seen_round = [];
  metrics = no_counts;
}

abbrev pub small_chunk : ModelChunk
small_chunk = record {
  transfer_id = "t";
  chunk_index = 0;
  total_chunks = 1;
  sender_id = "a";
  data_schema_hash = "d";
  round_number = 3;
  sample_count = 10;
  loss = 0;
  accuracy = 0;
  timestamp = 7;
  chunk_data = 5 ∷ 6 ∷ 7 ∷ [];
  signature = 1 ∷ [];
}

abbrev pub signed_message : Signed
signed_message = record {
  sender_id = "a";
  round_number = 1644167168;
  data_schema_hash = "cd";
  chunk_index = 0;
  chunk_data = 5 ∷ 6 ∷ [];
  sample_count = 10;
  loss = 0;
  accuracy = 0;
  timestamp = 7;
  total_chunks = 1;
}

abbrev pub cached : CachedTransfer
cached = record {
  weights = model;
  loss = 0;
  accuracy = 0;
  round = 3;
  samples = 10;
  timestamp = 7;
  recipient_mid = "m";
}

abbrev pub outgoing : OutgoingTransfer
outgoing = record {
  transfer_id = "t";
  target_node_id = "a";
  recipient_mid = "m";
  weights_bytes = model;
  sample_count = 10;
  round_number = 3;
  loss = 0;
  accuracy = 0;
  timestamp = 7;
  total_chunks = 2;
  next_index = 2;
  acked = [];
  sent_at = (0, 50) ∷ (1, 60) ∷ [];
  attempts = (0, 1) ∷ (1, 1) ∷ [];
  completed = false;
  failed_reason = none;
  created_at = 40;
  retry_count = 0;
}

-- An ACK for both chunks: the range from 0 to 1.
abbrev pub full_ack : ChunkAck
full_ack = record {
  transfer_id = "t";
  sender_id = "a";
  data_schema_hash = "d";
  round_number = 3;
  total_chunks = 2;
  sack_ranges = 0 ∷ 0 ∷ 0 ∷ 0 ∷ 0 ∷ 0 ∷ 0 ∷ 1 ∷ [];
  signature = [];
}

-- A request for the chunks 1 and 5, as a little-endian machine writes it.
abbrev pub request : RequestChunks
request = record {
  transfer_id = "t";
  sender_id = "a";
  missing_indices_bytes = 1 ∷ 0 ∷ 0 ∷ 0 ∷ 5 ∷ 0 ∷ 0 ∷ 0 ∷ [];
}
