-- ===== src/Transport/Limits.antt =====
-- The constants at the top of src/quinkgl/network/gossip_community.py. Times are in milliseconds.
use quinkgl_framework.Common.{ℕ}

abbrev pub max_incoming_message_size : ℕ
max_incoming_message_size = 157286400

abbrev pub chunk_size : ℕ
chunk_size = 768

abbrev pub chunk_transfer_timeout : ℕ
chunk_transfer_timeout = 900000

abbrev pub chunk_ack_interval : ℕ
chunk_ack_interval = 250

abbrev pub chunk_ack_every : ℕ
chunk_ack_every = 16

abbrev pub chunk_window_initial : ℕ
chunk_window_initial = 16

abbrev pub chunk_window_max : ℕ
chunk_window_max = 128

abbrev pub chunk_ack_timeout : ℕ
chunk_ack_timeout = 12000

abbrev pub chunk_max_send_attempts : ℕ
chunk_max_send_attempts = 8

abbrev pub chunk_max_nack_indices : ℕ
chunk_max_nack_indices = 128

abbrev pub receiver_nack_report_interval : ℕ
receiver_nack_report_interval = 30000

abbrev pub outgoing_transfer_cache_ttl : ℕ
outgoing_transfer_cache_ttl = 1800000

abbrev pub max_concurrent_transfers_per_peer : ℕ
max_concurrent_transfers_per_peer = 8

abbrev pub max_total_transfers : ℕ
max_total_transfers = 50

abbrev pub max_buffered_bytes_per_peer : ℕ
max_buffered_bytes_per_peer = 209715200

abbrev pub max_chunks_per_transfer : ℕ
max_chunks_per_transfer = 300000

abbrev pub nack_bucket_interval : ℕ
nack_bucket_interval = 2000

abbrev pub nack_bucket_max_tokens : ℕ
nack_bucket_max_tokens = 40

abbrev pub nack_transfer_bucket_max_tokens : ℕ
nack_transfer_bucket_max_tokens = 20

abbrev pub nack_transfer_bucket_interval : ℕ
nack_transfer_bucket_interval = 2000

abbrev pub early_nack_age_threshold : ℕ
early_nack_age_threshold = 10000
