-- ===== src/Transport/Upkeep/Nagging.antt =====
-- How many requests the task for incomplete buffers sends.
use quinkgl_framework.Common.{
  ℕ, ◌≤◌, String, [], ◌∷◌, arith, nat_eq, string_eq, pair_eq, length, length-append,
}
use quinkgl_framework.Common.Dict.{Dict}
use quinkgl_framework.Transport.Host.{Host}
use quinkgl_framework.Transport.Buffer.{ChunkBuffer}
use quinkgl_framework.Transport.Bucket.{nack_try_consume, nack_try_consume_transfer}
use quinkgl_framework.Transport.State.{Community}
use quinkgl_framework.Transport.Replies.{report_missing, send_missing_chunks_report}
use quinkgl_framework.Transport.Upkeep.{nack_buffer, nack_buffers, nack_incomplete_buffers}

length-send_missing_chunks_report :
    (host : Host) (s : Community) (peer_mid : String) (b : ChunkBuffer) (now : ℕ)
    → length (send_missing_chunks_report host s peer_mid b now).2 ≤ 1
unfolding send_missing_chunks_report report_missing
length-send_missing_chunks_report host s peer_mid b now = ground arith

length-nack_buffer :
    (host : Host) (now : ℕ) (s : Community) (key : String × String) (b : ChunkBuffer)
    → length (nack_buffer host now s key b).1 ≤ 1
unfolding nack_buffer
length-nack_buffer host now s (peer_mid, transfer_id) b =
    let s' : Community = record s {
      nack_transfer_buckets = (nack_try_consume_transfer s.nack_transfer_buckets transfer_id now).0;
    } in
    let s'' : Community = record s' {
      nack_buckets = (nack_try_consume s.nack_buckets peer_mid now).0;
    } in
    ground (arith, length-send_missing_chunks_report host s'' peer_mid b now)

length-nack_buffers :
    (host : Host) (now : ℕ) (d : Dict (String × String) ChunkBuffer) (s : Community)
    → length (nack_buffers host now d s).1 ≤ length d
unfolding nack_buffers
length-nack_buffers host now [] s = omega arith
length-nack_buffers host now ((key, b) ∷ d) s = omega (
  arith,
  length-append (nack_buffer host now s key b).1
      (nack_buffers host now d (nack_buffer host now s key b).0).1,
  length-nack_buffer host now s key b,
  length-nack_buffers host now d (nack_buffer host now s key b).0,
)

-- One run of the task for incomplete buffers sends at most one request for each buffer.
pub nack_incomplete_buffers-bounded :
    (host : Host) (now : ℕ) (s : Community)
    → length (nack_incomplete_buffers host now s).1 ≤ length s.chunk_buffers
unfolding nack_incomplete_buffers
nack_incomplete_buffers-bounded host now s = length-nack_buffers host now s.chunk_buffers s
