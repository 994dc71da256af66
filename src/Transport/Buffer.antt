-- ===== src/Transport/Buffer.antt =====
-- `ChunkBuffer` of src/quinkgl/network/gossip_community.py. A loss or an accuracy is the 64-bit
-- pattern of its float: the transport only carries it. `time.time()` is an argument, in
-- milliseconds.
pub mod Reassembly
pub mod Delivery
use quinkgl_framework.Common.{
  ℕ, ◌+◌, ◌-◌, ◌*◌, ◌/◌, min, String, Bool, none, some, List, [], ◌∷◌, ◌++◌, ltb, if◌then◌else◌,
  ◌==◌, nat_eq, string_eq, pair_eq, length, take, drop, range, Result, ok, err,
}
use quinkgl_framework.Common.Dict.{Dict, lookup, insert, has}
use quinkgl_framework.Transport.Words.{Bytes}
use quinkgl_framework.Transport.Limits.{chunk_size, chunk_transfer_timeout}

pub record ChunkBuffer : Type 0 where
  pub transfer_id : String
  pub sender_id : String
  pub total_chunks : ℕ
  pub data_schema_hash : String
  pub round_number : ℕ
  pub sample_count : ℕ
  pub loss : ℕ
  pub accuracy : ℕ
  pub timestamp : ℕ
  pub created_at : ℕ
  pub last_ack_at : ℕ
  pub chunks_since_ack : ℕ
  pub last_nack_at : ℕ
  pub last_nack_signature : Bytes
  pub chunks : Dict ℕ Bytes

unfoldable pub is_complete : ChunkBuffer → Bool
is_complete b = length b.chunks == b.total_chunks

-- The new buffer, and whether it is complete.
unfoldable pub add_chunk : ChunkBuffer → ℕ → Bytes → ChunkBuffer × Bool
unfolding is_complete
add_chunk b index chunk =
    let b' : ChunkBuffer = record b {
      chunks_since_ack = if has index b.chunks then b.chunks_since_ack else b.chunks_since_ack + 1;
      chunks = insert index chunk b.chunks;
    } in
    (b', is_complete b')

unfoldable pub is_expired : ChunkBuffer → ℕ → Bool
is_expired b now = ltb chunk_transfer_timeout (now - b.created_at)

pub data ReassemblyError : Type 0 where
  incomplete : ReassemblyError
  key_error : ℕ → ReassemblyError

-- `b''.join([chunks[i] for i in indices])`
unfoldable pub join_chunks : Dict ℕ Bytes → List ℕ → Result ReassemblyError Bytes
join_chunks chunks [] = ok []
join_chunks chunks (i ∷ is) = elim (lookup i chunks) [
  | none ↦ err (key_error i)
  | some chunk ↦ elim (join_chunks chunks is) [ err e ↦ err e | ok rest ↦ ok (chunk ++ rest) ]
]

unfoldable pub reassemble : ChunkBuffer → Result ReassemblyError Bytes
unfolding is_complete join_chunks
reassemble b = if is_complete b then join_chunks b.chunks (range b.total_chunks) else err incomplete

-- The sender's side: `(len(weights_bytes) + CHUNK_SIZE - 1) // CHUNK_SIZE`.
unfoldable pub chunk_total : Bytes → ℕ
chunk_total weights = (length weights + chunk_size - 1) / chunk_size

-- `weights_bytes[start:end]` of the chunk with an index.
unfoldable pub chunk_slice : Bytes → ℕ → Bytes
chunk_slice weights index =
    let start = index * chunk_size in
    take (min (start + chunk_size) (length weights) - start) (drop start weights)
