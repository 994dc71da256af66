-- ===== src/Transport/Receive/Steps.antt =====
-- The way of a chunk through the checks of `on_model_chunk`.
use quinkgl_framework.Common.{ℕ, ◌+◌, String, ◌≡◌, false, none, ltb, nat_eq, string_eq, pair_eq}
use quinkgl_framework.Common.Dict.{insert, has}
use quinkgl_framework.Transport.Limits.{max_chunks_per_transfer}
use quinkgl_framework.Transport.Host.{Host}
use quinkgl_framework.Transport.State.{Community, ModelChunk}
use quinkgl_framework.Transport.Admission.{buffer_key, chunk_key, authenticate}
use quinkgl_framework.Transport.Receive.{buffer_chunk, check_chunk, on_model_chunk}

-- The state in which a chunk is remembered as received.
unfoldable pub remembered : String → ModelChunk → ℕ → Community → Community
remembered peer_mid p now s = record s {
  recent_chunks = insert (chunk_key peer_mid p) now s.recent_chunks;
}

module _ (host : Host) (peer_mid : String) (p : ModelChunk) where
  pub check_chunk-passed :
      (now : ℕ) (s : Community)
      → ltb max_chunks_per_transfer p.total_chunks ≡ false
      → ltb (s.local_round + s.max_round_skip) p.round_number ≡ false
      → check_chunk host peer_mid p now s ≡ buffer_chunk host peer_mid p now s
  unfolding check_chunk
  check_chunk-passed now s small timely = rw (small, timely, check_chunk)

  pub on_model_chunk-fresh :
      (now : ℕ) (s : Community)
      → authenticate host s peer_mid p ≡ none
      → has (buffer_key peer_mid p) s.completed_chunk_transfers ≡ false
      → has (chunk_key peer_mid p) s.recent_chunks ≡ false
      → on_model_chunk host peer_mid p now s
        ≡ check_chunk host peer_mid p now (remembered peer_mid p now s)
  unfolding on_model_chunk remembered
  on_model_chunk-fresh now s a c n = rw (a, c, n, on_model_chunk)
