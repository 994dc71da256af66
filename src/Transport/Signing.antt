-- ===== src/Transport/Signing.antt =====
-- `_chunk_sign_data`, `_chunk_sign` and `_chunk_verify` of
-- src/quinkgl/network/gossip_community.py. The numbers are 32-bit fields of a packet.
pub mod Binding
use quinkgl_framework.Common.{ℕ, String, Bool, false, [], ◌∷◌, ◌++◌, nat_eq, string_eq, pair_eq}
use quinkgl_framework.Transport.Words.{Bytes, big_endian, double_bytes}
use quinkgl_framework.Transport.Host.{Host}

-- What a signature covers. `chunk_data` is the payload of the chunk, or the ranges of an ACK.
pub record Signed : Type 0 where
  pub sender_id : String
  pub round_number : ℕ
  pub data_schema_hash : String
  pub chunk_index : ℕ
  pub chunk_data : Bytes
  pub sample_count : ℕ
  pub loss : ℕ
  pub accuracy : ℕ
  pub timestamp : ℕ
  pub total_chunks : ℕ

module _ (host : Host) where
  -- The part after the schema hash.
  unfoldable pub sign_tail : Signed → Bytes
  sign_tail m =
      big_endian m.chunk_index
      ++ (big_endian m.total_chunks
          ++ (big_endian m.sample_count
              ++ (double_bytes m.loss
                  ++ (double_bytes m.accuracy
                      ++ (big_endian m.timestamp ++ host.sha256 m.chunk_data)))))

  unfoldable pub chunk_sign_data : Signed → Bytes
  unfolding sign_tail
  chunk_sign_data m =
      host.utf8 m.sender_id
      ++ (big_endian m.round_number ++ (host.utf8 m.data_schema_hash ++ sign_tail m))

  unfoldable pub chunk_sign : Signed → Bytes
  chunk_sign m = host.sign (chunk_sign_data m)

  unfoldable pub chunk_verify : String → Bytes → Signed → Bool
  chunk_verify peer_mid [] m = false
  chunk_verify peer_mid (b ∷ signature) m = host.verify peer_mid (b ∷ signature) (chunk_sign_data m)
