-- ===== src/Transport/Receive/Lockout.antt =====
-- A chunk that was refused for want of room is remembered as received.
use quinkgl_framework.Common.{
  ℕ, ◌+◌, String, ◌≡◌, ap, ◌∙◌, true, false, none, some, [], ◌∷◌, arith, ltb, nat_eq, string_eq,
  pair_eq,
}
use quinkgl_framework.Common.Dict.{lookup, has, lookup-insert_self}
use quinkgl_framework.Transport.Limits.{max_chunks_per_transfer}
use quinkgl_framework.Transport.Host.{Host}
use quinkgl_framework.Transport.State.{Community, ModelChunk, Reason, dropped}
use quinkgl_framework.Transport.Admission.{
  buffer_key, chunk_key, authenticate, capacity, count_refusal,
}
use quinkgl_framework.Transport.Receive.{buffer_chunk, repeat_chunk, on_model_chunk}
use quinkgl_framework.Transport.Receive.Steps.{remembered, check_chunk-passed, on_model_chunk-fresh}

module _ (host : Host) (peer_mid : String) (p : ModelChunk) where
  -- A chunk that passes every check but the caps, for which there is no room.
  pub record IsRefused (s : Community) (r : Reason) : Type 0 where
    pub authentic : authenticate host s peer_mid p ≡ none
    pub not_completed : has (buffer_key peer_mid p) s.completed_chunk_transfers ≡ false
    pub not_recent : has (chunk_key peer_mid p) s.recent_chunks ≡ false
    pub small : ltb max_chunks_per_transfer p.total_chunks ≡ false
    pub timely : ltb (s.local_round + s.max_round_skip) p.round_number ≡ false
    pub no_buffer : lookup (buffer_key peer_mid p) s.chunk_buffers ≡ none
    pub no_room : capacity s peer_mid p ≡ some r

  -- A state in which the chunk is still remembered and its transfer has no buffer.
  pub record IsForgotten (t : Community) : Type 0 where
    pub still_recent : has (chunk_key peer_mid p) t.recent_chunks ≡ true
    pub still_authentic : authenticate host t peer_mid p ≡ none
    pub still_open : has (buffer_key peer_mid p) t.completed_chunk_transfers ≡ false
    pub still_no_buffer : lookup (buffer_key peer_mid p) t.chunk_buffers ≡ none

  buffer_chunk-refused :
      (now : ℕ) (s : Community) (r : Reason)
      → lookup (buffer_key peer_mid p) s.chunk_buffers ≡ none
      → capacity s peer_mid p ≡ some r
      → buffer_chunk host peer_mid p now s
        ≡ (record s { metrics = count_refusal r s.metrics }, dropped r ∷ [])
  unfolding buffer_chunk
  buffer_chunk-refused now s r e c = ground arith

  on_model_chunk-ignored :
      (now : ℕ) (s : Community)
      → authenticate host s peer_mid p ≡ none
      → has (buffer_key peer_mid p) s.completed_chunk_transfers ≡ false
      → has (chunk_key peer_mid p) s.recent_chunks ≡ true
      → lookup (buffer_key peer_mid p) s.chunk_buffers ≡ none
      → on_model_chunk host peer_mid p now s ≡ (s, [])
  unfolding on_model_chunk repeat_chunk
  on_model_chunk-ignored now s a c o b = rw (a, c, o, on_model_chunk) (rw (b, repeat_chunk))

  refused :
      (now : ℕ) (s : Community) (r : Reason)
      → IsRefused s r
      → on_model_chunk host peer_mid p now s ≡ (
        record (remembered peer_mid p now s) { metrics = count_refusal r s.metrics },
        dropped r ∷ [],
      )
  unfolding remembered capacity
  refused now s r h =
      on_model_chunk-fresh host peer_mid p now s h.authentic h.not_completed h.not_recent
      ∙ check_chunk-passed host peer_mid p now (remembered peer_mid p now s) h.small h.timely
      ∙ buffer_chunk-refused now (remembered peer_mid p now s) r h.no_buffer h.no_room

  -- A chunk that passes every check but the caps is refused; it then has an entry in the recent
  -- chunks, and in every state that has this entry, where it is authentic, its transfer not
  -- completed and without a buffer, it is ignored without a reply, also when there is room
  -- again.
  pub refused_then_ignored :
      (now later : ℕ) (s t : Community) (r : Reason)
      → IsRefused s r
      → IsForgotten t
      → ((on_model_chunk host peer_mid p now s).1 ≡ dropped r ∷ [])
        × (has (chunk_key peer_mid p) (on_model_chunk host peer_mid p now s).0.recent_chunks ≡ true)
        × (on_model_chunk host peer_mid p later t ≡ (t, []))
  unfolding remembered
  refused_then_ignored now later s t r h f = (
    ap (λ x. x.1) (refused now s r h),
    rw (ap (λ x. x.0.recent_chunks) (refused now s r h)) (rw lookup-insert_self),
    on_model_chunk-ignored later t f.still_authentic f.still_open f.still_recent f.still_no_buffer,
  )
