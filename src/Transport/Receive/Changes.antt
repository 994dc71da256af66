-- ===== src/Transport/Receive/Changes.antt =====
-- The four ways in which a chunk changes the buffers of a community.
use quinkgl_framework.Common.{
  ℕ, ◌+◌, String, ◌≡◌, refl, sym, ap, subst, ◌∙◌, ◌≢◌, ◌⊎◌, inl, inr, Bool, true, false, none, some,
  arith, ltb, Bool-cases, Option-cases, ◌==◌, nat_eq, string_eq, pair_eq, length,
}
use quinkgl_framework.Common.Dict.{lookup, insert, erase, has, NodupKeys, insert-NodupKeys}
use quinkgl_framework.Transport.Limits.{max_chunks_per_transfer}
use quinkgl_framework.Transport.Host.{Host}
use quinkgl_framework.Transport.Buffer.{ChunkBuffer, is_complete, add_chunk}
use quinkgl_framework.Transport.State.{Community, ModelChunk}
use quinkgl_framework.Transport.Replies.{maybe_send_chunk_ack, send_missing_chunks_report}
use quinkgl_framework.Transport.Admission.{
  buffer_key, chunk_key, authenticate, capacity, new_buffer, touch_sender,
}
use quinkgl_framework.Transport.Receive.{
  accept_model, finish_transfer, count_started, keep_buffer, store_chunk, buffer_chunk, check_chunk,
  repeat_chunk, on_model_chunk,
}

-- A buffer that is kept: its chunks have distinct indices, and one is still missing.
pub record IsPending (b : ChunkBuffer) : Type 0 where
  pub distinct : NodupKeys b.chunks
  pub incomplete : length b.chunks ≢ b.total_chunks

-- Two buffers with the same contents.
record Same (b c : ChunkBuffer) : Type 0 where
  same_transfer : c.transfer_id ≡ b.transfer_id
  same_total : c.total_chunks ≡ b.total_chunks
  same_chunks : c.chunks ≡ b.chunks

-- The buffers of a community hold pending transfers only.
abbrev pub AllPending : Community → Type 0
AllPending s =
    (key : String × String) (b : ChunkBuffer) → lookup key s.chunk_buffers ≡ some b → IsPending b

module _ (host : Host) (peer_mid : String) (p : ModelChunk) (now : ℕ) where
  pub data Change (s t : Community) : Type 0 where
    unchanged : t.chunk_buffers ≡ s.chunk_buffers → Change s t
    removed : t.chunk_buffers ≡ erase (buffer_key peer_mid p) s.chunk_buffers → Change s t
    updated :
        (b : ChunkBuffer)
        → t.chunk_buffers ≡ insert (buffer_key peer_mid p) b s.chunk_buffers
        → has (buffer_key peer_mid p) s.chunk_buffers ≡ true
        → IsPending b
        → Change s t
    opened :
        (b : ChunkBuffer)
        → t.chunk_buffers ≡ insert (buffer_key peer_mid p) b s.chunk_buffers
        → capacity s peer_mid p ≡ none
        → IsPending b
        → Change s t

  maybe_send_chunk_ack-Same :
      (s : Community) (b : ChunkBuffer) (force : Bool)
      → Same b (maybe_send_chunk_ack host s peer_mid b now force).0
  unfolding maybe_send_chunk_ack
  maybe_send_chunk_ack-Same s b force = ground arith

  report-Same :
      (s : Community) (b : ChunkBuffer)
      → Same b (send_missing_chunks_report host s peer_mid b now).0
  unfolding send_missing_chunks_report
  report-Same s b = ground arith

  touch_sender-buffers : (s : Community) → (touch_sender s p now).0.chunk_buffers ≡ s.chunk_buffers
  unfolding touch_sender
  touch_sender-buffers s = ground arith

  finish_transfer-buffers :
      (s : Community) (b : ChunkBuffer)
      → (finish_transfer host peer_mid p now s b).0.chunk_buffers
        ≡ erase (buffer_key peer_mid p) s.chunk_buffers
  unfolding finish_transfer accept_model
  finish_transfer-buffers s b = ground arith

  keep_buffer-updates :
      (s : Community) (b : ChunkBuffer)
      → (c : ChunkBuffer) × ((keep_buffer host peer_mid p now s b).0.chunk_buffers
          ≡ insert (buffer_key peer_mid p) c s.chunk_buffers)
        × Same b c
  unfolding keep_buffer
  keep_buffer-updates s b = elim (Bool-cases (p.chunk_index + 1 == p.total_chunks)) [
    | inl last ↦ (
      (send_missing_chunks_report host s peer_mid b now).0,
      rw (last, keep_buffer),
      report-Same s b,
    )
    | inr inner ↦ (
      b,
      rw (inner, keep_buffer),
      record { same_transfer = refl; same_total = refl; same_chunks = refl },
    )
  ]

  -- The buffer after a chunk has been added and acknowledged.
  abbrev acked : Community → ChunkBuffer → ChunkBuffer
  acked s b =
      let (b', complete) = add_chunk b p.chunk_index p.chunk_data in
      (maybe_send_chunk_ack host s peer_mid b' now complete).0

  abbrev Stores : Community → ChunkBuffer → Type 0
  Stores s b =
      ((store_chunk host peer_mid p now s b).0.chunk_buffers
        ≡ erase (buffer_key peer_mid p) s.chunk_buffers)
      ⊎ ((c : ChunkBuffer) × ((store_chunk host peer_mid p now s b).0.chunk_buffers
            ≡ insert (buffer_key peer_mid p) c s.chunk_buffers)
          × IsPending c)

  store_chunk_complete :
      (s : Community) (b : ChunkBuffer)
      → (add_chunk b p.chunk_index p.chunk_data).1 ≡ true
      → (store_chunk host peer_mid p now s b).0
        ≡ (finish_transfer host peer_mid p now (touch_sender s p now).0 (acked s b)).0
  unfolding store_chunk
  store_chunk_complete s b done = ground arith

  store_chunk-incomplete :
      (s : Community) (b : ChunkBuffer)
      → (add_chunk b p.chunk_index p.chunk_data).1 ≡ false
      → (store_chunk host peer_mid p now s b).0
        ≡ (keep_buffer host peer_mid p now (touch_sender s p now).0 (acked s b)).0
  unfolding store_chunk
  store_chunk-incomplete s b more = ground arith

  add_chunk-IsPending :
      (b : ChunkBuffer)
      → NodupKeys b.chunks
      → (add_chunk b p.chunk_index p.chunk_data).1 ≡ false
      → IsPending (add_chunk b p.chunk_index p.chunk_data).0
  unfolding add_chunk is_complete
  add_chunk-IsPending b u more = record {
    distinct = insert-NodupKeys p.chunk_index p.chunk_data b.chunks u;
    incomplete = ground arith;
  }

  Same-IsPending : {b c : ChunkBuffer} → Same b c → IsPending b → IsPending c
  Same-IsPending {b} {c} e v = record {
    distinct = subst NodupKeys (sym e.same_chunks) v.distinct;
    incomplete = λ h. v.incomplete (ap length (sym e.same_chunks) ∙ h ∙ e.same_total);
  }

  store_chunk-Stores : (s : Community) (b : ChunkBuffer) → NodupKeys b.chunks → Stores s b
  store_chunk-Stores s b u = elim (Bool-cases (add_chunk b p.chunk_index p.chunk_data).1) [
    | inl done ↦ inl (
        ap (λ t. t.chunk_buffers) (store_chunk_complete s b done)
        ∙ finish_transfer-buffers (touch_sender s p now).0 (acked s b)
        ∙ ap (erase (buffer_key peer_mid p)) (touch_sender-buffers s))
    | inr more ↦
        let (c, e, same) = keep_buffer-updates (touch_sender s p now).0 (acked s b) in
        inr (
          c,
          ap (λ t. t.chunk_buffers) (store_chunk-incomplete s b more)
              ∙ e
              ∙ ap (insert (buffer_key peer_mid p) c) (touch_sender-buffers s),
          Same-IsPending same
              (Same-IsPending (maybe_send_chunk_ack-Same s _ _) (add_chunk-IsPending b u more)),
        )
  ]

  stored :
      (s : Community) (b : ChunkBuffer)
      → lookup (buffer_key peer_mid p) s.chunk_buffers ≡ some b
      → IsPending b
      → Change s (store_chunk host peer_mid p now s b).0
  stored s b e v = elim (store_chunk-Stores s b v.distinct) [
    | inl gone ↦ removed gone
    | inr (c, kept, w) ↦ updated c kept (rw e) w
  ]

  newly_stored :
      (s : Community)
      → capacity s peer_mid p ≡ none
      → Change s
          (store_chunk host peer_mid p now
            (record s { metrics = count_started s.metrics })
            (new_buffer p now)).0
  unfolding new_buffer
  newly_stored s free =
      elim (store_chunk-Stores (record s { metrics = count_started s.metrics }) (new_buffer p now)
        tt) [ inl gone ↦ removed gone | inr (c, kept, w) ↦ opened c kept free w ]

  buffer_chunk-Change :
      (s : Community) → AllPending s → Change s (buffer_chunk host peer_mid p now s).0
  unfolding buffer_chunk
  buffer_chunk-Change s v = elim (Option-cases (lookup (buffer_key peer_mid p) s.chunk_buffers)) [
    | inl e ↦ elim (Option-cases (capacity s peer_mid p)) [
      | inl free ↦ rw (e, free, buffer_chunk) (newly_stored s free)
      | inr (r, full) ↦ unchanged (ground arith)
    ]
    | inr (b, e) ↦ rw (e, buffer_chunk) (stored s b e (v _ b e))
  ]

  repeat_chunk-Change :
      (s : Community) → AllPending s → Change s (repeat_chunk host peer_mid p now s).0
  unfolding repeat_chunk
  repeat_chunk-Change s v = elim (Option-cases (lookup (buffer_key peer_mid p) s.chunk_buffers)) [
    | inl e ↦ unchanged (ground arith)
    | inr (b, e) ↦ elim (Bool-cases (has p.chunk_index b.chunks)) [
      | inl old ↦
          rw (e, repeat_chunk)
            (rw old (
              updated _ refl (rw e)
                (Same-IsPending (maybe_send_chunk_ack-Same s b true) (v _ b e))))
      | inr new ↦ rw (e, repeat_chunk) (rw new (unchanged refl))
    ]
  ]

  check_chunk-Change :
      (s : Community) → AllPending s → Change s (check_chunk host peer_mid p now s).0
  unfolding check_chunk
  check_chunk-Change s v = elim (Bool-cases (ltb max_chunks_per_transfer p.total_chunks)) [
    | inl large ↦ rw (large, check_chunk) (unchanged refl)
    | inr fits ↦ elim (Bool-cases (ltb (s.local_round + s.max_round_skip) p.round_number)) [
      | inl future ↦ rw (fits, future, check_chunk) (unchanged refl)
      | inr timely ↦ rw (fits, timely, check_chunk) (buffer_chunk-Change s v)
    ]
  ]

  remember : Community → Community
  remember s = record s { recent_chunks = insert (chunk_key peer_mid p) now s.recent_chunks }

  forget : (s t : Community) → Change (remember s) t → Change s t
  unfolding remember capacity
  forget s t (unchanged e) = unchanged e
  forget s t (removed e) = removed e
  forget s t (updated b e h v) = updated b e h v
  forget s t (opened b e h v) = opened b e h v

  -- If every buffer lacks a chunk, an arriving chunk leaves the buffers alone, or it changes the
  -- one of its peer and transfer: it removes it, puts one that lacks a chunk in its place, or
  -- opens such a one within the caps.
  pub on_model_chunk-Change :
      (s : Community) → AllPending s → Change s (on_model_chunk host peer_mid p now s).0
  unfolding on_model_chunk
  on_model_chunk-Change s v = elim (Option-cases (authenticate host s peer_mid p)) [
    | inl e ↦ elim (Bool-cases (has (buffer_key peer_mid p) s.completed_chunk_transfers)) [
      | inl done ↦ rw (e, done, on_model_chunk) (unchanged refl)
      | inr open_ ↦ elim (Bool-cases (has (chunk_key peer_mid p) s.recent_chunks)) [
        | inl old ↦ rw (e, open_, old, on_model_chunk) (repeat_chunk-Change s v)
        | inr new ↦
            rw (e, open_, new, on_model_chunk)
              (forget s _ (unfold remember in check_chunk-Change (remember s) v))
      ]
    ]
    | inr (r, e) ↦ rw (e, on_model_chunk) (unchanged refl)
  ]
