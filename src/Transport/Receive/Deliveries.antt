-- ===== src/Transport/Receive/Deliveries.antt =====
-- What a chunk makes the community hand over to the model callback.
use quinkgl_framework.Common.{
  ℕ, String, ◌≡◌, refl, ap, ◌∙◌, Bool, true, false, List, [], ◌∷◌, ◌++◌, arith, nat_eq, string_eq,
  pair_eq,
}
use quinkgl_framework.Transport.Words.{Bytes}
use quinkgl_framework.Transport.Host.{Host}
use quinkgl_framework.Transport.Buffer.{ChunkBuffer, add_chunk}
use quinkgl_framework.Transport.State.{
  Community, ModelChunk, Effect, dropped, deliver, send_ack, send_heartbeat, send_request,
  send_chunk, send_update, discovered,
}
use quinkgl_framework.Transport.Replies.{
  maybe_send_chunk_ack, send_chunk_ack_ranges, send_missing_chunks_report,
}
use quinkgl_framework.Transport.Admission.{touch_sender}
use quinkgl_framework.Transport.Receive.{finish_transfer, keep_buffer, store_chunk, completion_ack}

-- The models that a list of effects hands over, with their senders.
unfoldable pub deliveries : List Effect → List (String × Bytes)
deliveries [] = []
deliveries (deliver sender weights _ _ _ _ ∷ es) = (sender, weights) ∷ deliveries es
deliveries (dropped _ ∷ es) = deliveries es
deliveries (send_ack _ _ ∷ es) = deliveries es
deliveries (send_heartbeat _ _ ∷ es) = deliveries es
deliveries (send_request _ _ ∷ es) = deliveries es
deliveries (send_chunk _ _ ∷ es) = deliveries es
deliveries (send_update _ _ ∷ es) = deliveries es
deliveries (discovered _ ∷ es) = deliveries es

deliveries-append : (xs ys : List Effect) → deliveries (xs ++ ys) ≡ deliveries xs ++ deliveries ys
unfolding deliveries
deliveries-append [] ys = refl
deliveries-append (deliver sender weights _ _ _ _ ∷ es) ys =
    ap (λ t. (sender, weights) ∷ t) (deliveries-append es ys)
deliveries-append (dropped _ ∷ es) ys = deliveries-append es ys
deliveries-append (send_ack _ _ ∷ es) ys = deliveries-append es ys
deliveries-append (send_heartbeat _ _ ∷ es) ys = deliveries-append es ys
deliveries-append (send_request _ _ ∷ es) ys = deliveries-append es ys
deliveries-append (send_chunk _ _ ∷ es) ys = deliveries-append es ys
deliveries-append (send_update _ _ ∷ es) ys = deliveries-append es ys
deliveries-append (discovered _ ∷ es) ys = deliveries-append es ys

silent : (xs ys : List Effect) → deliveries xs ≡ [] → deliveries (xs ++ ys) ≡ deliveries ys
silent xs ys h = deliveries-append xs ys ∙ ap (λ t. t ++ deliveries ys) h

module _ (host : Host) (peer_mid : String) (p : ModelChunk) (now : ℕ) where
  pub no_deliveries-acks :
      (s : Community) (b : ChunkBuffer) (force : Bool)
      → deliveries (maybe_send_chunk_ack host s peer_mid b now force).1 ≡ []
  unfolding deliveries maybe_send_chunk_ack
  no_deliveries-acks s b force = ground arith

  pub no_deliveries-completion :
      (s : Community) → deliveries (completion_ack host peer_mid p now s) ≡ []
  unfolding deliveries completion_ack send_chunk_ack_ranges
  no_deliveries-completion s = ground arith

  pub no_deliveries-touch : (s : Community) → deliveries (touch_sender s p now).1 ≡ []
  unfolding deliveries touch_sender
  no_deliveries-touch s = ground arith

  pub no_deliveries-report :
      (s : Community) (b : ChunkBuffer) → deliveries (keep_buffer host peer_mid p now s b).1 ≡ []
  unfolding deliveries keep_buffer send_missing_chunks_report
  no_deliveries-report s b = ground arith

  abbrev pub acknowledged : Community → ChunkBuffer → ChunkBuffer
  acknowledged s b =
      (maybe_send_chunk_ack host s peer_mid (add_chunk b p.chunk_index p.chunk_data).0 now true).0

  -- Storing a chunk delivers what the completion of its transfer delivers, and else nothing.
  pub deliveries-store_chunk :
      (s : Community) (b : ChunkBuffer)
      → (add_chunk b p.chunk_index p.chunk_data).1 ≡ true
      → deliveries (store_chunk host peer_mid p now s b).1
        ≡ deliveries
            (finish_transfer host peer_mid p now (touch_sender s p now).0 (acknowledged s b)).1
  unfolding store_chunk
  deliveries-store_chunk s b done =
      rw (done, store_chunk)
        (silent _ _ (no_deliveries-acks s _ true) ∙ silent _ _ (no_deliveries-touch s))

  pub deliveries-store_chunk_more :
      (s : Community) (b : ChunkBuffer)
      → (add_chunk b p.chunk_index p.chunk_data).1 ≡ false
      → deliveries (store_chunk host peer_mid p now s b).1 ≡ []
  unfolding store_chunk
  deliveries-store_chunk_more s b more =
      rw (more, store_chunk)
        (silent _ _ (no_deliveries-acks s _ false)
          ∙ silent _ _ (no_deliveries-touch s)
          ∙ no_deliveries-report (touch_sender s p now).0 _)

  pub store_chunk-state :
      (s : Community) (b : ChunkBuffer)
      → (add_chunk b p.chunk_index p.chunk_data).1 ≡ true
      → (store_chunk host peer_mid p now s b).0
        ≡ (finish_transfer host peer_mid p now (touch_sender s p now).0 (acknowledged s b)).0
  unfolding store_chunk
  store_chunk-state s b done = ground arith
