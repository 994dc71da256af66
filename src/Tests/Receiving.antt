-- ===== src/Tests/Receiving.antt =====
-- The theorems on received chunks at concrete inputs.
use quinkgl_framework.Common.{
  ◌≤◌, String, ◌≡◌, refl, subst, ◌≢◌, true, none, some, [], ◌∷◌, map, arith, ℕ_discrete, nat_eq,
  string_eq, pair_eq,
}
use quinkgl_framework.Common.Dict.{lookup, has, insert, count_keys}
use quinkgl_framework.Transport.Signing.{chunk_verify}
use quinkgl_framework.Transport.Buffer.{ChunkBuffer, chunk_total, chunk_slice}
use quinkgl_framework.Transport.State.{Community, ModelChunk, Reason, dropped}
use quinkgl_framework.Transport.Admission.{
  buffer_key, authenticate, claims_other, is_unsigned, capacity, peer_transfers,
}
use quinkgl_framework.Transport.Receive.{on_model_chunk, check_chunk, buffer_chunk}
use quinkgl_framework.Transport.Receive.Changes.{IsPending, AllPending}
use quinkgl_framework.Transport.Receive.Safety.{IsSound, on_model_chunk-IsSound}
use quinkgl_framework.Transport.Receive.Lockout.{IsRefused, IsForgotten, refused_then_ignored}
use quinkgl_framework.Transport.Receive.Deliveries.{deliveries}
use quinkgl_framework.Transport.Receive.Completion.{IsLast, last_chunk_delivers}
use quinkgl_framework.Transport.Receive.Once.{no_second_delivery}
use quinkgl_framework.Tests

-- The first and the second chunk of a transfer of two.
abbrev first_chunk : ModelChunk
first_chunk = record Tests.small_chunk { total_chunks = 2 }

abbrev last_chunk : ModelChunk
last_chunk = record Tests.small_chunk {
  chunk_index = 1;
  total_chunks = 2;
  chunk_data = chunk_slice Tests.model 1;
}

abbrev pub half_full : ChunkBuffer
half_full = record Tests.empty_buffer {
  chunks_since_ack = 1;
  chunks = (0, chunk_slice Tests.model 0) ∷ [];
}

abbrev pub waiting : Community
waiting = record Tests.idle { chunk_buffers = (("m", "t"), half_full) ∷ [] }

only_buffer :
    (key k : String × String) (v w : ChunkBuffer) → lookup key ((k, v) ∷ []) ≡ some w → v ≡ w
unfolding lookup
only_buffer key k v w h = ground (arith, h)

half_full-IsPending : IsPending half_full
unfolding lookup
half_full-IsPending = record { distinct = (refl, tt); incomplete = λ h. ground (arith, h) }

waiting-AllPending : AllPending waiting
waiting-AllPending key b h =
    subst IsPending (only_buffer key ("m", "t") half_full b h) half_full-IsPending

one_transfer : (mid : String) → peer_transfers mid waiting.chunk_buffers ≤ 1
unfolding peer_transfers count_keys
one_transfer mid = ground arith

pub waiting-IsSound : IsSound waiting
unfolding lookup
waiting-IsSound = record {
  peer_cap = λ mid. omega (arith, one_transfer mid);
  total_cap = omega arith;
  distinct_keys = (refl, tt);
  pending = waiting-AllPending;
}

on_model_chunk-IsSound_example :
    IsSound (on_model_chunk Tests.open_host "m" last_chunk 1500 waiting).0
on_model_chunk-IsSound_example =
    on_model_chunk-IsSound Tests.open_host "m" last_chunk 1500 waiting waiting-IsSound

last_chunk-IsLast : IsLast Tests.open_host "m" last_chunk 1500 waiting half_full Tests.model
unfolding authenticate claims_other is_unsigned chunk_verify lookup insert string_eq pair_eq
    ℕ_discrete chunk_total
last_chunk-IsLast = record {
  authentic = refl;
  not_completed = refl;
  not_recent = refl;
  small = refl;
  timely = refl;
  buffered = refl;
  total = refl;
  distinct = (refl, tt);
  carried = (omega arith, refl, tt);
  in_range = omega arith;
  sent = refl;
  last = refl;
}

last_chunk_delivers_example :
    let t = on_model_chunk Tests.open_host "m" last_chunk 1500 waiting in
    (deliveries t.1 ≡ ("a", Tests.model) ∷ [])
    × (has (buffer_key "m" last_chunk) t.0.completed_chunk_transfers ≡ true)
    × (lookup (buffer_key "m" last_chunk) t.0.chunk_buffers ≡ none)
last_chunk_delivers_example =
    last_chunk_delivers Tests.open_host "m" last_chunk 1500 waiting half_full Tests.model
      last_chunk-IsLast (omega arith) refl refl

delivered : deliveries (on_model_chunk Tests.open_host "m" last_chunk 1500 waiting).1 ≢ []
delivered h = let f = last_chunk_delivers_example.0 in ground (arith, f, h)

no_second_delivery_example :
    deliveries
      (on_model_chunk Tests.open_host "m" first_chunk 1600
        (on_model_chunk Tests.open_host "m" last_chunk 1500 waiting).0).1
    ≡ []
no_second_delivery_example =
    no_second_delivery Tests.open_host "m" last_chunk first_chunk 1500 1600 waiting
      (on_model_chunk Tests.open_host "m" last_chunk 1500 waiting).0 delivered refl refl

-- A peer that has as many transfers as it may.
abbrev crowded : Community
crowded = record Tests.idle {
  chunk_buffers =
      map (λ name. (("m", name), half_full)) ("1" ∷ "2" ∷ "3" ∷ "4" ∷ "5" ∷ "6" ∷ "7" ∷ "8" ∷ []);
}

first_chunk-IsRefused : IsRefused Tests.open_host "m" first_chunk crowded Reason.peer_transfer_limit
unfolding authenticate claims_other is_unsigned chunk_verify lookup string_eq pair_eq ℕ_discrete
    capacity peer_transfers count_keys
first_chunk-IsRefused = record {
  authentic = refl;
  not_completed = refl;
  not_recent = refl;
  small = refl;
  timely = refl;
  no_buffer = refl;
  no_room = refl;
}

-- All buffers have gone since.
abbrev roomy : Community
roomy = record (on_model_chunk Tests.open_host "m" first_chunk 1500 crowded).0 {
  chunk_buffers = [];
}

roomy-IsForgotten : IsForgotten Tests.open_host "m" first_chunk roomy
unfolding on_model_chunk check_chunk buffer_chunk authenticate claims_other is_unsigned chunk_verify
    lookup string_eq pair_eq ℕ_discrete capacity peer_transfers count_keys insert
roomy-IsForgotten = record {
  still_recent = refl;
  still_authentic = refl;
  still_open = refl;
  still_no_buffer = refl;
}

refused_then_ignored_example :
    ((on_model_chunk Tests.open_host "m" first_chunk 1500 crowded).1
      ≡ dropped Reason.peer_transfer_limit ∷ [])
    × (has
          ("m", ("t", 0))
          (on_model_chunk Tests.open_host "m" first_chunk 1500 crowded).0.recent_chunks
        ≡ true)
    × (on_model_chunk Tests.open_host "m" first_chunk 2500 roomy ≡ (roomy, []))
refused_then_ignored_example =
    refused_then_ignored Tests.open_host "m" first_chunk 1500 2500 crowded roomy
      Reason.peer_transfer_limit first_chunk-IsRefused roomy-IsForgotten
