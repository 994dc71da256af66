-- ===== src/Transport/Sender.antt =====
-- `_send_chunked_model_update` of src/quinkgl/network/gossip_community.py: the loop that sends the
-- chunks of a transfer, in steps. A step is what the loop does between two points at which another
-- handler may run, or less; the handlers for ACKs and requests come between the steps.
pub mod Invariant
pub mod Sends
pub mod Packets
pub mod Deadline
pub mod Completion
pub mod Handshake
use quinkgl_framework.Common.{
  ℕ, ◌+◌, ◌-◌, ◌/◌, min, String, Bool, true, false, not, ◌&&◌, Option, none, some, List, [], ◌∷◌,
  ◌++◌, ltb, leb, if◌then◌else◌, contains, nat_eq, string_eq, pair_eq, length,
}
use quinkgl_framework.Common.Dict.{Dict, lookup, insert, erase, has}
use quinkgl_framework.Transport.Words.{Bytes}
use quinkgl_framework.Transport.Limits.{
  chunk_transfer_timeout, chunk_ack_timeout, chunk_max_send_attempts, chunk_window_initial,
  chunk_window_max,
}
use quinkgl_framework.Transport.Host.{Host}
use quinkgl_framework.Transport.Buffer.{chunk_total}
use quinkgl_framework.Transport.State.{
  Community, Metrics, CachedTransfer, Failure, OutgoingTransfer, ChunkAck, Effect, timeout,
  max_attempts,
}
use quinkgl_framework.Transport.Acks.{apply_ack}
use quinkgl_framework.Transport.Requests.{send_model_chunk, mark_due}

-- `in_flight_count`
unfoldable pub in_flight : List ℕ → ℕ → Dict ℕ ℕ → ℕ
in_flight acked now [] = 0
in_flight acked now ((index, sent) ∷ d) =
    (if not (contains acked index) && ltb (now - sent) chunk_ack_timeout then 1 else 0)
    + in_flight acked now d

unfoldable pub window_size : OutgoingTransfer → ℕ
window_size t = min chunk_window_initial (min chunk_window_max t.total_chunks)

-- Where the loop stands: at its head, in the retries (with the time of the round and the rest of the
-- entries), in the window of new chunks, or returned with a result.
pub data Phase : Type 0 where
  polling : Phase
  retrying : ℕ → List (ℕ × ℕ) → Phase
  filling : Phase
  finished : Bool → Phase

pub record Sending : Type 0 where
  pub transfer : OutgoingTransfer
  pub phase : Phase
  pub metrics : Metrics

-- The fields of a transfer that its packets carry.
unfoldable pub cached_of : OutgoingTransfer → CachedTransfer
cached_of t = record {
  weights = t.weights_bytes;
  loss = t.loss;
  accuracy = t.accuracy;
  round = t.round_number;
  samples = t.sample_count;
  timestamp = t.timestamp;
  recipient_mid = t.recipient_mid;
}

abbrev pub attempts_of : OutgoingTransfer → ℕ → ℕ
attempts_of t index = elim (lookup index t.attempts) [ none ↦ 0 | some n ↦ n ]

-- The transfer after a chunk has been sent.
unfoldable pub mark_sent : OutgoingTransfer → ℕ → ℕ → OutgoingTransfer
mark_sent t index now = record t {
  sent_at = insert index now t.sent_at;
  attempts = insert index (attempts_of t index + 1) t.attempts;
}

unfoldable pub is_due : OutgoingTransfer → ℕ → ℕ → ℕ → Bool
is_due t start index sent =
    not (contains t.acked index) && not (ltb (start - sent) chunk_ack_timeout)

abbrev count_timeout : Metrics → Metrics
count_timeout m = record m { chunk_transfers_failed_timeout = m.chunk_transfers_failed_timeout + 1 }

abbrev count_resend : Metrics → Metrics
count_resend m = record m { chunks_resent = m.chunks_resent + 1 }

module _ (host : Host) (node : Community) where
  abbrev pub packet : OutgoingTransfer → ℕ → ℕ → Effect
  packet t now index =
      send_model_chunk host node t.recipient_mid t.transfer_id (cached_of t) now index

  -- The head of the loop.
  unfoldable pub poll : Sending → ℕ → Sending × List Effect
  poll s now =
      if s.transfer.completed
      then (record s { phase = finished true }, [])
      else (if ltb chunk_transfer_timeout (now - s.transfer.created_at)
          then (
            record {
              transfer = record s.transfer { failed_reason = some timeout };
              phase = finished false;
              metrics = count_timeout s.metrics;
            },
            [],
          )
          else (record s { phase = retrying now s.transfer.sent_at }, []))

  -- One entry of the retries.
  unfoldable pub retry : Sending → ℕ → ℕ × ℕ → List (ℕ × ℕ) → ℕ → Sending × List Effect
  unfolding is_due mark_sent
  retry s start (index, sent) rest now =
      if is_due s.transfer start index sent
      then (if leb chunk_max_send_attempts (attempts_of s.transfer index)
          then (
            record s {
              transfer = record s.transfer { failed_reason = some (max_attempts index) };
              phase = finished s.transfer.completed;
            },
            [],
          )
          else (
            record {
              transfer = record (mark_sent s.transfer index now) {
                retry_count = s.transfer.retry_count + 1;
              };
              phase = retrying start rest;
              metrics = count_resend s.metrics;
            },
            packet s.transfer now index ∷ [],
          ))
      else (record s { phase = retrying start rest }, [])

  -- A new chunk, if the window has room; else the end of a round.
  unfoldable pub fill : Sending → ℕ → Sending × List Effect
  unfolding in_flight window_size mark_sent
  fill s now =
      let t : OutgoingTransfer = s.transfer in
      if ltb t.next_index t.total_chunks && ltb (in_flight t.acked now t.sent_at) (window_size t)
      then (
        record s {
          transfer = record (mark_sent t t.next_index now) { next_index = t.next_index + 1 };
        },
        packet t now t.next_index ∷ [],
      )
      else (if leb t.total_chunks (length t.acked)
          then (record s { transfer = record t { completed = true }; phase = finished true }, [])
          else (record s { phase = polling }, []))

  unfoldable pub advance : Sending → ℕ → Sending × List Effect
  unfolding poll retry fill
  advance s now = elim s.phase [
    | polling ↦ poll s now
    | retrying start [] ↦ (record s { phase = filling }, [])
    | retrying start (e ∷ rest) ↦ retry s start e rest now
    | filling ↦ fill s now
    | finished result ↦ (s, [])
  ]

-- What happens to a transfer: a step of its loop at a time, an ACK, a request that marks chunks.
pub data Event : Type 0 where
  tick : ℕ → Event
  ack : String → ChunkAck → Event
  nack : List ℕ → Event

module _ (host : Host) (node : Community) where
  unfoldable pub happen : Sending → Event → Sending × List Effect
  unfolding advance
  happen s (tick now) = advance host node s now
  happen s (ack peer_mid p) = (record s { transfer = apply_ack host peer_mid p s.transfer }, [])
  happen s (nack indices) = (record s { transfer = mark_due indices s.transfer }, [])

  unfoldable pub run_events : Sending → List Event → Sending × List Effect
  unfolding happen
  run_events s [] = (s, [])
  run_events s (e ∷ es) =
      let (s', sent) = happen s e in let (s'', more) = run_events s' es in (s'', sent ++ more)

-- A transfer that is already being sent: the same receiver, round and model.
unfoldable pub is_duplicate : Community → ℕ × String → String → Bool
is_duplicate c (round, model_hash) target =
    elim (lookup (target, (round, model_hash)) c.inflight_transfers) [
      | none ↦ false
      | some existing ↦ has existing c.outgoing_transfers
    ]

-- The transfer as the call sets it up: its id is fresh, its timestamp is in seconds.
unfoldable pub new_transfer : String → String → String → CachedTransfer → ℕ → OutgoingTransfer
new_transfer transfer_id target recipient_mid t now = record {
  transfer_id = transfer_id;
  target_node_id = target;
  recipient_mid = recipient_mid;
  weights_bytes = t.weights;
  sample_count = t.samples;
  round_number = t.round;
  loss = t.loss;
  accuracy = t.accuracy;
  timestamp = t.timestamp;
  total_chunks = chunk_total t.weights;
  next_index = 0;
  acked = [];
  sent_at = [];
  attempts = [];
  completed = false;
  failed_reason = none;
  created_at = now;
  retry_count = 0;
}

-- The registration of a transfer; none if it is a duplicate, whose call returns true at once.
unfoldable pub start_transfer :
    Community
    → String
    → String
    → String
    → CachedTransfer
    → String
    → ℕ
    → Option (Community × Sending)
unfolding is_duplicate new_transfer
start_transfer c transfer_id target recipient_mid t model_hash now =
    let cached : CachedTransfer = record t {
      timestamp = now / 1000;
      recipient_mid = recipient_mid;
    } in
    let transfer = new_transfer transfer_id target recipient_mid cached now in
    if is_duplicate c (t.round, model_hash) target
    then none
    else some (
      record c {
        inflight_transfers =
            insert (target, (t.round, model_hash)) transfer_id c.inflight_transfers;
        outgoing_transfers = insert transfer_id cached c.outgoing_transfers;
        active_outgoing_transfers = insert transfer_id transfer c.active_outgoing_transfers;
      },
      record { transfer = transfer; phase = polling; metrics = c.metrics },
    )

-- The `finally` block.
unfoldable pub end_transfer : Community → String → String → ℕ → String → Community
end_transfer c transfer_id target round model_hash = record c {
  active_outgoing_transfers = erase transfer_id c.active_outgoing_transfers;
  inflight_transfers = erase (target, (round, model_hash)) c.inflight_transfers;
}
