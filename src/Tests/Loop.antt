-- ===== src/Tests/Loop.antt =====
-- The theorems on the loop of the sender at concrete inputs.
use quinkgl_framework.Common.{
  ◌*◌, ◌+◌, ◌≤◌, ◌<◌, ◌≡◌, refl, Bool, true, some, List, [], ◌∷◌, arith, nat_eq, string_eq, pair_eq,
  All,
}
use quinkgl_framework.Common.Dict.{lookup, insert}
use quinkgl_framework.Transport.State.{Community, ChunkAck, CachedTransfer, send_ack}
use quinkgl_framework.Transport.Limits.{chunk_max_send_attempts}
use quinkgl_framework.Transport.Acks.{apply_ack}
use quinkgl_framework.Transport.Replies.{send_chunk_ack_ranges}
use quinkgl_framework.Transport.Requests.Resends.{sent_chunks}
use quinkgl_framework.Transport.Sender.{
  polling, finished, Sending, tick, run_events, start_transfer, is_duplicate, new_transfer, Event,
}
use quinkgl_framework.Transport.Sender.Sends.{sends, requests}
use quinkgl_framework.Transport.Sender.Packets.{IsPacket, run_events-genuine}
use quinkgl_framework.Transport.Sender.Deadline.{measure, steps_left, timeout_ends}
use quinkgl_framework.Transport.Sender.Completion.{completed_succeeds}
use quinkgl_framework.Transport.Sender.Handshake.{receiver_host, receiver_ack-completes}
use quinkgl_framework.Tests

-- A transfer at the head of its loop.
abbrev sending : Sending
sending = record { transfer = Tests.outgoing; phase = polling; metrics = Tests.no_counts }

abbrev late_ticks : List Event
late_ticks = tick 1000000 ∷ tick 1000001 ∷ []

enough : measure sending ≤ 2
unfolding steps_left
enough = omega arith

timeout_ends_example :
    (result : Bool) × ((run_events Tests.open_host Tests.idle sending late_ticks).0.phase
      ≡ finished result)
timeout_ends_example =
    timeout_ends Tests.open_host Tests.idle sending late_ticks (omega arith, (omega arith, tt))
      enough

abbrev acknowledged : Sending
acknowledged = record sending { transfer = record Tests.outgoing { completed = true } }

enough_acknowledged : measure acknowledged ≤ 2
unfolding steps_left
enough_acknowledged = omega arith

completed_succeeds_example :
    (run_events Tests.open_host Tests.idle acknowledged late_ticks).0.phase ≡ finished true
completed_succeeds_example =
    completed_succeeds Tests.open_host Tests.idle acknowledged late_ticks refl tt
      enough_acknowledged

-- The receiver's key is of the test host, which accepts every signature.
receiver_ack-completes_example :
    (p : ChunkAck) × (send_chunk_ack_ranges
        (receiver_host Tests.open_host (λ text. 1 ∷ []))
        (record Tests.idle { node_id = "a" })
        "s"
        "t"
        "d"
        3
        2
        (0 ∷ 1 ∷ [])
      ≡ send_ack "s" p ∷ [])
    × ((apply_ack Tests.open_host "m" p Tests.outgoing).completed ≡ true)
receiver_ack-completes_example =
    receiver_ack-completes Tests.open_host (λ text. 1 ∷ []) (record Tests.idle { node_id = "a" })
      "s" Tests.outgoing "d" 3 (0 ∷ 1 ∷ []) (λ text. refl) refl tt (omega arith)
      (omega arith, (omega arith, tt)) (λ i l. let b : i < 2 = l in ground arith)

-- A model of one chunk.
abbrev small : CachedTransfer
small = record Tests.cached { weights = 5 ∷ 6 ∷ []; timestamp = 1; recipient_mid = "m" }

-- What the call makes of an idle node.
abbrev begun : Community × Sending
begun = (
  record Tests.idle {
    inflight_transfers = insert ("a", (3, "h")) "t" [];
    outgoing_transfers = insert "t" small [];
    active_outgoing_transfers = insert "t" (new_transfer "t" "a" "m" small 1500) [];
  },
  record {
    transfer = new_transfer "t" "a" "m" small 1500;
    phase = polling;
    metrics = Tests.no_counts;
  },
)

abbrev some_ticks : List Event
some_ticks = tick 1500 ∷ tick 1501 ∷ tick 1502 ∷ []

starts : start_transfer Tests.idle "t" "a" "m" small "h" 1500 ≡ some begun
unfolding start_transfer is_duplicate lookup
starts = refl

run_events-genuine_example :
    All
      (IsPacket "m" (5 ∷ 6 ∷ []))
      (sent_chunks (run_events Tests.open_host Tests.idle begun.1 some_ticks).1)
    × (sends 0 (sent_chunks (run_events Tests.open_host Tests.idle begun.1 some_ticks).1)
        ≤ chunk_max_send_attempts * (1 + requests 0 some_ticks))
run_events-genuine_example =
    run_events-genuine Tests.open_host Tests.idle Tests.idle "t" "a" "m" "h" small 1500 0 begun
      some_ticks starts
