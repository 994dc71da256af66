-- ===== src/Updates/Replay.antt =====
-- Whether a direct update can be played to a node twice.
use quinkgl_framework.Common.{
  ℕ, ◌+◌, ◌≤◌, ◌<◌, max, String, ◌≡◌, refl, ap, inl, inr, Bool, true, false, not, ◌&&◌, ◌||◌, none,
  some, List, [], ◌∷◌, arith, ltb, if◌then◌else◌, Option-cases, if-elim, Option-elim, ◌==◌, nat_eq,
  string_eq, pair_eq, All,
}
use quinkgl_framework.Common.Dict.{lookup, lookup-insert}
use quinkgl_framework.Transport.Host.{Host}
use quinkgl_framework.Transport.State.{Community, Effect, ModelUpdate}
use quinkgl_framework.Transport.Admission.{authenticate}
use quinkgl_framework.Membership.{update_seen}
use quinkgl_framework.Updates.{
  as_chunk, is_replayed, record_last_seen_round, refusal, begin_update, end_update, finish_update,
  on_model_update,
}

-- The least round that a peer may still send.
abbrev pub next_round : Community → String → ℕ
next_round s peer_mid = elim (lookup peer_mid s.last_seen_round) [ none ↦ 0 | some last ↦ last + 1 ]

-- The updates that were handled, by peer and round, the newest first.
abbrev pub Log : Type 0
Log = List (String × ℕ)

-- Each round is above all those that its peer had before.
abbrev pub IsReplayFree : Log → Type 0
IsReplayFree [] = Unit
IsReplayFree ((mid, round) ∷ log) = All (λ e. e.0 ≡ mid → e.1 < round) log × IsReplayFree log

IsSeen : Community → Log → Type 0
IsSeen s log = All (λ e. e.1 < next_round s e.0) log

-- An update that arrives: the peer, the update, the time, and whether the callback returns.
abbrev pub Arrival : Type 0
Arrival = String × (ModelUpdate × (ℕ × Bool))

filed : String → ModelUpdate → Log → Bool → Log
filed mid p log true = (mid, p.round_number) ∷ log
filed mid p log false = log

-- Whether an update was handled to its end.
abbrev handled : Bool → Community × (List Effect × Bool) → Bool
handled returned (s, (effects, goes_on)) = goes_on && returned

unfoldable pub handle_all : Host → Community → List Arrival → Log → Community × Log
unfolding filed
handle_all host s [] log = (s, log)
handle_all host s ((mid, (p, (now, returns))) ∷ rest) log =
    handle_all host (on_model_update host s mid p now returns).0 rest
      (filed mid p log (handled (returns || not s.has_callback) (begin_update host s mid p now)))

next_round-record :
    (s : Community) (mid other : String) (round : ℕ)
    → next_round (record_last_seen_round s mid round) other
      ≡ (if other == mid then max (next_round s mid) (round + 1) else next_round s other)
unfolding record_last_seen_round
next_round-record s mid other round = elim (Option-cases (lookup mid s.last_seen_round)) [
  | inl h ↦ ground (arith, h, lookup-insert other mid round s.last_seen_round)
  | inr (last, h) ↦ ground (arith, h, lookup-insert other mid (max last round) s.last_seen_round)
]

IsSeen-record :
    (s : Community) (mid : String) (round : ℕ) (log : Log)
    → IsSeen s log
    → IsSeen (record_last_seen_round s mid round) log
unfolding IsSeen
IsSeen-record s mid round [] h = tt
IsSeen-record s mid round ((m, r) ∷ log) h = (
  elim (string_eq.dec m mid) [
    | yes q ↦ ground (arith, q, h.0, next_round-record s mid m round)
    | no n ↦ ground (arith, n, h.0, next_round-record s mid m round)
  ],
  IsSeen-record s mid round log h.1,
)

All-below :
    (s : Community) (mid : String) (round : ℕ) (log : Log)
    → next_round s mid ≤ round
    → IsSeen s log
    → All (λ e. e.0 ≡ mid → e.1 < round) log
unfolding IsSeen
All-below s mid round [] le h = tt
All-below s mid round ((m, r) ∷ log) le h = (
  (λ (q : m ≡ mid). omega (arith, h.0, le, ap (next_round s) q)),
  All-below s mid round log le h.1,
)

update_seen-rounds :
    (s : Community) (id : String) (now : ℕ)
    → (update_seen id now s).last_seen_round ≡ s.last_seen_round
unfolding update_seen
update_seen-rounds s id now =
    Option-elim (λ (c : Community). c.last_seen_round ≡ s.last_seen_round) (lookup id s.known_peers)
      (λ _. refl) (λ _ _. refl)

module _ (host : Host) where
  refusal-fresh :
      (s : Community) (mid : String) (p : ModelUpdate)
      → refusal host s mid p ≡ none
      → next_round s mid ≤ p.round_number
  unfolding refusal is_replayed
  refusal-fresh s mid p =
      Option-elim (λ r. r ≡ none → next_round s mid ≤ p.round_number)
        (authenticate host s mid (as_chunk p))
        (λ _.
          if-elim (λ r. r ≡ none → next_round s mid ≤ p.round_number)
            (ltb (s.local_round + s.max_round_skip) p.round_number)
            (λ _ h. absurd (ground (arith, h)))
            (λ _.
              if-elim (λ r. r ≡ none → next_round s mid ≤ p.round_number)
                (is_replayed s mid p.round_number) (λ _ h. absurd (ground (arith, h)))
                (λ fresh _. ground (arith, fresh))))
        (λ r _ h. absurd (ground (arith, h)))

  -- The log is right, and the state knows it.
  Keeps : Community → Log → Type 0
  Keeps s log = IsSeen s log × IsReplayFree log

  finish-Keeps :
      (mid : String) (p : ModelUpdate) (log : Log) (returned : Bool) (s : Community)
      (effects : List Effect) (goes_on : Bool)
      → (goes_on ≡ true → next_round s mid ≤ p.round_number)
      → Keeps s log
      → Keeps
          (finish_update host mid p returned (s, (effects, goes_on))).0
          (filed mid p log (goes_on && returned))
  unfolding finish_update end_update Keeps filed IsSeen
  finish-Keeps mid p log returned s effects false fresh k = k
  finish-Keeps mid p log false s effects true fresh k = k
  finish-Keeps mid p log true s effects true fresh k = (
    (
      ground (arith, next_round-record s mid mid p.round_number),
      IsSeen-record s mid p.round_number log k.0,
    ),
    (All-below s mid p.round_number log (fresh refl) k.0, k.1),
  )

  -- What a call leaves at its callback.
  IsBegun : Community → String → ModelUpdate → Community × (List Effect × Bool) → Type 0
  IsBegun s mid p r =
      (r.0.last_seen_round ≡ s.last_seen_round) × (r.1.1 ≡ true → next_round s mid ≤ p.round_number)

  begin_update-IsBegun :
      (s : Community) (mid : String) (p : ModelUpdate) (now : ℕ)
      → IsBegun s mid p (begin_update host s mid p now)
  unfolding begin_update IsBegun
  begin_update-IsBegun s mid p now =
      Option-elim (IsBegun s mid p) (refusal host s mid p)
        (λ admitted.
          if-elim (IsBegun s mid p) (host.deserializes p.weights_bytes)
            (λ _. (update_seen-rounds s p.sender_id now, λ _. refusal-fresh s mid p admitted))
            (λ _. (update_seen-rounds s p.sender_id now, λ f. absurd (ground (arith, f)))))
        (λ r _. (refl, λ f. absurd (ground (arith, f))))

  next_round-same :
      (s s' : Community) (mid : String)
      → s'.last_seen_round ≡ s.last_seen_round
      → next_round s' mid ≡ next_round s mid
  next_round-same s s' mid e = ap (λ d. elim (lookup mid d) [ none ↦ 0 | some last ↦ last + 1 ]) e

  IsSeen-same :
      (s s' : Community) (log : Log)
      → s'.last_seen_round ≡ s.last_seen_round
      → IsSeen s log
      → IsSeen s' log
  unfolding IsSeen
  IsSeen-same s s' [] e h = tt
  IsSeen-same s s' ((m, r) ∷ log) e h =
      (omega (arith, h.0, next_round-same s s' m e), IsSeen-same s s' log e h.1)

  handle-Keeps :
      (mid : String) (p : ModelUpdate) (log : Log) (returned : Bool) (s : Community)
      (r : Community × (List Effect × Bool))
      → IsBegun s mid p r
      → Keeps s log
      → Keeps (finish_update host mid p returned r).0 (filed mid p log (handled returned r))
  unfolding IsBegun Keeps
  handle-Keeps mid p log returned s (s', (effects, goes_on)) b k =
      finish-Keeps mid p log returned s' effects goes_on
        (λ g. omega (arith, b.1 g, next_round-same s s' mid b.0))
        (IsSeen-same s s' log b.0 k.0, k.1)

  handle_all-Keeps :
      (s : Community) (arrivals : List Arrival) (log : Log)
      → Keeps s log
      → let (s', log') = handle_all host s arrivals log in Keeps s' log'
  unfolding handle_all on_model_update
  handle_all-Keeps s [] log k = k
  handle_all-Keeps s ((mid, (p, (now, returns))) ∷ rest) log k =
      handle_all-Keeps (on_model_update host s mid p now returns).0 rest _ (
        handle-Keeps mid p log (returns || not s.has_callback) s (begin_update host s mid p now)
          (begin_update-IsBegun s mid p now) k)

-- Whatever direct updates arrive one after the other, from whatever peers: an update that is
-- handled to its end has a higher round than all those of its peer before it.
pub handle_all-IsReplayFree :
    (host : Host) (s : Community) (arrivals : List Arrival)
    → IsReplayFree (handle_all host s arrivals []).1
unfolding Keeps
handle_all-IsReplayFree host s arrivals =
    (handle_all-Keeps host s arrivals [] (unfold IsSeen in tt, tt)).1
