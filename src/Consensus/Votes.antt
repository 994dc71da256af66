-- ===== src/Consensus/Votes.antt =====
-- A peer's first checkpoint for a round stands.
use quinkgl_framework.Common.{
  ℕ, ◌+◌, ◌≤◌, min, String, ◌≡◌, sym, ap, subst, ◌∙◌, ◌≢◌, inl, inr, ◌&&◌, Option, none, some,
  arith, ℕ_discrete, if◌then◌else◌, Bool-cases, Option-cases, ◌==◌, nat_eq, string_eq, pair_eq,
}
use quinkgl_framework.Common.Dict.{
  lookup, insert, has, NodupKeys, lookup-insert, lookup-insert_self, lookup-insert_ne,
  lookup-insert_cases, insert-NodupKeys,
}
use quinkgl_framework.Consensus.{
  PeerCheckpoint, Ballots, ConsensusTracker, clamp_checkpoint, ballots_at, store_checkpoint,
  record_checkpoint,
}

-- The checkpoint that a peer has on record for a round.
unfoldable pub vote : ConsensusTracker → ℕ → String → Option PeerCheckpoint
unfolding ballots_at
vote s rnd peer = lookup peer (ballots_at s rnd)

-- What becomes of a vote when a checkpoint is stored: it stays, or the checkpoint is the first.
abbrev pub voted : Option PeerCheckpoint → ℕ → String → PeerCheckpoint → Option PeerCheckpoint
voted (some old) rnd peer c = some old
voted none rnd peer c = if rnd == c.round_number && peer == c.peer_id then some c else none

-- The ballots of a round after a checkpoint with that round has been stored.
ballots_after : ConsensusTracker → PeerCheckpoint → Ballots
ballots_after s c =
    if has c.peer_id (ballots_at s c.round_number)
    then ballots_at s c.round_number
    else insert c.peer_id c (ballots_at s c.round_number)

ballots_at-store_checkpoint :
    (s : ConsensusTracker) (c : PeerCheckpoint)
    → ballots_at (store_checkpoint s c) c.round_number ≡ ballots_after s c
unfolding store_checkpoint ballots_at ballots_after
ballots_at-store_checkpoint s c = ground (
  arith,
  lookup-insert_self c.round_number (ballots_at s c.round_number) s.checkpoints,
  lookup-insert_self c.round_number (insert c.peer_id c (ballots_at s c.round_number))
      s.checkpoints,
)

ballots_at-store_checkpoint_ne :
    (s : ConsensusTracker) (c : PeerCheckpoint) (rnd : ℕ)
    → rnd ≢ c.round_number
    → ballots_at (store_checkpoint s c) rnd ≡ ballots_at s rnd
unfolding store_checkpoint ballots_at
ballots_at-store_checkpoint_ne s c rnd n = ground (
  arith,
  lookup-insert_ne rnd c.round_number (ballots_at s c.round_number) s.checkpoints n,
  lookup-insert_ne rnd c.round_number (insert c.peer_id c (ballots_at s c.round_number))
      s.checkpoints n,
)

lookup-ballots_after :
    (s : ConsensusTracker) (c : PeerCheckpoint) (peer : String)
    → lookup peer (ballots_after s c) ≡ elim (lookup peer (ballots_at s c.round_number)) [
      | some old ↦ some old
      | none ↦ if peer == c.peer_id then some c else none
    ]
unfolding ballots_after
lookup-ballots_after s c peer = elim (string_eq.dec peer c.peer_id) [
  | yes e ↦ ground (
    arith,
    ap (λ x. lookup x (ballots_at s c.round_number)) e,
    lookup-insert peer c.peer_id c (ballots_at s c.round_number),
  )
  | no n ↦ ground (arith, lookup-insert peer c.peer_id c (ballots_at s c.round_number))
]

-- A recorded vote stays, and a checkpoint adds one vote at most: its peer's, for its round.
store_checkpoint-vote :
    (s : ConsensusTracker) (c : PeerCheckpoint) (rnd : ℕ) (peer : String)
    → vote (store_checkpoint s c) rnd peer ≡ voted (vote s rnd peer) rnd peer c
unfolding vote
store_checkpoint-vote s c rnd peer = elim (ℕ_discrete rnd c.round_number) [
  | yes e ↦ ground (
    arith,
    ap (λ r. lookup peer (ballots_at (store_checkpoint s c) r)) e,
    ap (λ r. lookup peer (ballots_at s r)) e,
    ap (lookup peer) (ballots_at-store_checkpoint s c),
    lookup-ballots_after s c peer,
  )
  | no n ↦ ground (arith, ap (lookup peer) (ballots_at-store_checkpoint_ne s c rnd n))
]

clamp_checkpoint_lem :
    (s : ConsensusTracker) (c : PeerCheckpoint)
    → clamp_checkpoint s c ≡ record c {
      round_number = min c.round_number (s.last_seen_checkpoint_round + s.max_round_ahead);
    }
unfolding clamp_checkpoint
clamp_checkpoint_lem s c = ground arith

-- Recording a checkpoint leaves every recorded vote as it is; the only new vote is that of its
-- peer, for its round as clamped to max_round_ahead beyond the round last seen, and only if the
-- peer has none there.
pub record_checkpoint-vote :
    (s : ConsensusTracker) (c : PeerCheckpoint) (rnd : ℕ) (peer : String)
    → vote (record_checkpoint s c) rnd peer
      ≡ voted (vote s rnd peer) rnd peer (record c {
        round_number = min c.round_number (s.last_seen_checkpoint_round + s.max_round_ahead);
      })
unfolding record_checkpoint
record_checkpoint-vote s c rnd peer =
    store_checkpoint-vote s (clamp_checkpoint s c) rnd peer
    ∙ ap (voted (vote s rnd peer) rnd peer) (clamp_checkpoint_lem s c)

-- One checkpoint moves the round last seen forward, by max_round_ahead at most.
pub record_checkpoint-last_seen :
    (s : ConsensusTracker) (c : PeerCheckpoint)
    → (s.last_seen_checkpoint_round ≤ (record_checkpoint s c).last_seen_checkpoint_round)
      × ((record_checkpoint s c).last_seen_checkpoint_round
          ≤ s.last_seen_checkpoint_round + s.max_round_ahead)
unfolding record_checkpoint clamp_checkpoint store_checkpoint
record_checkpoint-last_seen s c = ground arith

-- The ballots of a round are by distinct peers.
abbrev pub HasDistinctPeers : ConsensusTracker → Type 0
HasDistinctPeers s = (rnd : ℕ) (b : Ballots) → lookup rnd s.checkpoints ≡ some b → NodupKeys b

ballots_at-NodupKeys :
    (s : ConsensusTracker) (rnd : ℕ) → HasDistinctPeers s → NodupKeys (ballots_at s rnd)
unfolding ballots_at
ballots_at-NodupKeys s rnd v = elim (Option-cases (lookup rnd s.checkpoints)) [
  | inl e ↦ rw (e, ballots_at) tt
  | inr (b, e) ↦ rw (e, ballots_at) (v rnd b e)
]

store_checkpoint-checkpoints :
    (s : ConsensusTracker) (c : PeerCheckpoint)
    → (store_checkpoint s c).checkpoints ≡ insert c.round_number (ballots_after s c) s.checkpoints
unfolding store_checkpoint ballots_after
store_checkpoint-checkpoints s c = ground arith

ballots_after-NodupKeys :
    (s : ConsensusTracker) (c : PeerCheckpoint) → HasDistinctPeers s → NodupKeys (ballots_after s c)
unfolding ballots_after
ballots_after-NodupKeys s c v = elim (Bool-cases (has c.peer_id (ballots_at s c.round_number))) [
  | inl old ↦ rw (old, ballots_after) (ballots_at-NodupKeys s c.round_number v)
  | inr new ↦
      rw (new, ballots_after)
        (insert-NodupKeys c.peer_id c (ballots_at s c.round_number)
          (ballots_at-NodupKeys s c.round_number v))
]

-- If the ballots of each round are by distinct peers, they are so after any checkpoint has been
-- recorded.
pub record_checkpoint-HasDistinctPeers :
    (s : ConsensusTracker) (c : PeerCheckpoint)
    → HasDistinctPeers s
    → HasDistinctPeers (record_checkpoint s c)
unfolding record_checkpoint
record_checkpoint-HasDistinctPeers s c v rnd b h =
    let d = clamp_checkpoint s c in
    elim (lookup-insert_cases rnd d.round_number (ballots_after s d) b s.checkpoints
      (ap (lookup rnd) (sym (store_checkpoint-checkpoints s d)) ∙ h)) [
        | inl e ↦ subst NodupKeys e (ballots_after-NodupKeys s d v)
        | inr old ↦ v rnd b old
      ]
