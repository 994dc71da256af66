-- ===== src/Consensus/Verdict.antt =====
-- When the tracker declares consensus.
use quinkgl_framework.Common.{
  ℕ, ◌+◌, ◌-◌, ◌*◌, ◌≤◌, ◌<◌, String, ◌≡◌, refl, sym, subst, true, false, ◌&&◌, none, some, List,
  [], ◌∷◌, arith, leb, nat_eq, string_eq, pair_eq, length, keep, All,
}
use quinkgl_framework.Common.Dict.{lookup, values}
use quinkgl_framework.Consensus.{
  PeerCheckpoint, ConsensusResult, Ballots, ConsensusTracker, sum_of, agrees, tally, check_round,
}

-- Every loss is the same.
abbrev pub AllLoss : ℕ → List PeerCheckpoint → Type 0
AllLoss l = All (λ c. c.loss ≡ l)

sum_of-same :
    (l : ℕ) (cs : List PeerCheckpoint) → AllLoss l cs → sum_of (λ c. c.loss) cs ≡ length cs * l
unfolding sum_of
sum_of-same l [] h = omega arith
sum_of-same l (c ∷ cs) h = omega (arith, h.0, sum_of-same l cs h.1)

keep-same :
    (l n tolerance : ℕ) (cs : List PeerCheckpoint)
    → AllLoss l cs
    → length (keep (agrees n (n * l) tolerance) cs) ≡ length cs
unfolding agrees
keep-same l n tolerance [] h = refl
keep-same l n tolerance (c ∷ cs) h =
    let e : (c.loss * n - n * l) + (n * l - c.loss * n) ≤ tolerance * n = exact in
    ground (arith, e, keep-same l n tolerance cs h.1)
  where
    exact : (c.loss * n - n * l) + (n * l - c.loss * n) ≤ tolerance * n
    exact = rw h.0 (omega arith)

tally-same :
    (s : ConsensusTracker) (rnd l : ℕ) (cs : List PeerCheckpoint)
    → AllLoss l cs
    → (tally s rnd cs).agreeing_peers ≡ length cs
unfolding tally
tally-same s rnd l cs h =
    subst (λ t. length (keep (agrees (length cs) t s.loss_tolerance) cs) ≡ length cs)
      (sym (sum_of-same l cs h)) (keep-same l (length cs) s.loss_tolerance cs h)

tally-reached :
    (s : ConsensusTracker) (rnd : ℕ) (cs : List PeerCheckpoint)
    → (tally s rnd cs).agreeing_peers ≡ length cs
    → s.min_peers_for_consensus ≤ length cs
    → s.threshold_num ≤ s.threshold_den
    → (tally s rnd cs).reached ≡ true
unfolding tally
tally-reached s rnd cs e enough fraction = rw e (
    both (s.threshold_num * length cs) (length cs * s.threshold_den) s.min_peers_for_consensus
      (length cs) (grind arith) enough)
  where
    both : (a b c d : ℕ) → a ≤ b → c ≤ d → (leb a b && leb c d) ≡ true
    both a b c d h g = ground arith

-- If all ballots of a round have the same loss, there are enough of them, and the threshold is
-- at most one, then consensus is reached, with all peers agreeing.
pub unanimous :
    (s : ConsensusTracker) (rnd l : ℕ) (b : String × PeerCheckpoint) (bs : Ballots)
    → lookup rnd s.checkpoints ≡ some (b ∷ bs)
    → AllLoss l (values (b ∷ bs))
    → s.min_peers_for_consensus ≤ length (values (b ∷ bs))
    → s.threshold_num ≤ s.threshold_den
    → (r : ConsensusResult) × (check_round s rnd ≡ some r)
      × (r.reached ≡ true)
      × (r.agreeing_peers ≡ length (values (b ∷ bs)))
unfolding check_round
unanimous s rnd l b bs e h enough fraction =
    let cs = values (b ∷ bs) in
    let all = tally-same s rnd l cs h in
    (tally s rnd cs, rw (e, check_round), tally-reached s rnd cs all enough fraction, all)

tally-few :
    (s : ConsensusTracker) (rnd : ℕ) (cs : List PeerCheckpoint)
    → length cs < s.min_peers_for_consensus
    → (tally s rnd cs).reached ≡ false
unfolding tally
tally-few s rnd cs h = ground arith

-- A round with fewer ballots than min_peers_for_consensus never reaches consensus.
pub too_few :
    (s : ConsensusTracker) (rnd : ℕ) (ballots : Ballots) (r : ConsensusResult)
    → lookup rnd s.checkpoints ≡ some ballots
    → length (values ballots) < s.min_peers_for_consensus
    → check_round s rnd ≡ some r
    → r.reached ≡ false
unfolding check_round
too_few s rnd [] r e few h =
    let empty : check_round s rnd ≡ none = rw (e, check_round) in ground (arith, h, empty)
too_few s rnd (b ∷ bs) r e few h =
    let round : check_round s rnd ≡ some (tally s rnd (values (b ∷ bs))) = rw (e, check_round) in
    ground (arith, h, round, tally-few s rnd (values (b ∷ bs)) few)
