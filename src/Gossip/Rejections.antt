-- ===== src/Gossip/Rejections.antt =====
-- The counts of rejected updates of src/quinkgl/gossip/aggregator.py.
use quinkgl_framework.Common.{
  ℕ, ◌+◌, ◌≤◌, ◌<◌, String, ◌≡◌, refl, ap, ◌∙◌, true, none, some, [], ◌∷◌, ◌++◌, arith, ltb,
  if-elim, ◌==◌, nat_eq, string_eq, pair_eq, list_eq, length, All, length-append,
}
use quinkgl_framework.Common.Text.{codes, text_leb}
use quinkgl_framework.Common.Dict.{
  Dict, lookup, insert, erase, has, length-insert, length-erase-le, insert-absent,
}
use quinkgl_framework.Gossip.Aggregator.{
  least_rejected, prune_rejections, count_rejection, max_peer_rejection_entries,
}

length-erase_lt : (k : String) (d : Dict String ℕ) → has k d ≡ true → length (erase k d) < length d
unfolding erase lookup
length-erase_lt k [] h = absurd (cc h)
length-erase_lt k ((j, n) ∷ d) h = ground (arith, h, length-erase_lt k d, length-erase-le k d)

has_first : (e : String × ℕ) → has e.0 (e ∷ []) ≡ true
unfolding lookup
has_first e = ground arith

has-skip :
    (k : String) (a b : String × ℕ) (d : Dict String ℕ)
    → has k (a ∷ d) ≡ true
    → has k (a ∷ (b ∷ d)) ≡ true
unfolding lookup
has-skip k a b d h = ground (arith, h)

has-swap :
    (k : String) (a b : String × ℕ) (d : Dict String ℕ)
    → has k (b ∷ d) ≡ true
    → has k (a ∷ (b ∷ d)) ≡ true
unfolding lookup
has-swap k a b d h = ground (arith, h)

least_rejected-has :
    (best : String × ℕ) (d : Dict String ℕ) → has (least_rejected best d).0 (best ∷ d) ≡ true
unfolding least_rejected
least_rejected-has best [] = has_first best
least_rejected-has best (e ∷ d) =
    let P : String × ℕ → Type 0 = (λ b. has (least_rejected b d).0 (best ∷ (e ∷ d)) ≡ true) in
    let stays = has-skip (least_rejected best d).0 best e d (least_rejected-has best d) in
    let moves = has-swap (least_rejected e d).0 best e d (least_rejected-has e d) in
    if-elim P (e.1 == best.1)
      (λ same. if-elim P (text_leb (codes best.0) (codes e.0)) (λ yes. stays) (λ no. moves))
      (λ differ. if-elim P (ltb e.1 best.1) (λ yes. moves) (λ no. stays))

prune_rejections-bounded :
    (d : Dict String ℕ)
    → length d ≤ max_peer_rejection_entries + 1
    → length (prune_rejections d) ≤ max_peer_rejection_entries
unfolding prune_rejections
prune_rejections-bounded [] h = omega arith
prune_rejections-bounded (e ∷ d) h =
    if-elim (λ (x : Dict String ℕ). length x ≤ max_peer_rejection_entries)
      (ltb max_peer_rejection_entries (length (e ∷ d)))
      (λ over.
        let shorter = length-erase_lt (least_rejected e d).0 (e ∷ d) (least_rejected-has e d) in
        omega (arith, h, shorter))
      (λ fits. ground (arith, fits))

-- If no more than 256 peers are counted as rejected, no more are after another rejection.
pub count_rejection-bounded :
    (d : Dict String ℕ) (peer_id : String)
    → length d ≤ max_peer_rejection_entries
    → length (count_rejection d peer_id) ≤ max_peer_rejection_entries
unfolding count_rejection
count_rejection-bounded d peer_id h =
    prune_rejections-bounded
      (insert peer_id (elim (lookup peer_id d) [ none ↦ 0 | some n ↦ n ] + 1) d)
      (ground
        (arith, h, length-insert peer_id (elim (lookup peer_id d) [ none ↦ 0 | some n ↦ n ] + 1) d))

-- Every count of the dict is at least two.
abbrev pub Repeated : Dict String ℕ → Type 0
Repeated d = All (λ e. 2 ≤ e.1) d

least_rejected-last :
    (best : String × ℕ) (d : Dict String ℕ) (peer_id : String)
    → 2 ≤ best.1
    → Repeated d
    → least_rejected best (d ++ (peer_id, 1) ∷ []) ≡ (peer_id, 1)
unfolding least_rejected
least_rejected-last best [] peer_id h a =
    if-elim (λ (x : String × ℕ). x ≡ (peer_id, 1)) (1 == best.1)
      (λ same. absurd (ground (arith, same, h)))
      (λ differ.
        if-elim (λ (x : String × ℕ). x ≡ (peer_id, 1)) (ltb 1 best.1) (λ yes. refl)
          (λ no. absurd (ground (arith, no, h))))
least_rejected-last best (e ∷ d) peer_id h a =
    let P : String × ℕ → Type 0 = (λ b. least_rejected b (d ++ (peer_id, 1) ∷ []) ≡ (peer_id, 1)) in
    let stays = least_rejected-last best d peer_id h a.1 in
    let moves = least_rejected-last e d peer_id a.0 a.1 in
    if-elim P (e.1 == best.1)
      (λ same. if-elim P (text_leb (codes best.0) (codes e.0)) (λ yes. stays) (λ no. moves))
      (λ differ. if-elim P (ltb e.1 best.1) (λ yes. moves) (λ no. stays))

erase-last :
    (peer_id : String) (d : Dict String ℕ)
    → lookup peer_id d ≡ none
    → erase peer_id (d ++ (peer_id, 1) ∷ []) ≡ d
unfolding erase lookup
erase-last peer_id [] h = ground arith
erase-last peer_id (e ∷ d) h = ground (arith, h, erase-last peer_id d)

prune_rejections-newest :
    (d : Dict String ℕ) (peer_id : String)
    → length d ≡ max_peer_rejection_entries
    → Repeated d
    → lookup peer_id d ≡ none
    → prune_rejections (d ++ (peer_id, 1) ∷ []) ≡ d
unfolding prune_rejections
prune_rejections-newest [] peer_id h a n = absurd (omega (arith, h))
prune_rejections-newest (e ∷ d) peer_id h a n =
    if-elim (λ (x : Dict String ℕ). x ≡ e ∷ d)
      (ltb max_peer_rejection_entries (length (e ∷ (d ++ (peer_id, 1) ∷ []))))
      (λ over.
        ap (λ b. erase b.0 (e ∷ (d ++ (peer_id, 1) ∷ []))) (least_rejected-last e d peer_id a.0 a.1)
        ∙ erase-last peer_id (e ∷ d) n)
      (λ fits. absurd (ground (arith, fits, h, length-append d ((peer_id, 1) ∷ []))))

-- If 256 other peers are counted, each with at least two rejections, a peer that is rejected for
-- the first time is not remembered: the counts stay as they are.
pub count_rejection-newest :
    (d : Dict String ℕ) (peer_id : String)
    → length d ≡ max_peer_rejection_entries
    → Repeated d
    → lookup peer_id d ≡ none
    → count_rejection d peer_id ≡ d
unfolding count_rejection
count_rejection-newest d peer_id h a n =
    ap (λ o. prune_rejections (insert peer_id (elim o [ none ↦ 0 | some n ↦ n ] + 1) d)) n
    ∙ ap prune_rejections (insert-absent peer_id 1 d n)
    ∙ prune_rejections-newest d peer_id h a n
