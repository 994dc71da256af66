-- ===== src/Topology/Sampler/Merging.antt =====
-- How large a view becomes when the peers of a shuffle are merged into it.
use quinkgl_framework.Common.{
  ℕ, zero, suc, ◌+◌, ◌-◌, ◌<◌, ◌≡◌, refl, inl, inr, false, not, none, List, [], ◌∷◌, arith, leb,
  Bool-cases, if-elim, Option, some, min, ltb, if◌then◌else◌, take, length-take, ◌≤◌, ◌==◌, nat_eq,
  string_eq, pair_eq, length, keep, All,
}
use quinkgl_framework.Common.Dict.{insert, has, NodupKeys, lookup-insert, length-insert}
use quinkgl_framework.Topology.Sampler.{
  PeerInfo, View, PeerSampler, reset_age, evict_oldest_peer, peers_to_add, make_space, add_all,
  merge_view, insert_by_age, sort_by_age,
}
use quinkgl_framework.Topology.Sampler.Eviction.{length-evict, evict-absent}

-- Peers that are not in a view, each with an id of its own.
abbrev pub AllNew : List PeerInfo → View → Type 0
AllNew [] v = Unit
AllNew (p ∷ ps) v =
    (has p.peer_id v ≡ false) × All (λ q. (q.peer_id == p.peer_id) ≡ false) ps × AllNew ps v

AllNew-insert :
    (ps : List PeerInfo) (p : PeerInfo) (v : View)
    → All (λ q. (q.peer_id == p.peer_id) ≡ false) ps
    → AllNew ps v
    → AllNew ps (insert p.peer_id (reset_age p) v)
AllNew-insert [] p v d n = tt
AllNew-insert (q ∷ ps) p v d n = (
  ground (arith, d.0, n.0, lookup-insert q.peer_id p.peer_id (reset_age p) v),
  n.1,
  AllNew-insert ps p v d.1 n.2,
)

length-add_all :
    (ps : List PeerInfo) (v : View) → AllNew ps v → length (add_all ps v) ≡ length v + length ps
unfolding add_all
length-add_all [] v n = omega arith
length-add_all (p ∷ ps) v n = ground (
  arith,
  n.0,
  length-insert p.peer_id (reset_age p) v,
  length-add_all ps (insert p.peer_id (reset_age p) v) (AllNew-insert ps p v n.1 n.2),
)

AllNew-evict : (ps : List PeerInfo) (v : View) → AllNew ps v → AllNew ps (evict_oldest_peer v).0
AllNew-evict [] v n = tt
AllNew-evict (p ∷ ps) v n = (evict-absent v p.peer_id n.0, n.1, AllNew-evict ps v n.2)

AllNew-make_space :
    (size k : ℕ) (ps : List PeerInfo) (v : View) → AllNew ps v → AllNew ps (make_space size k v)
unfolding make_space
AllNew-make_space size zero ps v n = n
AllNew-make_space size (suc k) ps v n = elim (Bool-cases (leb size (length v))) [
  | inl full ↦
      rw (full, make_space)
        (AllNew-make_space size k ps (evict_oldest_peer v).0 (AllNew-evict ps v n))
  | inr free ↦ rw (free, make_space) (AllNew-make_space size k ps v n)
]

-- A view with a free place is left alone.
make_space-free : (size k : ℕ) (v : View) → length v < size → make_space size k v ≡ v
unfolding make_space
make_space-free size zero v h = refl
make_space-free size (suc k) v h = ground (arith, make_space-free size k v h)

make_space-full :
    (size k : ℕ) (v : View)
    → 0 < size
    → length v ≡ size
    → NodupKeys v
    → length (make_space size (suc k) v) ≡ size - 1
unfolding make_space
make_space-full size k v pos e u = ground (
  arith,
  e,
  length-evict v u,
  make_space-free size k (evict_oldest_peer v).0 (omega (arith, length-evict v u)),
)

keep-new : (ps : List PeerInfo) (v : View) → AllNew ps v → keep (λ p. not (has p.peer_id v)) ps ≡ ps
keep-new [] v n = refl
keep-new (p ∷ ps) v n = ground (arith, n.0, keep-new ps v n.2)

All-insert_by_age :
    (P : PeerInfo → Type 0) (p : PeerInfo) (ps : List PeerInfo)
    → P p
    → All P ps
    → All P (insert_by_age p ps)
unfolding insert_by_age
All-insert_by_age P p [] h a = (h, tt)
All-insert_by_age P p (q ∷ qs) h a =
    if-elim (All P) (leb p.age q.age) (λ _. (h, a)) (λ _. (a.0, All-insert_by_age P p qs h a.1))

AllNew-insert_by_age :
    (p : PeerInfo) (ps : List PeerInfo) (v : View)
    → AllNew (p ∷ ps) v
    → AllNew (insert_by_age p ps) v
unfolding insert_by_age
AllNew-insert_by_age p [] v n = n
AllNew-insert_by_age p (q ∷ qs) v (absent, d, n) =
    if-elim (λ l. AllNew l v) (leb p.age q.age) (λ _. (absent, d, n))
      (λ _. (
        n.0,
        All-insert_by_age (λ r. (r.peer_id == q.peer_id) ≡ false) p qs (ground (arith, d.0)) n.1,
        AllNew-insert_by_age p qs v (absent, d.1, n.2),
      ))

All-sort_by_age : (P : PeerInfo → Type 0) (ps : List PeerInfo) → All P ps → All P (sort_by_age ps)
unfolding sort_by_age
All-sort_by_age P [] a = tt
All-sort_by_age P (p ∷ ps) a = All-insert_by_age P p (sort_by_age ps) a.0 (All-sort_by_age P ps a.1)

All-take : (P : PeerInfo → Type 0) (k : ℕ) (ps : List PeerInfo) → All P ps → All P (take k ps)
All-take P zero ps a = tt
All-take P (suc k) [] a = tt
All-take P (suc k) (p ∷ ps) a = (a.0, All-take P k ps a.1)

AllNew-sort_by_age : (ps : List PeerInfo) (v : View) → AllNew ps v → AllNew (sort_by_age ps) v
unfolding sort_by_age
AllNew-sort_by_age [] v n = n
AllNew-sort_by_age (p ∷ ps) v (absent, d, n) = AllNew-insert_by_age p (sort_by_age ps) v (
  absent,
  All-sort_by_age (λ q. (q.peer_id == p.peer_id) ≡ false) ps d,
  AllNew-sort_by_age ps v n,
)

AllNew-take : (k : ℕ) (ps : List PeerInfo) (v : View) → AllNew ps v → AllNew (take k ps) v
AllNew-take zero ps v n = tt
AllNew-take (suc k) [] v n = tt
AllNew-take (suc k) (p ∷ ps) v (absent, d, n) =
    (absent, All-take (λ q. (q.peer_id == p.peer_id) ≡ false) k ps d, AllNew-take k ps v n)

length-insert_by_age :
    (p : PeerInfo) (ps : List PeerInfo) → length (insert_by_age p ps) ≡ length ps + 1
unfolding insert_by_age
length-insert_by_age p [] = refl
length-insert_by_age p (q ∷ qs) = ground (arith, length-insert_by_age p qs)

length-sort_by_age : (ps : List PeerInfo) → length (sort_by_age ps) ≡ length ps
unfolding sort_by_age
length-sort_by_age [] = refl
length-sort_by_age (p ∷ ps) =
    omega (arith, length-insert_by_age p (sort_by_age ps), length-sort_by_age ps)

-- How many of `count` peers a shuffle takes.
abbrev pub accepted : Option ℕ → ℕ → ℕ
accepted none count = count
accepted (some limit) count = min limit count

-- The peers that are added are new, and as many as the shuffle takes.
record IsAdded (s : PeerSampler) (count : ℕ) (added : List PeerInfo) : Type 0 where
  new : AllNew added s.view
  counted : length added ≡ count

youngest-IsAdded :
    (s : PeerSampler) (ps : List PeerInfo) (limit : ℕ)
    → AllNew ps s.view
    → limit ≤ length ps
    → IsAdded s limit (if ltb limit (length ps) then take limit (sort_by_age ps) else ps)
youngest-IsAdded s ps limit n h =
    if-elim (IsAdded s limit) (ltb limit (length ps))
      (λ many. record {
        new = AllNew-take limit (sort_by_age ps) s.view (AllNew-sort_by_age ps s.view n);
        counted = omega (arith, length-take limit (sort_by_age ps), length-sort_by_age ps, h);
      })
      (λ few. record { new = n; counted = ground (arith, few, h) })

peers_to_add-IsAdded :
    (s : PeerSampler) (ps : List PeerInfo) (shuffle_length : Option ℕ)
    → AllNew ps s.view
    → IsAdded s (accepted shuffle_length (length ps)) (peers_to_add s ps shuffle_length)
unfolding peers_to_add
peers_to_add-IsAdded s ps none n =
    rw (keep-new ps s.view n) (youngest-IsAdded s ps (length ps) n (omega arith))
peers_to_add-IsAdded s ps (some limit) n =
    rw (keep-new ps s.view n) (youngest-IsAdded s ps (min limit (length ps)) n (omega arith))

merged_length :
    (s : PeerSampler) (added : List PeerInfo) (count : ℕ)
    → NodupKeys s.view
    → 0 < s.view_size
    → length s.view ≡ s.view_size
    → IsAdded s count added
    → length (add_all added (make_space s.view_size (length added) s.view))
      ≡ s.view_size + (count - 1)
unfolding make_space add_all
merged_length s [] count u pos full a = omega (arith, a.counted, full)
merged_length s (p ∷ ps) count u pos full a = omega (
  arith,
  a.counted,
  length-add_all (p ∷ ps) (make_space s.view_size (suc (length ps)) s.view)
      (AllNew-make_space s.view_size (suc (length ps)) (p ∷ ps) s.view a.new),
  make_space-full s.view_size (length ps) s.view pos full u,
)

-- Merging new peers, with distinct ids, into a view with distinct ids that is full, and whose
-- size is not zero, makes room for one of them at most: of the peers that are taken, which are
-- no more than the limit if there is one, all after the first come on top of the size of the
-- view. With two or more the view is too large.
pub merge_view-overflows :
    (s : PeerSampler) (ps : List PeerInfo) (shuffle_length : Option ℕ)
    → NodupKeys s.view
    → 0 < s.view_size
    → length s.view ≡ s.view_size
    → AllNew ps s.view
    → length (merge_view s ps shuffle_length).view
      ≡ s.view_size + (accepted shuffle_length (length ps) - 1)
unfolding merge_view
merge_view-overflows s ps shuffle_length u pos full n =
    merged_length s (peers_to_add s ps shuffle_length) _ u pos full
      (peers_to_add-IsAdded s ps shuffle_length n)
