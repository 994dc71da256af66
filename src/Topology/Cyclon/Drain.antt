-- ===== src/Topology/Cyclon/Drain.antt =====
-- What is left of the view when shuffles are answered with no peers, as the shuffle callback of
-- src/quinkgl/network/gossip_node.py does.
use quinkgl_framework.Common.{
  ◌≤◌, min, String, ◌≡◌, refl, sym, ap, ◌∙◌, ◌≢◌, inl, inr, Bool, true, not, Option, none, some,
  List, [], ◌∷◌, ◌++◌, arith, if◌then◌else◌, Option-cases, if-elim, Option-elim, ◌==◌, contains,
  nat_eq, string_eq, pair_eq, length, keep,
}
use quinkgl_framework.Common.Dict.{
  lookup, has, is_some, lookup-insert, lookup-erase, lookup-insert_self,
}
use quinkgl_framework.Common.Purge.{contains-keep}
use mathlib.Core.Option.{some-injective}
use quinkgl_framework.Topology.Sampler.{PeerInfo, PeerSampler, View, reset_age, remove_peer}
use quinkgl_framework.Topology.Cyclon.{
  CyclonTopology, Sample, ids_of, others, discard, reset_peer, own_copy, sent_ids, merge_answer,
  finish_shuffle, selection, perform_shuffle, node_send_shuffle,
}

-- Each peer is under its id.
abbrev pub IsKeyed : View → Type 0
IsKeyed v = (k : String) (p : PeerInfo) → lookup k v ≡ some p → p.peer_id ≡ k

-- A sample of all peers has them all.
abbrev pub IsSample : Sample → Type 0
IsSample sample =
    (ps : List PeerInfo) (id : String)
    → contains (ids_of ps) id ≡ true
    → contains (ids_of (sample ps (length ps))) id ≡ true

lookup-remove_peer :
    (k id : String) (s : PeerSampler)
    → lookup k (remove_peer s id).0.view ≡ (if k == id then none else lookup k s.view)
unfolding remove_peer
lookup-remove_peer k id s =
    if-elim
      (λ (r : PeerSampler × Bool). lookup k r.0.view ≡ (if k == id then none else lookup k s.view))
      (has id s.view) (λ _. lookup-erase k id s.view)
      (λ absent. elim (string_eq.dec k id) [
        | yes q ↦ ground (arith, q, absent, ap (λ x. lookup x s.view) q)
        | no n ↦ ground (arith, n)
      ])

lookup-discard :
    (k : String) (ids : List String) (s : PeerSampler)
    → lookup k (discard ids s).view ≡ (if contains ids k then none else lookup k s.view)
unfolding discard
lookup-discard k [] s = refl
lookup-discard k (id ∷ ids) s =
    lookup-discard k ids (remove_peer s id).0 ∙ ground (arith, lookup-remove_peer k id s)

lookup-reset_peer :
    (k peer_id : String) (s : PeerSampler)
    → k ≢ peer_id
    → lookup k (reset_peer peer_id s).view ≡ lookup k s.view
unfolding reset_peer
lookup-reset_peer k peer_id s n =
    Option-elim (λ (r : PeerSampler). lookup k r.view ≡ lookup k s.view) (lookup peer_id s.view)
      (λ _. refl) (λ p _. ground (arith, n, lookup-insert k peer_id (reset_age p) s.view))

has-reset_peer :
    (peer_id : String) (s : PeerSampler)
    → has peer_id (reset_peer peer_id s).view ≡ has peer_id s.view
unfolding reset_peer
has-reset_peer peer_id s =
    Option-elim (λ (r : PeerSampler). has peer_id r.view ≡ has peer_id s.view)
      (lookup peer_id s.view) (λ _. refl)
      (λ p h. ap is_some (lookup-insert_self peer_id (reset_age p) s.view) ∙ sym (ap is_some h))

contains-ids_of-append :
    (ps qs : List PeerInfo) (k : String)
    → contains (ids_of ps) k ≡ true
    → contains (ids_of (ps ++ qs)) k ≡ true
contains-ids_of-append [] qs k h = absurd (ground (arith, h))
contains-ids_of-append (p ∷ ps) qs k h = ground (arith, h, contains-ids_of-append ps qs k)

-- A peer of the view is among the others, unless it is the peer of the shuffle.
contains-others :
    (v : View) (k peer_id : String) (p : PeerInfo)
    → lookup k v ≡ some p
    → p.peer_id ≡ k
    → k ≢ peer_id
    → contains (ids_of (others peer_id v)) k ≡ true
unfolding others lookup
contains-others [] k peer_id p h id n = absurd (ground (arith, h))
contains-others ((j, q) ∷ v) k peer_id p h id n = elim (string_eq.dec k j) [
  | yes e ↦
      let same : q ≡ p = some-injective q p (ground (arith, h, e)) in
      let key : q.peer_id ≡ k = ap (λ (x : PeerInfo). x.peer_id) same ∙ id in ground (arith, key, n)
  | no d ↦ ground (arith, contains-others v k peer_id p (ground (arith, h, d)) id n)
]

contains-sent_ids :
    (me : Option PeerInfo) (picked : List PeerInfo) (k : String)
    → ((x : PeerInfo) → me ≡ some x → k ≢ x.peer_id)
    → contains (ids_of picked) k ≡ true
    → contains (sent_ids me picked) k ≡ true
unfolding sent_ids
contains-sent_ids none picked k n h = h
contains-sent_ids (some x) picked k n h =
    contains-keep (λ id. not (id == x.peer_id)) k (ids_of picked) ∙ ground (arith, h, n x refl)

module _ (sample : Sample) (t : CyclonTopology) (peer_id : String) where
  -- All peers of the view that a shuffle picks from fit into it.
  contains-selection :
      (k : String) (p : PeerInfo)
      → IsSample sample
      → IsKeyed t.sampler.view
      → length (others peer_id t.sampler.view) ≤ t.shuffle_length
      → k ≢ peer_id
      → lookup k t.sampler.view ≡ some p
      → contains (ids_of (selection sample t peer_id)) k ≡ true
  unfolding selection
  contains-selection k p law keyed fits n h =
      let picks = others peer_id t.sampler.view in
      let all : min t.shuffle_length (length picks) ≡ length picks = omega (arith, fits) in
      ap (λ m. contains (ids_of (sample picks m)) k) all
      ∙ law picks k (contains-others t.sampler.view k peer_id p h (keyed k p h) n)

  finish_shuffle-drops :
      (k : String) (selected : List PeerInfo)
      → k ≢ peer_id
      → ((p : PeerInfo)
          → lookup k t.sampler.view ≡ some p
          → contains (sent_ids t.my_peer_info selected) k ≡ true)
      → lookup k (finish_shuffle t peer_id selected []).sampler.view ≡ none
  unfolding finish_shuffle merge_answer
  finish_shuffle-drops k selected n sent =
      let ids = keep (λ id. not (id == peer_id)) (sent_ids t.my_peer_info selected) in
      lookup-reset_peer k peer_id (discard ids t.sampler) n
      ∙ lookup-discard k ids t.sampler
      ∙ elim (Option-cases (lookup k t.sampler.view)) [
        | inl absent ↦ ground (arith, absent)
        | inr (p, h) ↦ ground (
          arith,
          n,
          sent p h,
          contains-keep (λ id. not (id == peer_id)) k (sent_ids t.my_peer_info selected),
        )
      ]

  finish_shuffle-keeps :
      (selected : List PeerInfo)
      → has peer_id (finish_shuffle t peer_id selected []).sampler.view ≡ has peer_id t.sampler.view
  unfolding finish_shuffle merge_answer
  finish_shuffle-keeps selected =
      let ids = keep (λ id. not (id == peer_id)) (sent_ids t.my_peer_info selected) in
      has-reset_peer peer_id (discard ids t.sampler)
      ∙ ap is_some (
          lookup-discard peer_id ids t.sampler
          ∙ ground (
            arith,
            contains-keep (λ id. not (id == peer_id)) peer_id (sent_ids t.my_peer_info selected),
          ))

  -- After a shuffle with the callback that a node sets, whose answer is empty, no peer is left
  -- in the view but the peer of the shuffle, if it was there; the other peers of the view must
  -- fit into one shuffle, each be under its id, and the node itself not be in the view. A sample
  -- of all peers must have them all.
  pub perform_shuffle-drains :
      (k : String)
      → IsSample sample
      → IsKeyed t.sampler.view
      → ((me : PeerInfo) → t.my_peer_info ≡ some me → lookup me.peer_id t.sampler.view ≡ none)
      → length (others peer_id t.sampler.view) ≤ t.shuffle_length
      → k ≢ peer_id
      → let view = (perform_shuffle sample (some node_send_shuffle) t peer_id).sampler.view in
        (lookup k view ≡ none) × (has peer_id view ≡ has peer_id t.sampler.view)
  unfolding perform_shuffle node_send_shuffle
  perform_shuffle-drains k law keyed away fits n =
      let picked = selection sample t peer_id in
      let selected = picked ++ (elim t.my_peer_info [ none ↦ [] | some me ↦ own_copy me ∷ [] ]) in
      (
        finish_shuffle-drops k selected n (λ p h.
            contains-sent_ids t.my_peer_info selected k
              (λ x me same. ground (arith, h, away x me, ap (λ id. lookup id t.sampler.view) same))
              (contains-ids_of-append picked _ k (contains-selection k p law keyed fits n h))),
        finish_shuffle-keeps selected,
      )
