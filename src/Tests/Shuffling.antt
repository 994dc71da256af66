-- ===== src/Tests/Shuffling.antt =====
-- The theorem on the shuffles of Cyclon at a concrete view.
use quinkgl_framework.Common.{
  ◌≤◌, String, ◌≡◌, refl, sym, ap, ◌∙◌, ◌≢◌, false, none, some, [], ◌∷◌, arith, ◌==◌, contains,
  nat_eq, string_eq, pair_eq, length, take, take_all,
}
use quinkgl_framework.Common.Dict.{lookup, has}
use mathlib.Core.Option.{some-injective}
use quinkgl_framework.Topology.Sampler.{PeerInfo}
use quinkgl_framework.Topology.Cyclon.{
  CyclonTopology, Sample, ids_of, others, perform_shuffle, node_send_shuffle,
}
use quinkgl_framework.Topology.Cyclon.Drain.{IsKeyed, IsSample, perform_shuffle-drains}

abbrev peer : String → PeerInfo
peer name = record {
  peer_id = name;
  domain = "d";
  data_schema_hash = "h";
  manifest_id = none;
  model_version = "1.0.0";
  age = 1;
}

abbrev topology : CyclonTopology
topology = record {
  sampler = record { view_size = 20; view = ("a", peer "a") ∷ ("b", peer "b") ∷ [] };
  shuffle_length = 8;
  my_peer_info = some (peer "me");
}

-- The first peers, in their order.
abbrev first_peers : Sample
first_peers ps n = take n ps

first_peers-IsSample : IsSample first_peers
first_peers-IsSample ps id h =
    ap (λ qs. contains (ids_of qs) id) (take_all (length ps) ps (omega arith)) ∙ h

topology-IsKeyed : IsKeyed topology.sampler.view
unfolding lookup
topology-IsKeyed k p h = elim (string_eq.dec k "a") [
  | yes a ↦
      ap (λ (x : PeerInfo). x.peer_id) (sym (some-injective (peer "a") p (ground (arith, h, a))))
      ∙ sym a
  | no n ↦ elim (string_eq.dec k "b") [
    | yes b ↦
        ap (λ (x : PeerInfo). x.peer_id)
          (sym (some-injective (peer "b") p (ground (arith, h, n, b))))
        ∙ sym b
    | no m ↦ absurd (ground (arith, h, n, m))
  ]
]

few : length (others "a" topology.sampler.view) ≤ 8
unfolding others string_eq
few = omega arith

no_me :
    (me : PeerInfo)
    → topology.my_peer_info ≡ some me
    → lookup me.peer_id topology.sampler.view ≡ none
unfolding lookup string_eq
no_me me e =
    ap (λ (x : PeerInfo). lookup x.peer_id topology.sampler.view)
      (sym (some-injective (peer "me") me e))

differ_names : ◌==◌ {A = String} "b" "a" ≡ false
unfolding string_eq
differ_names = refl

b_not_a : ◌≢◌ {A = String} "b" "a"
b_not_a e = ground (arith, differ_names, e)

perform_shuffle-drains_example :
    let view = (perform_shuffle first_peers (some node_send_shuffle) topology "a").sampler.view in
    (lookup "b" view ≡ none) × (has "a" view ≡ has "a" topology.sampler.view)
perform_shuffle-drains_example =
    perform_shuffle-drains first_peers topology "a" "b" first_peers-IsSample topology-IsKeyed no_me
      few b_not_a
