-- ===== src/Topology/Sampler/Oldest.antt =====
-- The peer that leaves the view is the oldest one.
use quinkgl_framework.Common.{
  ◌≤◌, String, ◌≡◌, refl, sym, ap, subst, ◌∙◌, ◌⊎◌, inl, inr, false, some, [], ◌∷◌, arith, leb,
  if◌then◌else◌, Bool-cases, nat_eq, string_eq, pair_eq, length,
}
use quinkgl_framework.Common.Dict.{
  lookup-cons_rest, lookup-cons_self, lookup, insert, has, NodupKeys, lookup-erase, lookup-insert,
}
use quinkgl_framework.Topology.Sampler.{
  PeerInfo, View, PeerSampler, oldest_from, evict_oldest_peer, add_peer, reset_age,
}
use quinkgl_framework.Topology.Sampler.Eviction.{older, older_cases, evicted-oldest, room}

oldest_from-lookup :
    (best : String × PeerInfo) (v : View)
    → NodupKeys v
    → (oldest_from best v ≡ best) ⊎ (lookup (oldest_from best v).0 v ≡ some (oldest_from best v).1)
unfolding oldest_from
oldest_from-lookup best [] u = inl refl
oldest_from-lookup best (e ∷ v) u = elim (oldest_from-lookup (older best e) v u.1) [
  | inl same ↦ elim (older_cases best e) [
    | inl new ↦
        inr (subst (λ x. lookup x.0 (e ∷ v) ≡ some x.1) (sym (same ∙ new)) (lookup-cons_self e v))
    | inr old ↦ inl (same ∙ old)
  ]
  | inr rest ↦ inr (lookup-cons_rest _ _ e v u.0 rest)
]

evicted-lookup :
    (e : String × PeerInfo) (v : View)
    → NodupKeys (e ∷ v)
    → lookup (oldest_from e v).0 (e ∷ v) ≡ some (oldest_from e v).1
evicted-lookup e v u = elim (oldest_from-lookup e v u.1) [
  | inl same ↦ subst (λ x. lookup x.0 (e ∷ v) ≡ some x.1) (sym same) (lookup-cons_self e v)
  | inr rest ↦ lookup-cons_rest _ _ e v u.0 rest
]

evict-oldest :
    (v : View) (k j : String) (q r : PeerInfo)
    → NodupKeys v
    → lookup k v ≡ some q
    → has k (evict_oldest_peer v).0 ≡ false
    → lookup j v ≡ some r
    → r.age ≤ q.age
unfolding evict_oldest_peer
evict-oldest [] k j q r u h gone g = absurd (unfold lookup in ground (arith, h))
evict-oldest (e ∷ v) k j q r u h gone g = elim (string_eq.dec k (oldest_from e v).0) [
  | yes same ↦
      let found : some (oldest_from e v).1 ≡ some q =
        sym (evicted-lookup e v u) ∙ ap (λ x. lookup x (e ∷ v)) (sym same) ∙ h in
      let age : (oldest_from e v).1 ≡ q = ground (arith, found) in
      omega (arith, evicted-oldest e v j r g, ap (λ x. x.age) age)
  | no n ↦ absurd (ground (arith, h, gone, lookup-erase k (oldest_from e v).0 (e ∷ v)))
]

has-insert_other :
    (k i : String) (p : PeerInfo) (v : View) → has k (insert i p v) ≡ false → has k v ≡ false
has-insert_other k i p v h = ground (arith, h, lookup-insert k i p v)

-- In a view with distinct ids, a peer that leaves when another is added is the oldest: no peer
-- of the view has a higher age.
pub add_peer-evicts_oldest :
    (s : PeerSampler) (p : PeerInfo) (k j : String) (q r : PeerInfo)
    → NodupKeys s.view
    → lookup k s.view ≡ some q
    → has k (add_peer s p).view ≡ false
    → lookup j s.view ≡ some r
    → r.age ≤ q.age
unfolding add_peer
add_peer-evicts_oldest s p k j q r u h gone g = elim (Bool-cases (has p.peer_id s.view)) [
  | inl old ↦
      let same : (add_peer s p).view ≡ insert p.peer_id (reset_age p) s.view =
        rw (old, add_peer) refl in
      absurd (
        ground (
          arith,
          h,
          has-insert_other k p.peer_id (reset_age p) s.view (ap (has k) (sym same) ∙ gone),
        ))
  | inr new ↦
      let same : (add_peer s p).view ≡ insert p.peer_id p (room s) = rw (new, add_peer) refl in
      let out : has k (room s) ≡ false =
        has-insert_other k p.peer_id p (room s) (ap (has k) (sym same) ∙ gone) in
      elim (Bool-cases (leb s.view_size (length s.view))) [
        | inl full ↦
            evict-oldest s.view k j q r u h
              (ap (λ b. has k (if b then (evict_oldest_peer s.view).0 else s.view)) (sym full)
                ∙ out)
              g
        | inr free ↦ absurd (ground (arith, h, free, out))
      ]
]
