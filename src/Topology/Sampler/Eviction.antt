-- ===== src/Topology/Sampler/Eviction.antt =====
-- The size of the view, and the age of the peer that is found for eviction.
use quinkgl_framework.Common.{
  ◌-◌, ◌≤◌, ◌<◌, String, ◌≡◌, refl, ap, ◌∙◌, ◌⊎◌, inl, inr, true, false, some, [], ◌∷◌, arith, ltb,
  leb, if◌then◌else◌, Bool-cases, nat_eq, string_eq, pair_eq, length,
}
use quinkgl_framework.Common.Dict.{
  lookup, insert, has, NodupKeys, length-erase, length-insert, lookup-erase, erase-NodupKeys,
  lookup-insert_self,
}
use quinkgl_framework.Topology.Sampler.{
  PeerInfo, View, PeerSampler, oldest_from, evict_oldest_peer, add_peer, reset_age,
}

oldest_from-at_least :
    (best : String × PeerInfo) (v : View) → best.1.age ≤ (oldest_from best v).1.age
unfolding oldest_from
oldest_from-at_least best [] = omega arith
oldest_from-at_least best (e ∷ v) =
    ground (arith, oldest_from-at_least best v, oldest_from-at_least e v)

-- The one of two entries that has the higher age, the first if they are equal.
abbrev pub older : String × PeerInfo → String × PeerInfo → String × PeerInfo
older best e = if ltb best.1.age e.1.age then e else best

older-bounds :
    (best e : String × PeerInfo)
    → (best.1.age ≤ (older best e).1.age) × (e.1.age ≤ (older best e).1.age)
older-bounds best e = (ground arith, ground arith)

pub older_cases : (best e : String × PeerInfo) → (older best e ≡ e) ⊎ (older best e ≡ best)
older_cases best e = elim (Bool-cases (ltb best.1.age e.1.age)) [
  | inl h ↦ inl (rw h refl)
  | inr h ↦ inr (rw h refl)
]

lookup-head :
    (j k : String) (q p : PeerInfo) (v : View)
    → lookup k ((j, q) ∷ v) ≡ some p
    → (q ≡ p) ⊎ (lookup k v ≡ some p)
unfolding lookup
lookup-head j k q p v h = ground (arith, h)

oldest_from-oldest :
    (best : String × PeerInfo) (v : View) (k : String) (p : PeerInfo)
    → lookup k v ≡ some p
    → p.age ≤ (oldest_from best v).1.age
unfolding oldest_from lookup
oldest_from-oldest best [] k p h = absurd (ground (arith, h))
oldest_from-oldest best ((j, q) ∷ v) k p h = elim (lookup-head j k q p v h) [
  | inl e ↦ omega (
    arith,
    ap (λ x. x.age) e,
    (older-bounds best (j, q)).1,
    oldest_from-at_least (older best (j, q)) v,
  )
  | inr rest ↦ oldest_from-oldest (older best (j, q)) v k p rest
]

has-cons :
    (k : String) (e : String × PeerInfo) (v : View)
    → (k ≡ e.0) ⊎ (has k v ≡ true)
    → has k (e ∷ v) ≡ true
unfolding lookup
has-cons k e v (inl h) = ground (arith, h)
has-cons k e v (inr h) = ground (arith, h)

-- The entry that is found is the first one or stands in the rest.
oldest_from-has :
    (best : String × PeerInfo) (v : View)
    → ((oldest_from best v).0 ≡ best.0) ⊎ (has (oldest_from best v).0 v ≡ true)
unfolding oldest_from
oldest_from-has best [] = inl refl
oldest_from-has best (e ∷ v) = elim (oldest_from-has (older best e) v) [
  | inl same ↦ elim (older_cases best e) [
    | inl new ↦ inr (has-cons _ e v (inl (same ∙ ap (λ x. x.0) new)))
    | inr old ↦ inl (same ∙ ap (λ x. x.0) old)
  ]
  | inr rest ↦ inr (has-cons _ e v (inr rest))
]

evicted-has : (e : String × PeerInfo) (v : View) → has (oldest_from e v).0 (e ∷ v) ≡ true
evicted-has e v = has-cons _ e v (oldest_from-has e v)

-- Every peer of the view is at most as old as the entry that is evicted from it.
pub evicted-oldest :
    (e : String × PeerInfo) (v : View) (k : String) (p : PeerInfo)
    → lookup k (e ∷ v) ≡ some p
    → p.age ≤ (oldest_from e v).1.age
evicted-oldest (j, q) v k p h = elim (lookup-head j k q p v h) [
  | inl e ↦ omega (arith, ap (λ x. x.age) e, oldest_from-at_least (j, q) v)
  | inr rest ↦ oldest_from-oldest (j, q) v k p rest
]

pub length-evict : (v : View) → NodupKeys v → length (evict_oldest_peer v).0 ≡ length v - 1
unfolding evict_oldest_peer
length-evict [] u = refl
length-evict (e ∷ v) u = omega (arith, length-erase (oldest_from e v).0 (e ∷ v) u (evicted-has e v))

pub evict-NodupKeys : (v : View) → NodupKeys v → NodupKeys (evict_oldest_peer v).0
unfolding evict_oldest_peer
evict-NodupKeys [] u = tt
evict-NodupKeys (e ∷ v) u = erase-NodupKeys (oldest_from e v).0 (e ∷ v) u

pub evict-absent : (v : View) (k : String) → has k v ≡ false → has k (evict_oldest_peer v).0 ≡ false
unfolding evict_oldest_peer
evict-absent [] k h = h
evict-absent (e ∷ v) k h = ground (arith, h, lookup-erase k (oldest_from e v).0 (e ∷ v))

has-insert_self : (k : String) (p : PeerInfo) (v : View) → has k (insert k p v) ≡ true
has-insert_self k p v = ground (arith, lookup-insert_self k p v)

-- The view in which a new peer finds its place.
abbrev pub room : PeerSampler → View
room s = if leb s.view_size (length s.view) then (evict_oldest_peer s.view).0 else s.view

length-room :
    (s : PeerSampler)
    → NodupKeys s.view
    → 0 < s.view_size
    → length s.view ≤ s.view_size
    → length (room s) < s.view_size
length-room s u pos bound = ground (arith, length-evict s.view u)

-- Adding a peer to a view with distinct ids that keeps to its size, which is not zero, leaves a
-- view that does, with the peer in it.
pub add_peer-bounded :
    (s : PeerSampler) (p : PeerInfo)
    → NodupKeys s.view
    → 0 < s.view_size
    → length s.view ≤ s.view_size
    → (length (add_peer s p).view ≤ s.view_size) × (has p.peer_id (add_peer s p).view ≡ true)
unfolding add_peer
add_peer-bounded s p u pos bound = elim (Bool-cases (has p.peer_id s.view)) [
  | inl old ↦
      rw (old, add_peer)
        (
          ground (arith, old, bound, length-insert p.peer_id (reset_age p) s.view),
          has-insert_self p.peer_id (reset_age p) s.view,
        )
  | inr new ↦
      rw (new, add_peer)
        (
          ground (arith, length-room s u pos bound, length-insert p.peer_id p (room s)),
          has-insert_self p.peer_id p (room s),
        )
]
