-- ===== src/Topology/Sampler.antt =====
-- `PeerSampler` of src/quinkgl/topology/sampler.py: the partial view of a node, under its lock. Of a
-- peer's fields the fingerprint, the metadata and the time of its last sign of life are left out.
pub mod Eviction
pub mod Oldest
pub mod Merging
use quinkgl_framework.Common.{
  ℕ, zero, suc, ◌+◌, min, String, Bool, true, false, not, Option, none, some, List, [], ◌∷◌, ltb,
  leb, if◌then◌else◌, contains, nat_eq, string_eq, pair_eq, length, take, keep,
}
use quinkgl_framework.Common.Dict.{Dict, lookup, insert, erase, has, values}

pub record PeerInfo : Type 0 where
  pub peer_id : String
  pub domain : String
  pub data_schema_hash : String
  pub manifest_id : Option String
  pub model_version : String
  pub age : ℕ

abbrev pub View : Type 0
View = Dict String PeerInfo

pub record PeerSampler : Type 0 where
  pub view_size : ℕ
  pub view : View

unfoldable pub reset_age : PeerInfo → PeerInfo
reset_age p = record p { age = 0 }

-- `max(items, key=age)`: the first entry of the highest age, from one on.
unfoldable pub oldest_from : String × PeerInfo → View → String × PeerInfo
oldest_from best [] = best
oldest_from best (e ∷ v) = oldest_from (if ltb best.1.age e.1.age then e else best) v

unfoldable pub evict_oldest_peer : View → View × Option String
unfolding oldest_from
evict_oldest_peer [] = ([], none)
evict_oldest_peer (e ∷ v) = (erase (oldest_from e v).0 (e ∷ v), some (oldest_from e v).0)

-- A known peer is refreshed; a new one takes the place of the oldest in a full view, with its age.
unfoldable pub add_peer : PeerSampler → PeerInfo → PeerSampler
unfolding evict_oldest_peer reset_age
add_peer s p =
    if has p.peer_id s.view
    then record s { view = insert p.peer_id (reset_age p) s.view }
    else record s {
      view =
          insert p.peer_id p
            (if leb s.view_size (length s.view) then (evict_oldest_peer s.view).0 else s.view);
    }

unfoldable pub remove_peer : PeerSampler → String → PeerSampler × Bool
remove_peer s peer_id =
    if has peer_id s.view then (record s { view = erase peer_id s.view }, true) else (s, false)

-- The peers that a random selection picks from.
unfoldable pub candidates : PeerSampler → List String → List PeerInfo
candidates s exclude = keep (λ p. not (contains exclude p.peer_id)) (values s.view)

-- `sort(key=age)`, which is stable.
unfoldable pub insert_by_age : PeerInfo → List PeerInfo → List PeerInfo
insert_by_age p [] = p ∷ []
insert_by_age p (q ∷ qs) =
    let rest = insert_by_age p qs in if leb p.age q.age then p ∷ q ∷ qs else q ∷ rest

unfoldable pub sort_by_age : List PeerInfo → List PeerInfo
unfolding insert_by_age
sort_by_age [] = []
sort_by_age (p ∷ ps) = insert_by_age p (sort_by_age ps)

-- The peers of a shuffle that are not in the view, the youngest if there are too many.
unfoldable pub peers_to_add : PeerSampler → List PeerInfo → Option ℕ → List PeerInfo
unfolding sort_by_age
peers_to_add s new_peers shuffle_length =
    let limit : ℕ = elim shuffle_length [
      | none ↦ length new_peers
      | some n ↦ min n (length new_peers)
    ] in
    let fresh = keep (λ p. not (has p.peer_id s.view)) new_peers in
    if ltb limit (length fresh) then take limit (sort_by_age fresh) else fresh

-- `for _ in range(n): if len(view) >= view_size: evict`
unfoldable pub make_space : ℕ → ℕ → View → View
unfolding evict_oldest_peer
make_space view_size zero v = v
make_space view_size (suc n) v =
    make_space view_size n (if leb view_size (length v) then (evict_oldest_peer v).0 else v)

unfoldable pub add_all : List PeerInfo → View → View
unfolding reset_age
add_all [] v = v
add_all (p ∷ ps) v = add_all ps (insert p.peer_id (reset_age p) v)

unfoldable pub merge_view : PeerSampler → List PeerInfo → Option ℕ → PeerSampler
unfolding peers_to_add make_space add_all
merge_view s new_peers shuffle_length =
    let added = peers_to_add s new_peers shuffle_length in
    record s { view = add_all added (make_space s.view_size (length added) s.view) }

unfoldable pub increment_ages : View → View
increment_ages [] = []
increment_ages ((k, p) ∷ v) = (k, record p { age = p.age + 1 }) ∷ increment_ages v

unfoldable pub increment_all_ages : PeerSampler → PeerSampler
unfolding increment_ages
increment_all_ages s = record s { view = increment_ages s.view }

unfoldable pub insert_by_age_desc : PeerInfo → List PeerInfo → List PeerInfo
insert_by_age_desc p [] = p ∷ []
insert_by_age_desc p (q ∷ qs) =
    let rest = insert_by_age_desc p qs in if leb q.age p.age then p ∷ q ∷ qs else q ∷ rest

-- `sorted(..., key=age, reverse=True)`, also stable.
unfoldable pub sort_by_age_desc : List PeerInfo → List PeerInfo
unfolding insert_by_age_desc
sort_by_age_desc [] = []
sort_by_age_desc (p ∷ ps) = insert_by_age_desc p (sort_by_age_desc ps)

unfoldable pub get_oldest_peers : PeerSampler → ℕ → List PeerInfo
unfolding sort_by_age_desc
get_oldest_peers s count = take count (sort_by_age_desc (values s.view))
