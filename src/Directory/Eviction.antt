-- ===== src/Directory/Eviction.antt =====
-- What the eviction of expired advertisements and of the oldest ones leaves.
use quinkgl_framework.Common.{
  ℕ, ◌≤◌, ◌<◌, String, ◌≡◌, none, some, List, [], ◌∷◌, ◌++◌, arith, ltb, if-elim, nat_eq, string_eq,
  pair_eq, length,
}
use quinkgl_framework.Common.Dict.{Dict, lookup, NodupKeys, lookup-cons_rest, lookup-append_last}
use quinkgl_framework.Common.Purge.{
  erase_all, keys_where, lookup-purge, erase_all-NodupKeys, lookup-erase_all,
}
use quinkgl_framework.Directory.{SwarmAdvertisement, is_expired, evict_expired, evict_oldest}

pub length-evict_oldest :
    (n : ℕ) (d : Dict String SwarmAdvertisement) → length (evict_oldest n d) ≤ n
unfolding evict_oldest
length-evict_oldest n [] = omega arith
length-evict_oldest n (e ∷ d) = ground (arith, length-evict_oldest n d)

pub evict_oldest-NodupKeys :
    (n : ℕ) (d : Dict String SwarmAdvertisement) → NodupKeys d → NodupKeys (evict_oldest n d)
unfolding evict_oldest
evict_oldest-NodupKeys n [] u = tt
evict_oldest-NodupKeys n (e ∷ d) u =
    if-elim NodupKeys (ltb n (length (e ∷ d))) (λ _. evict_oldest-NodupKeys n d u.1) (λ _. u)

pub evict_expired-NodupKeys :
    (now : ℕ) (d : Dict String SwarmAdvertisement) → NodupKeys d → NodupKeys (evict_expired now d)
unfolding evict_expired
evict_expired-NodupKeys now d u = erase_all-NodupKeys (keys_where (is_expired now) d) d u

lookup-tail_none :
    (k : String) (e : String × SwarmAdvertisement) (d : Dict String SwarmAdvertisement)
    → lookup k (e ∷ d) ≡ none
    → lookup k d ≡ none
unfolding lookup
lookup-tail_none k e d h = ground (arith, h)

-- What is left was there before.
pub lookup-evict_oldest :
    (n : ℕ) (d : Dict String SwarmAdvertisement) (id : String) (ad : SwarmAdvertisement)
    → NodupKeys d
    → lookup id (evict_oldest n d) ≡ some ad
    → lookup id d ≡ some ad
unfolding evict_oldest
lookup-evict_oldest n [] id ad u = λ h. h
lookup-evict_oldest n (e ∷ d) id ad u =
    if-elim (λ x. lookup id x ≡ some ad → lookup id (e ∷ d) ≡ some ad) (ltb n (length (e ∷ d)))
      (λ _ h. lookup-cons_rest id ad e d u.0 (lookup-evict_oldest n d id ad u.1 h)) (λ _ h. h)

pub lookup-evict_expired :
    (now : ℕ) (d : Dict String SwarmAdvertisement) (id : String) (ad : SwarmAdvertisement)
    → NodupKeys d
    → lookup id (evict_expired now d) ≡ some ad
    → lookup id d ≡ some ad
unfolding evict_expired
lookup-evict_expired now d id ad u h = ground (arith, h, lookup-purge (is_expired now) id d u)

-- The entry at the end survives.
pub lookup-evict_last :
    (n : ℕ) (d : Dict String SwarmAdvertisement) (k : String) (v : SwarmAdvertisement)
    → 0 < n
    → lookup k d ≡ none
    → lookup k (evict_oldest n (d ++ (k, v) ∷ [])) ≡ some v
unfolding evict_oldest
lookup-evict_last n [] k v pos h =
    if-elim (λ x. lookup k x ≡ some v) (ltb n 1) (λ yes. absurd (ground (arith, pos, yes)))
      (λ _. lookup-append_last k v [] h)
lookup-evict_last n (e ∷ d) k v pos h =
    if-elim (λ x. lookup k x ≡ some v) (ltb n (length (e ∷ (d ++ (k, v) ∷ []))))
      (λ _. lookup-evict_last n d k v pos (lookup-tail_none k e d h))
      (λ _. lookup-append_last k v (e ∷ d) h)

pub lookup-erase_all-none :
    (k : String) (ks : List String) (d : Dict String SwarmAdvertisement)
    → lookup k d ≡ none
    → lookup k (erase_all ks d) ≡ none
lookup-erase_all-none k ks d h = ground (arith, h, lookup-erase_all k ks d)
