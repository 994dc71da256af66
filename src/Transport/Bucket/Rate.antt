-- ===== src/Transport/Bucket/Rate.antt =====
-- How many requests a bucket lets through.
use quinkgl_framework.Common.{
  ℕ, ◌+◌, ◌-◌, ◌*◌, ◌≤◌, String, ◌≡◌, sym, ap, subst, ◌∙◌, ◌≢◌, Bool, true, false, none, some, List,
  [], ◌∷◌, arith, if◌then◌else◌, ◌==◌, nat_eq, string_eq, pair_eq, All,
}
use quinkgl_framework.Common.Dict.{Dict, lookup, insert, lookup-insert}
use quinkgl_framework.Transport.Bucket.{Bucket, refill, take_token, consume, bucket_of, try_consume}

-- Requests of several keys, each with its time: how many of one key were allowed.
unfoldable pub allowed_count : ℕ → ℕ → String → Dict String Bucket → List (String × ℕ) → ℕ
allowed_count interval max_tokens key buckets [] = 0
allowed_count interval max_tokens key buckets ((j, now) ∷ requests) =
    let (buckets', allowed) = try_consume interval max_tokens buckets j now in
    (if j == key then (if allowed then 1 else 0) else 0)
    + allowed_count interval max_tokens key buckets' requests

consume-pays :
    (interval max_tokens now : ℕ) (b : Bucket)
    → (if (consume interval max_tokens b now).1 then interval else 0)
        + (consume interval max_tokens b now).0.tokens
        + b.last_refill
      ≤ b.tokens + (consume interval max_tokens b now).0.last_refill
unfolding consume refill take_token
consume-pays interval max_tokens now b = ground arith

consume-last_refill :
    (interval max_tokens now latest : ℕ) (b : Bucket)
    → now ≤ latest
    → b.last_refill ≤ latest
    → (consume interval max_tokens b now).0.last_refill ≤ latest
unfolding consume refill take_token
consume-last_refill interval max_tokens now latest b h k = ground arith

-- A request of one key leaves the bucket of every other key as it was.
pub try_consume-other :
    (interval max_tokens now : ℕ) (buckets : Dict String Bucket) (key other : String)
    → other ≢ key
    → lookup other (try_consume interval max_tokens buckets key now).0 ≡ lookup other buckets
unfolding try_consume
try_consume-other interval max_tokens now buckets key other h = ground (
  arith,
  lookup-insert other key
      (consume interval max_tokens (bucket_of interval max_tokens buckets key now) now).0 buckets,
)

allowed_count-other :
    (interval max_tokens now : ℕ) (key j : String) (requests : List (String × ℕ))
    (buckets : Dict String Bucket)
    → j ≢ key
    → allowed_count interval max_tokens key buckets ((j, now) ∷ requests)
      ≡ allowed_count interval max_tokens key
          (try_consume interval max_tokens buckets j now).0
          requests
unfolding allowed_count
allowed_count-other interval max_tokens now key j requests buckets h = ground arith

-- With `b` the bucket that the key has, or would get.
allowed_count-same :
    (interval max_tokens now : ℕ) (key : String) (requests : List (String × ℕ))
    (buckets : Dict String Bucket) (b : Bucket)
    → bucket_of interval max_tokens buckets key now ≡ b
    → allowed_count interval max_tokens key buckets ((key, now) ∷ requests)
      ≡ (if (consume interval max_tokens b now).1 then 1 else 0)
        + allowed_count interval max_tokens key
            (insert key (consume interval max_tokens b now).0 buckets)
            requests
unfolding allowed_count try_consume
allowed_count-same interval max_tokens now key requests buckets b h =
    rw (h, allowed_count, try_consume) (ground arith)

bucket_of-some :
    (interval max_tokens now : ℕ) (key : String) (buckets : Dict String Bucket) (b : Bucket)
    → lookup key buckets ≡ some b
    → bucket_of interval max_tokens buckets key now ≡ b
unfolding bucket_of
bucket_of-some interval max_tokens now key buckets b e = ground arith

bucket_of-none :
    (interval max_tokens now : ℕ) (key : String) (buckets : Dict String Bucket)
    → lookup key buckets ≡ none
    → bucket_of interval max_tokens buckets key now
      ≡ record { tokens = max_tokens * interval; last_refill = now }
unfolding bucket_of
bucket_of-none interval max_tokens now key buckets e = ground arith

lookup_inserted :
    (key : String) (b : Bucket) (buckets : Dict String Bucket)
    → lookup key (insert key b buckets) ≡ some b
lookup_inserted key b buckets = lookup-insert key key b buckets ∙ ground arith

-- One request's payment and those of the rest add up.
pays_on :
    (interval n latest t l t' l' : ℕ) (allowed : Bool)
    → (if allowed then interval else 0) + t' + l ≤ t + l'
    → n * interval + l' ≤ t' + latest
    → ((if allowed then 1 else 0) + n) * interval + l ≤ t + latest
pays_on interval n latest t l t' l' true h k = omega arith
pays_on interval n latest t l t' l' false h k = omega arith

allowed_count-pays :
    (interval max_tokens latest : ℕ) (key : String) (requests : List (String × ℕ))
    (buckets : Dict String Bucket) (b : Bucket)
    → lookup key buckets ≡ some b
    → All (λ r. r.1 ≤ latest) requests
    → b.last_refill ≤ latest
    → allowed_count interval max_tokens key buckets requests * interval + b.last_refill
      ≤ b.tokens + latest
allowed_count-pays interval max_tokens latest key [] buckets b e h k =
    unfold allowed_count in omega arith
allowed_count-pays interval max_tokens latest key ((j, now) ∷ requests) buckets b e h k =
    elim (string_eq.dec j key) [
      | yes p ↦
          subst
            (λ i.
              allowed_count interval max_tokens key buckets ((i, now) ∷ requests) * interval
                + b.last_refill
              ≤ b.tokens + latest)
            (sym p)
            (rw
              (allowed_count-same interval max_tokens now key requests buckets b
                (bucket_of-some interval max_tokens now key buckets b e))
              (pays_on interval _ latest b.tokens b.last_refill _ _
                (consume interval max_tokens b now).1 (consume-pays interval max_tokens now b)
                (allowed_count-pays interval max_tokens latest key requests
                  (insert key (consume interval max_tokens b now).0 buckets)
                  (consume interval max_tokens b now).0
                  (lookup_inserted key (consume interval max_tokens b now).0 buckets) h.1
                  (consume-last_refill interval max_tokens now latest b h.0 k))))
      | no n ↦ rw (allowed_count-other interval max_tokens now key j requests buckets n) (
          allowed_count-pays interval max_tokens latest key requests
            (try_consume interval max_tokens buckets j now).0 b
            (try_consume-other interval max_tokens now buckets j key (λ p. n (sym p)) ∙ e) h.1 k)
    ]

-- Of the requests of a key that has no bucket yet, at most max_tokens are allowed, and one more
-- for each interval that passes, if all requests come between two times; other keys may ask too,
-- and the clock may jump between the two.
pub rate_bound :
    (interval max_tokens start latest : ℕ) (key : String) (requests : List (String × ℕ))
    (buckets : Dict String Bucket)
    → lookup key buckets ≡ none
    → All (λ r. (start ≤ r.1) × (r.1 ≤ latest)) requests
    → allowed_count interval max_tokens key buckets requests * interval
      ≤ max_tokens * interval + (latest - start)
rate_bound interval max_tokens start latest key [] buckets e h = unfold allowed_count in omega arith
rate_bound interval max_tokens start latest key ((j, now) ∷ requests) buckets e h =
    elim (string_eq.dec j key) [
      | yes p ↦
          subst
            (λ i.
              allowed_count interval max_tokens key buckets ((i, now) ∷ requests) * interval
              ≤ max_tokens * interval + (latest - start))
            (sym p)
            (omega (
              arith,
              ap (λ c. c * interval)
                  (allowed_count-same interval max_tokens now key requests buckets full
                    (bucket_of-none interval max_tokens now key buckets e)),
              pays_on interval _ latest full.tokens now _ _ (consume interval max_tokens full now).1
                  (consume-pays interval max_tokens now full)
                  (allowed_count-pays interval max_tokens latest key requests
                    (insert key (consume interval max_tokens full now).0 buckets)
                    (consume interval max_tokens full now).0
                    (lookup_inserted key (consume interval max_tokens full now).0 buckets)
                    (upper requests h.1)
                    (consume-last_refill interval max_tokens now latest full h.0.1 h.0.1)),
            ))
      | no n ↦ rw (allowed_count-other interval max_tokens now key j requests buckets n) (
          rate_bound interval max_tokens start latest key requests
            (try_consume interval max_tokens buckets j now).0
            (try_consume-other interval max_tokens now buckets j key (λ p. n (sym p)) ∙ e) h.1)
    ]
  where
    full : Bucket
    full = record { tokens = max_tokens * interval; last_refill = now }

    upper :
        (rs : List (String × ℕ))
        → All (λ r. (start ≤ r.1) × (r.1 ≤ latest)) rs
        → All (λ r. r.1 ≤ latest) rs
    upper [] _ = tt
    upper (r ∷ rs) a = (a.0.1, upper rs a.1)
