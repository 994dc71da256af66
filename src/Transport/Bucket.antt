-- ===== src/Transport/Bucket.antt =====
-- The token buckets of `_nack_try_consume` and `_nack_try_consume_transfer` in
-- src/quinkgl/network/gossip_community.py. With times in whole milliseconds a token is
-- `interval` units, and each millisecond refills one unit: the refill `elapsed / interval` of the
-- source, without rounding. A clock that went back refills nothing.
pub mod Rate
use quinkgl_framework.Common.{
  ℕ, ◌+◌, ◌-◌, ◌*◌, min, String, Bool, true, false, none, some, ltb, leb, if◌then◌else◌, nat_eq,
  string_eq, pair_eq,
}
use quinkgl_framework.Common.Dict.{Dict, lookup, insert}
use quinkgl_framework.Transport.Limits.{
  nack_bucket_interval, nack_bucket_max_tokens, nack_transfer_bucket_interval,
  nack_transfer_bucket_max_tokens,
}

pub record Bucket : Type 0 where
  pub tokens : ℕ
  pub last_refill : ℕ

unfoldable pub refill : ℕ → Bucket → ℕ → Bucket
refill capacity b now =
    let elapsed = now - b.last_refill in
    if ltb 0 elapsed
    then record { tokens = min (b.tokens + elapsed) capacity; last_refill = now }
    else b

-- One token is taken if there is one.
unfoldable pub take_token : ℕ → Bucket → Bucket × Bool
take_token interval b =
    if leb interval b.tokens then (record b { tokens = b.tokens - interval }, true) else (b, false)

unfoldable pub consume : ℕ → ℕ → Bucket → ℕ → Bucket × Bool
unfolding refill take_token
consume interval max_tokens b now = take_token interval (refill (max_tokens * interval) b now)

unfoldable pub bucket_of : ℕ → ℕ → Dict String Bucket → String → ℕ → Bucket
bucket_of interval max_tokens buckets key now = elim (lookup key buckets) [
  | none ↦ record { tokens = max_tokens * interval; last_refill = now }
  | some b ↦ b
]

unfoldable pub try_consume : ℕ → ℕ → Dict String Bucket → String → ℕ → Dict String Bucket × Bool
unfolding consume bucket_of
try_consume interval max_tokens buckets key now =
    let (b, allowed) =
      consume interval max_tokens (bucket_of interval max_tokens buckets key now) now in
    (insert key b buckets, allowed)

unfoldable pub nack_try_consume : Dict String Bucket → String → ℕ → Dict String Bucket × Bool
unfolding try_consume
nack_try_consume = try_consume nack_bucket_interval nack_bucket_max_tokens

unfoldable pub nack_try_consume_transfer :
    Dict String Bucket → String → ℕ → Dict String Bucket × Bool
unfolding try_consume
nack_try_consume_transfer =
    try_consume nack_transfer_bucket_interval nack_transfer_bucket_max_tokens
