-- ===== src/Realtime/Limits.antt =====
-- back-end/src/realtime/limits.ts: the token buckets of a socket, and the ceilings on sizes.
-- Times are `Date.now()` in milliseconds. Tokens are fractions in the source, and every rate there
-- is a multiple of a fifth of a token a second, so an allowance is counted exactly in units of a
-- five-thousandth of a token: `units` of them make one. (The source's doubles round.)
pub mod Budget
use skrivle.Prelude.{ℕ, ◌+◌, ◌-◌, ◌*◌, min, Bool, true, false, List, [], ◌∷◌, ltb, if◌then◌else◌}

abbrev pub units : ℕ
units = 5000

-- `capacity` in tokens, `per_second` in fifths of a token.
pub record BucketRule : Type 0 where
  pub capacity : ℕ
  pub per_second : ℕ

-- `tokens` in units.
pub record Bucket : Type 0 where
  pub tokens : ℕ
  pub at : ℕ

-- The scale is `rateLimitScale`, 1 in production.
unfoldable pub per : ℕ → BucketRule → BucketRule
per scale rule = record { capacity = rule.capacity * scale; per_second = rule.per_second * scale }

abbrev pub sync_update : BucketRule
sync_update = record { capacity = 240; per_second = 300 }

abbrev pub sync_bytes : BucketRule
sync_bytes = record { capacity = 8 * 1024 * 1024; per_second = 2560 * 1024 }

abbrev pub sync_step : BucketRule
sync_step = record { capacity = 5; per_second = 1 }

abbrev pub awareness_rule : BucketRule
awareness_rule = record { capacity = 120; per_second = 200 }

unfoldable pub new_bucket : BucketRule → ℕ → Bucket
new_bucket rule now = record { tokens = rule.capacity * units; at = now }

-- `Math.max(0, now - bucket.at)`: subtraction on ℕ stops at 0.
unfoldable pub refilled : Bucket → BucketRule → ℕ → ℕ
refilled bucket rule now =
    min (rule.capacity * units) (bucket.tokens + (now - bucket.at) * rule.per_second)

unfoldable pub take : Bucket → BucketRule → ℕ → ℕ → Bucket × Bool
unfolding refilled
take bucket rule cost now =
    let tokens = refilled bucket rule now in
    if ltb tokens (cost * units)
    then (record { tokens = tokens; at = now }, false)
    else (record { tokens = tokens - cost * units; at = now }, true)

abbrev pub resync_after_ms : ℕ
resync_after_ms = 1000

abbrev pub max_board_bytes : ℕ
max_board_bytes = 4 * 1024 * 1024

abbrev pub max_awareness_bytes : ℕ
max_awareness_bytes = 16 * 1024

abbrev pub max_client_ids_per_socket : ℕ
max_client_ids_per_socket = 2
