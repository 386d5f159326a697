-- ===== src/Realtime/Limits/Budget.antt =====
-- back-end/src/realtime/limits.ts: what a bucket lets through over time.
use skrivle.Prelude.{
  ℕ, ◌+◌, ◌-◌, ◌*◌, ◌≤◌, ◌<◌, ◌≡◌, true, false, List, [], ◌∷◌, arith, if◌then◌else◌,
}
use skrivle.Realtime.Limits.{
  units, BucketRule, Bucket, per, sync_update, sync_bytes, new_bucket, refilled, take,
  resync_after_ms,
}

-- A socket's calls, each a cost and a time; the bucket after them and the tokens they spent.
pub spend : BucketRule → Bucket → List (ℕ × ℕ) → Bucket × ℕ
spend rule b [] = (b, 0)
spend rule b ((cost, now) ∷ calls) =
    let (b', granted) = take b rule cost now in
    let (b'', spent) = spend rule b' calls in (b'', (if granted then cost else 0) + spent)

-- The clock of the calls never runs backwards.
abbrev pub Forward : ℕ → List (ℕ × ℕ) → Type 0
Forward t [] = Unit {0}
Forward t ((cost, now) ∷ calls) = (t ≤ now) × Forward now calls

sub-mul-add : (a b r : ℕ) → a ≤ b → (b - a) * r + a * r ≡ b * r
sub-mul-add a b r h = grind arith

refilled-le :
    (b : Bucket) (rule : BucketRule) (now : ℕ)
    → b.at ≤ now
    → refilled b rule now + b.at * rule.per_second ≤ b.tokens + now * rule.per_second
unfolding refilled
refilled-le b rule now h = omega (arith, sub-mul-add b.at now rule.per_second h)

take-accounts :
    (b : Bucket) (rule : BucketRule) (cost now : ℕ)
    → b.at ≤ now
    → (if (take b rule cost now).1 then cost else 0) * units
        + (take b rule cost now).0.tokens
        + b.at * rule.per_second
      ≤ b.tokens + now * rule.per_second
unfolding take
take-accounts b rule cost now h = ground (arith, refilled-le b rule now)

at-take : (b : Bucket) (rule : BucketRule) (cost now : ℕ) → (take b rule cost now).0.at ≡ now
unfolding take
at-take b rule cost now = ground arith

spend-accounts :
    (rule : BucketRule) (b : Bucket) (calls : List (ℕ × ℕ))
    → Forward b.at calls
    → (spend rule b calls).1 * units + (spend rule b calls).0.tokens + b.at * rule.per_second
      ≤ b.tokens + (spend rule b calls).0.at * rule.per_second
unfolding spend
spend-accounts rule b [] h = omega arith
spend-accounts rule b ((cost, now) ∷ calls) h = ground (
  arith,
  take-accounts b rule cost now,
  at-take b rule cost now,
  spend-accounts rule (take b rule cost now).0 calls (rw (at-take b rule cost now) h.1),
)

-- Over any calls whose times never run backwards, what a socket spends from a new bucket is at most
-- the bucket's capacity plus what its rate brings back between the first and the last moment.
pub spend-le :
    (rule : BucketRule) (start : ℕ) (calls : List (ℕ × ℕ))
    → Forward start calls
    → (spend rule (new_bucket rule start) calls).1 * units + start * rule.per_second
      ≤ rule.capacity * units + (spend rule (new_bucket rule start) calls).0.at * rule.per_second
unfolding new_bucket
spend-le rule start calls h =
    omega
      (arith, spend-accounts rule (record { tokens = rule.capacity * units; at = start }) calls h)

-- A bucket never holds more than its capacity, whatever it held before.
pub take-le-capacity :
    (b : Bucket) (rule : BucketRule) (cost now : ℕ)
    → (take b rule cost now).0.tokens ≤ rule.capacity * units
unfolding take refilled
take-le-capacity b rule cost now = ground arith

-- Once one update in a burst has been dropped for coming too fast, an update sent after the resync
-- delay finds its message token, at every scale of the limits but 0.
pub resync-granted :
    (scale : ℕ) (b : Bucket) (now later : ℕ)
    → 0 < scale
    → (take b (per scale sync_update) 1 now).1 ≡ false
    → now + resync_after_ms ≤ later
    → (take (take b (per scale sync_update) 1 now).0 (per scale sync_update) 1 later).1 ≡ true
unfolding take refilled per
resync-granted scale b now later s h l = ground (arith, wait)
  where
    wait : 1000 * (300 * scale) ≤ (later - now) * (300 * scale)
    wait = grind arith

-- The bytes are another matter: from a drained bucket, an answer of more than half a megabyte is
-- refused again when the resync delay has just passed.
pub resync_bytes_refused :
    (b : Bucket) (now cost : ℕ)
    → b.tokens ≡ 0
    → b.at ≡ now
    → 512 * 1024 < cost
    → (take b (per 1 sync_bytes) cost (now + resync_after_ms)).1 ≡ false
unfolding take refilled per
resync_bytes_refused b now cost e a h = ground arith
