-- ===== src/Upkeep/RateLimit.antt =====
-- back-end/src/redis/rate-limit.ts: fixed windows. A counter is Redis's INCR on a key with a time to
-- live; a counter whose time is over is one that is not there.
use skrivle.Prelude.{
  ℕ, zero, suc, min, ◌+◌, ◌-◌, ◌*◌, ◌≡◌, Bool, true, false, List, [], ◌∷◌, ◌++◌, Text, codes, ltb,
  leb, nat_eq, text_eq, ◌==◌, if◌then◌else◌, arith,
}

pub record RateLimitRule : Type 0 where
  pub bucket : Text
  pub limit : ℕ
  pub window_seconds : ℕ

pub record RateLimitResult : Type 0 where
  pub allowed : Bool
  pub remaining : ℕ
  pub reset_after : ℕ

-- INCR, EXPIRE, TTL (0 for its negative answers) and DEL.
pub record Counters : Type 1 where
  pub Db : Type 0
  pub count : Text → Db → ℕ
  pub incr : Text → Db → Db
  pub expire : Text → ℕ → Db → Db
  pub ttl : Text → Db → ℕ
  pub del : Text → Db → Db
  pub count-incr : (k : Text) (d : Db) → count k (incr k d) ≡ count k d + 1
  pub count-expire : (k j : Text) (n : ℕ) (d : Db) → count j (expire k n d) ≡ count j d
  pub count-del : (k : Text) (d : Db) → count k (del k d) ≡ 0

-- keys.rateLimit
unfoldable pub rate_limit_key : Text → Text → Text
rate_limit_key bucket subject = codes "rl:" ++ bucket ++ codes ":" ++ subject

-- The rules of RULES, at a scale.
unfoldable pub rule_per : ℕ → Text → ℕ → ℕ → RateLimitRule
rule_per scale bucket limit window = record {
  bucket = bucket;
  limit = limit * scale;
  window_seconds = window;
}

abbrev pub rules : ℕ → List RateLimitRule
rules scale =
    rule_per scale (codes "otp:email") 5 3600
    ∷ rule_per scale (codes "otp:ip") 20 3600
    ∷ rule_per scale (codes "otpv:ip") 30 3600
    ∷ rule_per scale (codes "board:new") 30 3600
    ∷ rule_per scale (codes "board:avail") 60 60
    ∷ rule_per scale (codes "upload:sign") 60 3600
    ∷ rule_per scale (codes "errors:ip") 30 3600
    ∷ []

module _ ⦃c : Counters⦄ where
  open c use {Db, count, incr, expire, ttl, del, count-incr, count-expire, count-del}

  -- consume; `reached` is false when a command throws, and the request is let through.
  unfoldable pub consume : Bool → RateLimitRule → Text → Db → RateLimitResult × Db
  unfolding rate_limit_key
  consume false rule subject db =
      (record { allowed = true; remaining = rule.limit; reset_after = rule.window_seconds }, db)
  consume true rule subject db =
      let key = rate_limit_key rule.bucket subject in
      let hit = incr key db in
      let n = count key hit in
      let set = if n == 1 then expire key rule.window_seconds hit else hit in
      let left = ttl key set in
      (
        record {
          allowed = leb n rule.limit;
          remaining = rule.limit - n;
          reset_after = if ltb 0 left then left else rule.window_seconds;
        },
        set,
      )

  -- reset
  unfoldable pub reset : Bool → RateLimitRule → Text → Db → Db
  unfolding rate_limit_key
  reset false rule subject db = db
  reset true rule subject db = del (rate_limit_key rule.bucket subject) db

  -- How many of a run of hits on one subject are let through.
  unfoldable pub allowed_of : ℕ → RateLimitRule → Text → Db → ℕ
  unfolding consume
  allowed_of zero rule subject db = 0
  allowed_of (suc hits) rule subject db =
      let (result, db') = consume true rule subject db in
      let rest = allowed_of hits rule subject db' in if result.allowed then 1 + rest else rest

  count-consume :
      (rule : RateLimitRule) (subject : Text) (db : Db)
      → count (rate_limit_key rule.bucket subject) (consume true rule subject db).1
        ≡ count (rate_limit_key rule.bucket subject) db + 1
  unfolding consume
  count-consume rule subject db =
      let key = rate_limit_key rule.bucket subject in
      ground (arith, count-incr key db, count-expire key key rule.window_seconds (incr key db))

  allowed-consume :
      (rule : RateLimitRule) (subject : Text) (db : Db)
      → (consume true rule subject db).0.allowed
        ≡ leb (count (rate_limit_key rule.bucket subject) db + 1) rule.limit
  unfolding consume
  allowed-consume rule subject db =
      ground (arith, count-incr (rate_limit_key rule.bucket subject) db)

  -- While Redis answers, a window lets through as many hits as its rule has left, and no more.
  pub window-allows :
      (hits : ℕ) (rule : RateLimitRule) (subject : Text) (db : Db)
      → allowed_of hits rule subject db
        ≡ min hits (rule.limit - count (rate_limit_key rule.bucket subject) db)
  unfolding allowed_of
  window-allows zero rule subject db = omega arith
  window-allows (suc hits) rule subject db =
      let after = (consume true rule subject db).1 in
      ground (
        arith,
        window-allows hits rule subject after,
        count-consume rule subject db,
        allowed-consume rule subject db,
      )
