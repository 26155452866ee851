-- ===== src/RateLimit.antt =====
-- web/controller/api/ratelimit.go: the token bucket of each API key. A float64 of tokens is counted
-- in billionths of a token and a time in nanoseconds, so a refill of `refill` tokens a second is
-- `refill` billionths a nanosecond, exactly; rounding of float64 is not modelled. `time.Now()` is read
-- before the lock is taken, so a call may carry an earlier time than the bucket it finds: the tokens
-- are an integer, and may fall below zero.
pub mod Bounds
pub mod Collector
use nexcore_x_ui.Prelude.{
  ℕ, ◌*◌, ◌-◌, ◌+◌, String, Bool, true, false, Option, none, some, List, [], ◌∷◌, str_eq,
  if◌then◌else◌, ltb, delete_rows,
}
use nexcore_x_ui.Prelude.Int.{ℤ, pos, ◌+ℤ◌, ◌-ℤ◌, ltb_ℤ}

-- One token.
abbrev pub token : ℕ
token = 1_000_000_000

pub record Bucket : Type 0 where
  pub tokens : ℤ
  pub last : ℕ

pub record RateLimiter : Type 0 where
  pub buckets : String → Option Bucket
  pub burst : ℕ
  pub refill : ℕ

unfoldable pub new_rate_limiter : ℕ → ℕ → RateLimiter
new_rate_limiter burst refill = record { buckets = λ _. none; burst = burst; refill = refill }

-- m[k] = b
abbrev pub put : String → Bucket → (String → Option Bucket) → String → Option Bucket
put k b m j = if str_eq k j then some b else m j

-- The tokens after the refill since the last hit, capped at the burst. now.Sub(b.last) is negative
-- when `now` is the earlier time.
unfoldable pub refilled : ℕ → ℕ → ℕ → Bucket → ℤ
refilled burst refill now b =
    let t = b.tokens +ℤ pos (refill * now) -ℤ pos (refill * b.last) in
    if ltb_ℤ (pos (burst * token)) t then pos (burst * token) else t

-- One hit on a bucket, or on none: what the map holds for the key afterwards, and the answer.
unfoldable pub hit : ℕ → ℕ → ℕ → Option Bucket → Bucket × Bool
unfolding refilled
hit burst refill now none = (record { tokens = pos (burst * token) -ℤ pos token; last = now }, true)
hit burst refill now (some b) =
    let t = refilled burst refill now b in
    if ltb_ℤ t (pos token)
    then (record { tokens = t; last = now }, false)
    else (record { tokens = t -ℤ pos token; last = now }, true)

unfoldable pub allow : RateLimiter → String → ℕ → RateLimiter × Bool
unfolding hit
allow rl key now =
    let (b, answer) = hit rl.burst rl.refill now (rl.buckets key) in
    (record rl { buckets = put key b rl.buckets }, answer)

-- Ten minutes.
abbrev pub idle_limit : ℕ
idle_limit = 600_000_000_000

-- b.last.Before(now - 10 min)
abbrev pub is_idle : ℕ → Bucket → Bool
is_idle now b = ltb (b.last + idle_limit) now

abbrev pub kept : ℕ → Option Bucket → Option Bucket
kept now none = none
kept now (some b) = if is_idle now b then none else some b

-- One tick of gcLoop.
unfoldable pub collect : RateLimiter → ℕ → RateLimiter
collect rl now = record rl { buckets = λ k. kept now (rl.buckets k) }
