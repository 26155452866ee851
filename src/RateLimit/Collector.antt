-- ===== src/RateLimit/Collector.antt =====
-- The collector is not seen: a bucket that it drops answers as a new one would.
use native.Mathlib.Nat.{mul-le-mul_left}
use nexcore_x_ui.Prelude.{
  ℕ, ◌+◌, ◌*◌, ◌≤◌, ◌≡◌, refl, Option, none, some, arith, Bool-cases, inl, inr,
}
use nexcore_x_ui.Prelude.Int.{pos, neg_part, ◌+ℤ◌, ◌-ℤ◌}
use nexcore_x_ui.RateLimit.{token, Bucket, refilled, hit, kept, is_idle, idle_limit}

-- Long after the last hit the bucket is full.
refilled_full :
    (burst refill now : ℕ) (b : Bucket)
    → neg_part b.tokens ≡ 0
    → burst * token + refill * b.last ≤ refill * now
    → refilled burst refill now b ≡ pos (burst * token)
unfolding refilled ◌+ℤ◌ ◌-ℤ◌
refilled_full burst refill now b h full = ground arith

-- With at least one token of burst, and a refill that fills the bucket in ten minutes: for a
-- bucket whose tokens are not below zero, or none, a hit that comes no earlier than a collection leaves the same bucket and gives the same answer as without the collection.
pub hit-kept :
    (burst refill tick now : ℕ) (o : Option Bucket)
    → 1 ≤ burst
    → burst * token ≤ refill * idle_limit
    → ((b : Bucket) → o ≡ some b → neg_part b.tokens ≡ 0)
    → tick ≤ now
    → hit burst refill now (kept tick o) ≡ hit burst refill now o
unfolding hit
hit-kept burst refill tick now none some_burst slow nonneg later = refl
hit-kept burst refill tick now (some b) some_burst slow nonneg later =
    elim (Bool-cases (is_idle tick b)) [
      | inl idle ↦
          (let grows : refill * (b.last + idle_limit) ≤ refill * now =
              mul-le-mul_left refill (ground arith) in
            let full = refilled_full burst refill now b (nonneg b refl) (omega arith) in
            rw (idle, full) (ground arith))
      | inr busy ↦ rw busy
    ]
