-- ===== src/RateLimit/Bounds.antt =====
-- How many requests a key is granted, whatever the other keys do and whenever the collector runs.
use native.Mathlib.Nat.{mul-le-mul_left}
use nexcore_x_ui.Prelude.{
  ℕ, ◌+◌, ◌*◌, ◌≤◌, String, Bool, true, false, ◌&&◌, ◌≡◌, sym, ap, Option, none, some, List, [],
  ◌∷◌, arith, str_eq, eq_iff, Bool-cases, inl, inr,
}
use nexcore_x_ui.Prelude.Int.{pos_part, neg_part, ◌+ℤ◌, ◌-ℤ◌}
use nexcore_x_ui.RateLimit.{
  token, Bucket, RateLimiter, new_rate_limiter, put, refilled, hit, allow, collect, kept, is_idle,
  idle_limit,
}

-- A hit on the limiter, or a tick of its collector.
pub data Event : Type 0 where
  request : (key : String) (now : ℕ) → Event
  tick : (now : ℕ) → Event

abbrev pub time_of : Event → ℕ
time_of (request key now) = now
time_of (tick now) = now

-- The events come one after the other, none before `from` and none after `to`.
abbrev pub InOrder : ℕ → List Event → ℕ → Type 0
InOrder from [] to = from ≤ to
InOrder from (e ∷ es) to = (from ≤ time_of e) × InOrder (time_of e) es to

abbrev count_if : Bool → ℕ
count_if true = 1
count_if false = 0

-- The requests of one key that the limiter lets through.
unfoldable pub granted : String → RateLimiter → List Event → ℕ
granted k rl [] = 0
granted k rl (request j now ∷ es) =
    count_if (str_eq j k && (allow rl j now).1) + granted k (allow rl j now).0 es
granted k rl (tick now ∷ es) = granted k (collect rl now) es

module _ (burst refill : ℕ) (some_burst : 1 ≤ burst) where
  -- The account of a key: what it was granted since `start` is paid by the burst and the refill.
  abbrev Account : ℕ → ℕ → ℕ → Option Bucket → Type 0
  Account start clock n none = n * token + refill * start ≤ refill * clock
  Account start clock n (some b) =
      (n * token + refill * start + pos_part b.tokens ≤ burst * token + refill * b.last)
      × (neg_part b.tokens ≡ 0)
      × (b.last ≤ clock)

  refilled_bounds :
      (now : ℕ) (b : Bucket)
      → neg_part b.tokens ≡ 0
      → refill * b.last ≤ refill * now
      → (pos_part (refilled burst refill now b) ≤ burst * token)
        × (pos_part (refilled burst refill now b) + refill * b.last
            ≤ pos_part b.tokens + refill * now)
        × (neg_part (refilled burst refill now b) ≡ 0)
  unfolding refilled ◌+ℤ◌ ◌-ℤ◌
  refilled_bounds now b h later = ground arith

  hit-Account :
      (start clock now n : ℕ) (o : Option Bucket)
      → Account start clock n o
      → clock ≤ now
      → Account start now
          (n + count_if (hit burst refill now o).1)
          (some (hit burst refill now o).0)
  unfolding hit ◌-ℤ◌
  hit-Account start clock now n none h later =
      let grows : refill * clock ≤ refill * now = mul-le-mul_left refill later in ground arith
  hit-Account start clock now n (some b) (paid, nonneg, before) later =
      let grows : refill * b.last ≤ refill * now = mul-le-mul_left refill (omega arith) in
      let (capped, gained, above) = refilled_bounds now b nonneg grows in ground arith

  later-Account :
      (start clock now n : ℕ) (o : Option Bucket)
      → Account start clock n o
      → clock ≤ now
      → Account start now n o
  later-Account start clock now n none h later =
      let grows : refill * clock ≤ refill * now = mul-le-mul_left refill later in omega arith
  later-Account start clock now n (some b) (paid, nonneg, before) later =
      (paid, nonneg, omega arith)

  kept-Account :
      (start clock now n : ℕ) (o : Option Bucket)
      → burst * token ≤ refill * idle_limit
      → Account start clock n o
      → clock ≤ now
      → Account start now n (kept now o)
  kept-Account start clock now n none slow h later =
      let grows : refill * clock ≤ refill * now = mul-le-mul_left refill later in omega arith
  kept-Account start clock now n (some b) slow (paid, nonneg, before) later =
      elim (Bool-cases (is_idle now b)) [
        | inl idle ↦
            (let grows : refill * (b.last + idle_limit) ≤ refill * now =
                mul-le-mul_left refill (ground arith) in
              rw idle (omega arith))
        | inr busy ↦ rw busy (paid, nonneg, omega arith)
      ]

  Account-paid :
      (start clock to n : ℕ) (o : Option Bucket)
      → Account start clock n o
      → clock ≤ to
      → n * token + refill * start ≤ burst * token + refill * to
  Account-paid start clock to n none h later =
      let grows : refill * clock ≤ refill * to = mul-le-mul_left refill later in omega arith
  Account-paid start clock to n (some b) (paid, nonneg, before) later =
      let grows : refill * b.last ≤ refill * to = mul-le-mul_left refill (omega arith) in
      omega arith

  abbrev with_buckets : (String → Option Bucket) → RateLimiter
  with_buckets m = record { buckets = m; burst = burst; refill = refill }

  granted_paid :
      (k : String) (m : String → Option Bucket) (es : List Event) (start clock to n : ℕ)
      → burst * token ≤ refill * idle_limit
      → Account start clock n (m k)
      → InOrder clock es to
      → (n + granted k (with_buckets m) es) * token + refill * start ≤ burst * token + refill * to
  unfolding granted allow collect
  granted_paid k m [] start clock to n slow h order =
      omega (arith, Account-paid start clock to n (m k) h order)
  granted_paid k m (tick now ∷ es) start clock to n slow h (later, order) =
      granted_paid k (λ j. kept now (m j)) es start now to n slow
        (kept-Account start clock now n (m k) slow h later) order
  granted_paid k m (request j now ∷ es) start clock to n slow h (later, order) =
      let next = put j (hit burst refill now (m j)).0 m in
      elim (Bool-cases (str_eq j k)) [
        | inl same ↦
            (let name : k ≡ j = sym ((eq_iff j k).0 same) in
              let answered = count_if (hit burst refill now (m j)).1 in
              let after : Account start now (n + answered) (next k) =
                rw same (hit-Account start clock now n (m j) (rw (ap m name) at h) later) in
              let rest = granted_paid k next es start now to (n + answered) slow after order in
              rw same (omega (arith, rest)))
        | inr other ↦
            (let after : Account start now n (next k) =
                rw other (later-Account start clock now n (m k) h later) in
              let rest = granted_paid k next es start now to n slow after order in
              rw other (omega (arith, rest)))
      ]

-- With at least one token of burst, and a refill that fills the bucket in the ten minutes after which
-- the collector drops it: in any run of a new limiter, its events in the order of their times, with other keys and
-- collections in between,
-- a key is granted at most the burst plus the refill of the time that has passed.
pub granted-le :
    (burst refill : ℕ) (k : String) (es : List Event) (from to : ℕ)
    → 1 ≤ burst
    → burst * token ≤ refill * idle_limit
    → InOrder from es to
    → granted k (new_rate_limiter burst refill) es * token + refill * from
      ≤ burst * token + refill * to
unfolding new_rate_limiter
granted-le burst refill k es from to some_burst slow order = omega (
  arith,
  granted_paid burst refill some_burst k (λ _. none) es from from to 0 slow (omega arith) order,
)
