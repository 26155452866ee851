-- ===== src/Prelude/Words.antt =====
-- Go's int64 as its bit pattern, a natural number below 2^64, with the arithmetic that wraps.
use Prim.Native.Nat.{ℕ, ◌+◌, ◌%◌, ◌<◌}
use mathlib.Core.Path.{◌≡◌}
use mathlib.Core.Bool.{Bool, ◌&&◌}
use native.Mathlib.Omega.{arith}
use package.nexcore_x_ui.Prelude.Tests.{ltb, leb}

-- 2^64 and 2^63.
abbrev pub word_mod : ℕ
word_mod = 18446744073709551616

abbrev pub half_mod : ℕ
half_mod = 9223372036854775808

abbrev pub IsWord : ℕ → Type 0
IsWord n = n < word_mod

-- `a + b` on int64.
abbrev pub add64 : ℕ → ℕ → ℕ
add64 a b = (a + b) % word_mod

-- The signed value of a bit pattern, plus 2^63: it orders the patterns as the integers they stand for.
abbrev pub bias : ℕ → ℕ
bias a = (a + half_mod) % word_mod

-- `0 < a`, as a signed test.
abbrev pub is_pos64 : ℕ → Bool
is_pos64 a = ltb 0 a && ltb a half_mod

-- `a <= b`, as a signed test.
abbrev pub leb64 : ℕ → ℕ → Bool
leb64 a b = leb (bias a) (bias b)

-- `c <= a + b` over the integers that the patterns stand for, as SQL computes it: a sum that leaves
-- int64 is not wrapped.
abbrev pub sum_reaches : ℕ → ℕ → ℕ → Bool
sum_reaches a b c = leb (bias c + half_mod) (bias a + bias b)

-- A chain of wrapping additions wraps once.
pub add64_assoc : (a b c : ℕ) → add64 (add64 a b) c ≡ add64 a (b + c)
add64_assoc a b c = omega arith

pub add64_absorb : (a b : ℕ) → add64 a (b % word_mod) ≡ add64 a b
add64_absorb a b = omega arith
