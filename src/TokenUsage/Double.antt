-- ===== src/TokenUsage/Double.antt =====
-- The arithmetic of doubles that token-usage/domain/token-weights.ts calculates with. A finite
-- nonnegative double is a multiple of the least positive one, 2^-1074, and is written here as that
-- many units; a multiple is a double where it has 53 binary digits and zeros after them. Sums and
-- products that are too large for a double are out of the model's range: there is no Infinity.
use aivirteach_server.Common.{
  ℕ, zero, suc, ◌+◌, ◌-◌, ◌*◌, ◌/◌, ◌%◌, ◌^◌, ◌≤◌, ◌<◌, true, false, ◌&&◌, ◌||◌, arith,
  if◌then◌else◌, ◌==◌, ltb, Bool-cases, inl, inr,
}

-- the number 1
unfoldable pub one : ℕ
one = 2 ^ 1074

-- 2^53
abbrev significands : ℕ
significands = 9_007_199_254_740_992

-- The weight of the last of the 53 digits of `x`: halving brings `x` below 2^53. Fuel `x` is enough.
unfoldable pub last_digit : ℕ → ℕ → ℕ
last_digit zero x = 1
last_digit (suc n) x = elim (ltb x significands) [ true ↦ 1 | false ↦ 2 * last_digit n (x / 2) ]

abbrev round_to : ℕ → ℕ → ℕ
round_to p x =
    let q = x / p in
    let r = x % p in if ltb (2 * r) p || (2 * r == p && q % 2 == 0) then q * p else suc q * p

-- the double nearest to `x` units, and of two the one whose last digit is even
unfoldable pub nearest : ℕ → ℕ
unfolding last_digit
nearest x = round_to (last_digit x x) x

-- `Math.ceil`, as a whole number
unfoldable pub ceil : ℕ → ℕ
unfolding one
ceil x = (x + one - 1) / one

-- The fuel is enough: 53 digits are left.
pub last_digit-covers : (n x : ℕ) → x ≤ n → x < last_digit n x * significands
unfolding last_digit
last_digit-covers zero x h = omega arith
last_digit-covers (suc n) x h = elim (Bool-cases (ltb x significands)) [
  | inl t ↦ rw (last_digit, t) (ground (arith, t))
  | inr t ↦
      let rest = last_digit-covers n (x / 2) (ground (arith, t)) in
      rw (last_digit, t) (omega (arith, rest))
]
