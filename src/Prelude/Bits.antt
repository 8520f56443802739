-- ===== src/Prelude/Bits.antt =====
-- `|` of numbers whose bits do not meet is their sum, at every shift; `& 0xff` is the low byte.
use Prim.Native.Nat.{
  ℕ, zero, suc, ◌+◌, ◌-◌, ◌*◌, ◌/◌, ◌%◌, ◌^◌, ◌≤◌, ◌<◌, min, max, bit_and, bit_or,
}
use Prim.Native.Nat.{digits, bit_and-bitwise, bit_or-bitwise}
use mathlib.Core.Path.{◌≡◌, refl, ap}
use native.Mathlib.Nat.{pow-suc, zero-add, suc-add}
use native.Mathlib.Omega.{arith}

-- The recursion on digits with `k` rounds more than the number has need of.
module _ (past : ℕ → ℕ) (digit : ℕ → ℕ → ℕ) where
  spare_rounds :
      (rounds k a b : ℕ)
      → a ≤ rounds
      → digits past digit (rounds + k) a b ≡ digits past digit rounds a b
  spare_rounds zero zero zero b fits = refl
  spare_rounds zero (suc k) zero b fits = rw (zero-add (suc k))
  spare_rounds zero k (suc a) b fits = absurd (omega arith)
  spare_rounds (suc rounds) k zero b fits = rw (suc-add rounds k)
  spare_rounds (suc rounds) k (suc a) b fits =
      rw (suc-add rounds k, spare_rounds rounds k (suc a / 2) (b / 2) (omega arith))

  -- One digit, with just as many rounds as the rest needs.
  pub first_digit :
      (a b : ℕ)
      → digits past digit (suc a) (suc a) b
        ≡ digits past digit (suc a / 2) (suc a / 2) (b / 2) * 2 + digit (suc a % 2) (b % 2)
  first_digit a b =
      let e : a ≡ suc a / 2 + (a - suc a / 2) = omega arith in
      omega (
        arith,
        ap (λ (n : ℕ). digits past digit n (suc a / 2) (b / 2)) e,
        spare_rounds (suc a / 2) (a - suc a / 2) (suc a / 2) (b / 2) (omega arith),
      )

zero-bit_or : (b : ℕ) → bit_or 0 b ≡ b
zero-bit_or b = bit_or-bitwise 0 b

bit_or_digit : (a b : ℕ) → bit_or a b ≡ bit_or (a / 2) (b / 2) * 2 + max (a % 2) (b % 2)
bit_or_digit zero b = omega (arith, zero-bit_or b, zero-bit_or (b / 2))
bit_or_digit (suc a) b = simp bit_or-bitwise (first_digit (λ y. y) max a b)

bit_or_double : (x q : ℕ) → bit_or (x / 2) q ≡ x / 2 + q → bit_or x (q * 2) ≡ x + q * 2
bit_or_double x q h =
    let half : q * 2 / 2 ≡ q = omega arith in rw (bit_or_digit x (q * 2), half, h) (omega arith)

-- `x | (y << k)` with `x` below `2 ^ k`.
pub bit_or_shifted : (k x y : ℕ) → x < 2 ^ k → bit_or x (y * 2 ^ k) ≡ x + y * 2 ^ k
bit_or_shifted zero zero y h = omega (arith, zero-bit_or (y * 1))
bit_or_shifted zero (suc x) y h = absurd (omega arith)
bit_or_shifted (suc k) x y h =
    let e : y * 2 ^ suc k ≡ y * 2 ^ k * 2 = omega (arith, ap (λ (t : ℕ). y * t) (pow-suc 2 k)) in
    rw e (bit_or_double x (y * 2 ^ k) (bit_or_shifted k (x / 2) y (omega (arith, pow-suc 2 k))))

zero-bit_and : (b : ℕ) → bit_and 0 b ≡ 0
zero-bit_and b = bit_and-bitwise 0 b

bit_and_digit : (a b : ℕ) → bit_and a b ≡ bit_and (a / 2) (b / 2) * 2 + min (a % 2) (b % 2)
bit_and_digit zero b = omega (arith, zero-bit_and b, zero-bit_and (b / 2))
bit_and_digit (suc a) b = simp bit_and-bitwise (first_digit (λ y. 0) min a b)

-- One more one at the low end of a mask.
bit_and_mask : (a m : ℕ) → bit_and a (m * 2 + 1) ≡ bit_and (a / 2) m * 2 + a % 2
bit_and_mask a m =
    let half : (m * 2 + 1) / 2 ≡ m = omega arith in
    rw (bit_and_digit a (m * 2 + 1), half) (omega arith)

bit_and-zero_below : (n a : ℕ) → a ≤ n → bit_and a 0 ≡ 0
bit_and-zero_below n zero h = zero-bit_and 0
bit_and-zero_below zero (suc a) h = absurd (omega arith)
bit_and-zero_below (suc n) (suc a) h =
    omega (arith, bit_and_digit (suc a) 0, bit_and-zero_below n (suc a / 2) (omega arith))

bit_and-zero : (a : ℕ) → bit_and a 0 ≡ 0
bit_and-zero a = bit_and-zero_below a a (omega arith)

bit_and_nibble : (a : ℕ) → bit_and a 15 ≡ a % 16
bit_and_nibble a = omega (
  arith,
  bit_and_mask a 7,
  bit_and_mask (a / 2) 3,
  bit_and_mask (a / 2 / 2) 1,
  bit_and_mask (a / 2 / 2 / 2) 0,
  bit_and-zero (a / 2 / 2 / 2 / 2),
)

-- `x & 0xff`
pub bit_and_low_byte : (a : ℕ) → bit_and a 0xff ≡ a % 256
bit_and_low_byte a = omega (
  arith,
  bit_and_mask a 127,
  bit_and_mask (a / 2) 63,
  bit_and_mask (a / 2 / 2) 31,
  bit_and_mask (a / 2 / 2 / 2) 15,
  bit_and_nibble (a / 2 / 2 / 2 / 2),
)

-- `x & 1`
pub bit_and_one : (a : ℕ) → bit_and a 1 ≡ a % 2
bit_and_one a = omega (arith, bit_and_mask a 0, bit_and-zero (a / 2))
