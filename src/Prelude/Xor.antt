-- ===== src/Prelude/Xor.antt =====
-- The exclusive or: with 0, and with a mask of ones, which is the complement.
use Prim.Native.Nat.{bit_xor-bitwise, differ}
use mathlib.Core.Path.{◌≡◌, refl}
use native.Mathlib.Nat.{pow-suc, div-add-mod', mod-lt, mul-add-mod_self_right, mod-eq_of_lt}
use native.Mathlib.Omega.{arith}
use Prim.Native.Nat.{ℕ, zero, suc, ◌+◌, ◌-◌, ◌*◌, ◌/◌, ◌%◌, ◌^◌, ◌≤◌, ◌<◌, bit_xor}
use audio_studio.Prelude.Bits.{first_digit}

zero-bit_xor : (b : ℕ) → bit_xor 0 b ≡ b
zero-bit_xor b = bit_xor-bitwise 0 b

bit_xor_digit : (a b : ℕ) → bit_xor a b ≡ bit_xor (a / 2) (b / 2) * 2 + differ (a % 2) (b % 2)
bit_xor_digit zero b = ground (arith, zero-bit_xor b, zero-bit_xor (b / 2))
bit_xor_digit (suc a) b = simp bit_xor-bitwise (first_digit (λ y. y) differ a b)

differ-zero : (x : ℕ) → differ x 0 ≡ x
differ-zero zero = refl
differ-zero (suc x) = refl

differ-one : (x : ℕ) → x < 2 → differ x 1 ≡ 1 - x
differ-one zero h = refl
differ-one (suc zero) h = refl
differ-one (suc (suc x)) h = absurd (omega arith)

bit_xor-zero_below : (n a : ℕ) → a ≤ n → bit_xor a 0 ≡ a
bit_xor-zero_below n zero h = zero-bit_xor 0
bit_xor-zero_below zero (suc a) h = absurd (omega arith)
bit_xor-zero_below (suc n) (suc a) h = omega (
  arith,
  differ-zero (suc a % 2),
  bit_xor_digit (suc a) 0,
  bit_xor-zero_below n (suc a / 2) (omega arith),
)

pub bit_xor-zero : (a : ℕ) → bit_xor a 0 ≡ a
bit_xor-zero a = bit_xor-zero_below a a (omega arith)

double-mod : (x d p : ℕ) → d < 2 → 0 < p → (x * 2 + d) % (p * 2) ≡ x % p * 2 + d
double-mod x d p hd hp =
    let split = div-add-mod' x p in
    let small : x % p < p = mod-lt x hp in
    let e : x * 2 + d ≡ x / p * (p * 2) + (x % p * 2 + d) = omega arith in
    rw (e, mul-add-mod_self_right (x / p) (p * 2) (x % p * 2 + d)) (mod-eq_of_lt (omega arith))

pow-pos : (k : ℕ) → 0 < 2 ^ k
pow-pos zero = omega arith
pow-pos (suc k) = omega (arith, pow-suc 2 k, pow-pos k)

-- The low `k` bits of `a ^ (2 ^ k - 1)` are the complement of those of `a`.
pub bit_xor_ones : (k a : ℕ) → bit_xor a (2 ^ k - 1) % 2 ^ k ≡ 2 ^ k - 1 - a % 2 ^ k
bit_xor_ones zero a = omega arith
bit_xor_ones (suc k) a =
    let p : ℕ = 2 ^ k in
    let pos : 0 < p = pow-pos k in
    let e : 2 ^ suc k ≡ p * 2 = pow-suc 2 k in
    let half : (p * 2 - 1) / 2 ≡ p - 1 = omega arith in
    let odd : (p * 2 - 1) % 2 ≡ 1 = omega arith in
    let low = bit_xor_ones k (a / 2) in
    let flip = differ-one (a % 2) (omega arith) in
    let d : differ (a % 2) 1 < 2 = omega (arith, flip) in
    let whole = double-mod (a / 2) (a % 2) p (omega arith) pos in
    let same : a / 2 * 2 + a % 2 ≡ a = omega arith in
    rw
      (
        e,
        bit_xor_digit a (p * 2 - 1),
        half,
        odd,
        double-mod (bit_xor (a / 2) (p - 1)) (differ (a % 2) 1) p d pos,
        low,
        flip,
      )
      (omega (arith, rw same at whole))
