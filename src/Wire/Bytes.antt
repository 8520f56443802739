-- ===== src/Wire/Bytes.antt =====
-- The byte helpers that each codec file repeats (frame_codec.cpp, datalink_frame.cpp and
-- rpc_framing.cpp): `appendU16`, `appendU32`, `readU16`, `readU32`. A byte vector is a list of
-- numbers, a pointer `data + n` is `drop n data`.
use audio_studio.Prelude.{
  zero, suc, ℕ, ◌+◌, ◌*◌, ◌/◌, ◌%◌, ◌^◌, ◌<◌, ◌≡◌, refl, List, [], ◌∷◌, ◌++◌, bit_and, bit_or,
  get_or, length, set, ◌-◌, arith, Bool, true, ltb, ◌&&◌,
}
use audio_studio.Prelude.Bits.{bit_or_shifted, bit_and_low_byte}

abbrev pub u8 : ℕ → ℕ
u8 n = n % 2 ^ 8

abbrev pub u16 : ℕ → ℕ
u16 n = n % 2 ^ 16

abbrev pub u32 : ℕ → ℕ
u32 n = n % 2 ^ 32

abbrev pub IsByte : ℕ → Type 0
IsByte b = b < 2 ^ 8

-- `static_cast<uint8_t>((value >> shift) & 0xff)`
unfoldable pub byte : ℕ → ℕ → ℕ
byte value shift = u8 (bit_and (value / 2 ^ shift) 0xff)

unfoldable pub append_u16 : List ℕ → ℕ → List ℕ
append_u16 out value = out ++ byte value 0 ∷ byte value 8 ∷ []

unfoldable pub append_u32 : List ℕ → ℕ → List ℕ
append_u32 out value = out ++ byte value 0 ∷ byte value 8 ∷ byte value 16 ∷ byte value 24 ∷ []

unfoldable pub read_u16 : List ℕ → ℕ
read_u16 xs = u16 (bit_or (get_or xs 0 0) (get_or xs 1 0 * 2 ^ 8))

unfoldable pub read_u32 : List ℕ → ℕ
read_u32 xs = u32 (
    bit_or (bit_or (bit_or (get_or xs 0 0) (get_or xs 1 0 * 2 ^ 8)) (get_or xs 2 0 * 2 ^ 16))
      (get_or xs 3 0 * 2 ^ 24))

pub read_u32-lt : (xs : List ℕ) → read_u32 xs < 2 ^ 32
unfolding read_u32
read_u32-lt xs = omega arith

-- The last four bytes of `out` overwritten by `value`.
unfoldable pub patch_u32 : List ℕ → ℕ → List ℕ
patch_u32 out value =
    let n = length out in
    set (set (set (set out (n - 4) (byte value 0)) (n - 3) (byte value 8)) (n - 2) (byte value 16))
      (n - 1) (byte value 24)

-- `std::fill(header.end() - 4, header.end(), 0)`
unfoldable pub zero_tail : List ℕ → List ℕ
zero_tail header =
    let n = length header in set (set (set (set header (n - 4) 0) (n - 3) 0) (n - 2) 0) (n - 1) 0

byte_lem : (v k : ℕ) → byte v k ≡ v / 2 ^ k % 256
unfolding byte
byte_lem v k = omega (arith, bit_and_low_byte (v / 2 ^ k))

pub byte-IsByte : (v k : ℕ) → IsByte (byte v k)
unfolding byte
byte-IsByte v k = omega arith

join_u16 : (a b : ℕ) → IsByte a → bit_or a (b * 2 ^ 8) ≡ a + b * 256
join_u16 a b h = bit_or_shifted 8 a b h

join_u32 :
    (a b c d : ℕ)
    → IsByte a
    → IsByte b
    → IsByte c
    → bit_or (bit_or (bit_or a (b * 2 ^ 8)) (c * 2 ^ 16)) (d * 2 ^ 24)
      ≡ a + b * 256 + c * 65536 + d * 16777216
join_u32 a b c d ha hb hc = rw (bit_or_shifted 8 a b ha) (
    rw (bit_or_shifted 16 (a + b * 2 ^ 8) c (omega arith))
      (bit_or_shifted 24 (a + b * 2 ^ 8 + c * 2 ^ 16) d (omega arith)))

-- A 32-bit value by its digits.
pub read_u32_digits :
    (xs : List ℕ)
    → IsByte (get_or xs 0 0)
    → IsByte (get_or xs 1 0)
    → IsByte (get_or xs 2 0)
    → IsByte (get_or xs 3 0)
    → read_u32 xs
      ≡ get_or xs 0 0 + get_or xs 1 0 * 256 + get_or xs 2 0 * 65536 + get_or xs 3 0 * 16777216
unfolding read_u32
read_u32_digits xs h0 h1 h2 h3 =
    omega (arith, join_u32 (get_or xs 0 0) (get_or xs 1 0) (get_or xs 2 0) (get_or xs 3 0) h0 h1 h2)

-- A buffer of bytes.
unfoldable pub are_bytes : List ℕ → Bool
are_bytes [] = true
are_bytes (b ∷ xs) = ltb b 256 && are_bytes xs

pub get_or-IsByte : (xs : List ℕ) (i : ℕ) → are_bytes xs ≡ true → IsByte (get_or xs i 0)
unfolding are_bytes
get_or-IsByte [] i h = omega arith
get_or-IsByte (b ∷ xs) zero h = ground arith
get_or-IsByte (b ∷ xs) (suc i) h = get_or-IsByte xs i (ground arith)

-- A 16-bit value read back from its two bytes.
pub read_u16-bytes :
    (v : ℕ) (rest : List ℕ) → v < 2 ^ 16 → read_u16 (byte v 0 ∷ byte v 8 ∷ rest) ≡ v
unfolding read_u16
read_u16-bytes v rest h =
    omega (arith, join_u16 (byte v 0) (byte v 8) (byte-IsByte v 0), byte_lem v 0, byte_lem v 8)

-- A 32-bit value read back from its four bytes.
pub read_u32-bytes :
    (v : ℕ) (rest : List ℕ)
    → v < 2 ^ 32
    → read_u32 (byte v 0 ∷ byte v 8 ∷ byte v 16 ∷ byte v 24 ∷ rest) ≡ v
unfolding read_u32
read_u32-bytes v rest h = omega (
  arith,
  join_u32 (byte v 0) (byte v 8) (byte v 16) (byte v 24) (byte-IsByte v 0) (byte-IsByte v 8)
      (byte-IsByte v 16),
  byte_lem v 0,
  byte_lem v 8,
  byte_lem v 16,
  byte_lem v 24,
)

-- The bytes of 0.
pub zero_byte_0 : byte 0 0 ≡ 0
unfolding byte
zero_byte_0 = refl

pub zero_byte_8 : byte 0 8 ≡ 0
unfolding byte
zero_byte_8 = refl

pub zero_byte_16 : byte 0 16 ≡ 0
unfolding byte
zero_byte_16 = refl

pub zero_byte_24 : byte 0 24 ≡ 0
unfolding byte
zero_byte_24 = refl

pub ruleset zero_bytes = (zero_byte_0, zero_byte_8, zero_byte_16, zero_byte_24)
