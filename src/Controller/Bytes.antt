-- ===== src/Controller/Bytes.antt =====
-- The byte helpers that ac_datalink.c and ac_transport.c repeat, and their CRC-32 in its branching
-- form. `ac_read_le16` and `ac_read_le32` read as `readU16` and `readU32` do.
use audio_studio.Prelude.{
  ℕ, zero, suc, ◌+◌, ◌-◌, ◌/◌, ◌^◌, ◌≡◌, refl, not, List, [], ◌∷◌, bit_and, bit_xor, set, ◌==◌,
  if◌then◌else◌, arith, Bool-cases, inl, inr,
}
use audio_studio.Prelude.Bits.{bit_and_one}
use audio_studio.Prelude.Xor.{bit_xor-zero, bit_xor_ones}
use audio_studio.Wire.Bytes.{u32, byte}
use audio_studio.Wire.Checksum.{crc_bit, crc_bits, crc_loop, crc32}

-- `data` is the buffer from its start, `at` the offset that is written.
unfoldable pub write_le16 : List ℕ → ℕ → ℕ → List ℕ
write_le16 out at value = set (set out at (byte value 0)) (at + 1) (byte value 8)

unfoldable pub write_le32 : List ℕ → ℕ → ℕ → List ℕ
write_le32 out at value =
    set (set (set (set out at (byte value 0)) (at + 1) (byte value 8)) (at + 2) (byte value 16))
      (at + 3) (byte value 24)

ac_crc_bit : ℕ → ℕ
ac_crc_bit crc = if not (bit_and crc 1 == 0) then bit_xor (crc / 2) 0xedb88320 else crc / 2

ac_crc_bits : ℕ → ℕ → ℕ
unfolding ac_crc_bit
ac_crc_bits zero crc = crc
ac_crc_bits (suc n) crc = ac_crc_bits n (ac_crc_bit crc)

ac_crc_loop : ℕ → List ℕ → ℕ
unfolding ac_crc_bits
ac_crc_loop crc [] = crc
ac_crc_loop crc (b ∷ xs) = ac_crc_loop (ac_crc_bits 8 (bit_xor crc b)) xs

-- `~crc` of the 32 bits of the register
unfoldable pub ac_crc32 : List ℕ → ℕ
unfolding ac_crc_loop
ac_crc32 xs = 2 ^ 32 - 1 - u32 (ac_crc_loop 0xffffffff xs)

whole_mask : bit_and 0xedb88320 (u32 (2 ^ 32 - 1)) ≡ 0xedb88320
whole_mask = refl

no_mask : bit_and 0xedb88320 (u32 (2 ^ 32 - 0)) ≡ 0
no_mask = refl

ac_crc_bit_lem : (crc : ℕ) → ac_crc_bit crc ≡ crc_bit crc
unfolding ac_crc_bit crc_bit
ac_crc_bit_lem crc = elim (Bool-cases (bit_and crc 1 == 0)) [
  | inl even ↦
      let e : bit_and crc 1 ≡ 0 = ground arith in rw (e, no_mask, bit_xor-zero (crc / 2)) refl
  | inr odd ↦ let e : bit_and crc 1 ≡ 1 = ground (arith, bit_and_one crc) in rw (e, whole_mask) refl
]

ac_crc_bits_lem : (n crc : ℕ) → ac_crc_bits n crc ≡ crc_bits n crc
unfolding ac_crc_bits crc_bits
ac_crc_bits_lem zero crc = refl
ac_crc_bits_lem (suc n) crc = rw (ac_crc_bit_lem crc) (ac_crc_bits_lem n (crc_bit crc))

ac_crc_loop_lem : (crc : ℕ) (xs : List ℕ) → ac_crc_loop crc xs ≡ crc_loop crc xs
unfolding ac_crc_loop crc_loop
ac_crc_loop_lem crc [] = refl
ac_crc_loop_lem crc (b ∷ xs) =
    rw (ac_crc_bits_lem 8 (bit_xor crc b)) (ac_crc_loop_lem (crc_bits 8 (bit_xor crc b)) xs)

-- The checksum of the controller is that of the server on every list of bytes.
pub ac_crc32-crc32 : (xs : List ℕ) → ac_crc32 xs ≡ crc32 xs
unfolding ac_crc32 crc32
ac_crc32-crc32 xs =
    rw (ac_crc_loop_lem 0xffffffff xs) (omega (arith, bit_xor_ones 32 (crc_loop 0xffffffff xs)))
