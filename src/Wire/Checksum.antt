-- ===== src/Wire/Checksum.antt =====
-- server/framework/transport/include/transport_checksum.hpp: `crc32`; rpc/src/rpc_framing.cpp:
-- `rpcCrc32` is the same loop. A register is a number below 2 ^ 32.
use audio_studio.Prelude.{
  ℕ, zero, suc, ◌-◌, ◌/◌, ◌^◌, ◌<◌, ◌≡◌, refl, List, [], ◌∷◌, bit_and, bit_xor, arith,
}
use audio_studio.Wire.Bytes.{u32}

-- One bit: `mask = 0u - (crc & 1u); crc = (crc >> 1) ^ (0xedb88320u & mask)`
unfoldable pub crc_bit : ℕ → ℕ
crc_bit crc = let mask = u32 (2 ^ 32 - bit_and crc 1) in bit_xor (crc / 2) (bit_and 0xedb88320 mask)

unfoldable pub crc_bits : ℕ → ℕ → ℕ
unfolding crc_bit
crc_bits zero crc = crc
crc_bits (suc n) crc = crc_bits n (crc_bit crc)

unfoldable pub crc_loop : ℕ → List ℕ → ℕ
unfolding crc_bits
crc_loop crc [] = crc
crc_loop crc (b ∷ xs) = crc_loop (crc_bits 8 (bit_xor crc b)) xs

unfoldable pub crc32 : List ℕ → ℕ
unfolding crc_loop
crc32 xs = u32 (bit_xor (crc_loop 0xffffffff xs) 0xffffffff)

-- `~crc` of 32 bits
unfoldable pub rpc_crc32 : List ℕ → ℕ
unfolding crc_loop
rpc_crc32 xs = u32 (2 ^ 32 - 1 - crc_loop 0xffffffff xs)

pub crc32-lt : (xs : List ℕ) → crc32 xs < 2 ^ 32
unfolding crc32
crc32-lt xs = omega arith

pub rpc_crc32-lt : (xs : List ℕ) → rpc_crc32 xs < 2 ^ 32
unfolding rpc_crc32
rpc_crc32-lt xs = omega arith

-- The check value of CRC-32 over "123456789".
check_value : crc32 (0x31 ∷ 0x32 ∷ 0x33 ∷ 0x34 ∷ 0x35 ∷ 0x36 ∷ 0x37 ∷ 0x38 ∷ 0x39 ∷ []) ≡ 0xcbf43926
unfolding crc32
check_value = refl

rpc_check_value :
    rpc_crc32 (0x31 ∷ 0x32 ∷ 0x33 ∷ 0x34 ∷ 0x35 ∷ 0x36 ∷ 0x37 ∷ 0x38 ∷ 0x39 ∷ []) ≡ 0xcbf43926
unfolding rpc_crc32
rpc_check_value = refl
