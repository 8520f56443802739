-- ===== src/Transport/DataLinkFrame.antt =====
-- server/framework/transport/include/datalink_frame.hpp and src/datalink_frame.cpp: the frame that
-- one fragment of a packet, or its acknowledgement, travels in.
pub mod RoundTrip
pub mod Buffered
use audio_studio.Prelude.{
  ℕ, ◌+◌, ◌-◌, Bool, not, List, [], ◌∷◌, ◌++◌, bit_and, length, get_or, set, take, drop, ltb, ◌==◌,
}
use audio_studio.Framework.Status.{
  Result, done, require, invalid_argument, unavailable, ◌>>=◌, ◌>>◌,
}
use audio_studio.Wire.Bytes.{
  u8, u32, append_u16, append_u32, read_u16, read_u32, patch_u32, zero_tail,
}
use audio_studio.Wire.Checksum.{crc32}

pub record DataLinkFrame : Type 0 where
  pub version : ℕ
  pub flags : ℕ
  pub link_sequence : ℕ
  pub transport_size : ℕ
  pub fragment_offset : ℕ
  pub fragment_index : ℕ
  pub fragment_count : ℕ
  pub payload : List ℕ

abbrev pub flag_data : ℕ
flag_data = 1

abbrev pub flag_ack : ℕ
flag_ack = 2

abbrev pub flag_nak : ℕ
flag_nak = 4

abbrev pub flag_end : ℕ
flag_end = 8

abbrev pub magic : ℕ
magic = 0x4c445341

abbrev pub header_size : ℕ
header_size = 36

-- `(flags & mask) != 0`
abbrev pub has_flag : ℕ → ℕ → Bool
has_flag flags mask = not (bit_and flags mask == 0)

append_u8 : List ℕ → ℕ → List ℕ
append_u8 out value = out ++ u8 value ∷ []

open_header : DataLinkFrame → List ℕ
unfolding append_u8 append_u16 append_u32
open_header frame =
    let out1 = append_u32 [] magic in
    let out2 = append_u8 out1 frame.version in
    let out3 = append_u8 out2 (u8 header_size) in
    let out4 = append_u16 out3 frame.flags in
    let out5 = append_u32 out4 frame.link_sequence in
    let out6 = append_u32 out5 frame.transport_size in
    let out7 = append_u32 out6 frame.fragment_offset in
    let out8 = append_u32 out7 (u32 (length frame.payload)) in
    let out9 = append_u16 out8 frame.fragment_index in
    let out10 = append_u16 out9 frame.fragment_count in
    let out11 = append_u32 out10 (crc32 frame.payload) in append_u32 out11 0

unfoldable pub encode : DataLinkFrame → List ℕ
unfolding open_header patch_u32
encode frame = let out = open_header frame in patch_u32 out (crc32 out) ++ frame.payload

unfoldable pub read_fields : List ℕ → DataLinkFrame
read_fields xs = record {
  version = get_or xs 4 0;
  flags = read_u16 (drop 6 xs);
  link_sequence = read_u32 (drop 8 xs);
  transport_size = read_u32 (drop 12 xs);
  fragment_offset = read_u32 (drop 16 xs);
  fragment_index = read_u16 (drop 24 xs);
  fragment_count = read_u16 (drop 26 xs);
  payload = drop header_size xs;
}

-- A vector's `data()` is null only when it is empty, and then the size test fails first.
unfoldable pub decode : List ℕ → Result DataLinkFrame
unfolding read_fields zero_tail
decode xs = do
  require (not (ltb (length xs) header_size)) (invalid_argument "data-link frame is too small")
  require (read_u32 xs == magic) (invalid_argument "data-link magic mismatch")
  require (get_or xs 5 0 == header_size) (invalid_argument "data-link header size mismatch")
  let payload_size = read_u32 (drop 20 xs)
  require (length xs == header_size + payload_size) (invalid_argument "data-link size mismatch")
  require (crc32 (zero_tail (take header_size xs)) == read_u32 (drop 32 xs))
      (invalid_argument "data-link header crc mismatch")
  require (crc32 (take payload_size (drop header_size xs)) == read_u32 (drop 28 xs))
      (invalid_argument "data-link payload crc mismatch")
  done (read_fields xs)

-- How long the frame at the front of the buffer is; `unavailable` while it is not all there.
unfoldable pub frame_size : List ℕ → Result ℕ
frame_size xs = do
  require (not (ltb (length xs) header_size)) (unavailable "data-link frame header is incomplete")
  require (read_u32 xs == magic) (invalid_argument "data-link magic mismatch")
  require (get_or xs 5 0 == header_size) (invalid_argument "data-link header size mismatch")
  let size = header_size + read_u32 (drop 20 xs)
  require (not (ltb (length xs) size)) (unavailable "data-link frame payload is incomplete")
  done size

unfoldable pub make_ack : DataLinkFrame → DataLinkFrame
make_ack frame = record {
  version = 1;
  flags = flag_ack;
  link_sequence = frame.link_sequence;
  transport_size = frame.transport_size;
  fragment_offset = frame.fragment_offset;
  fragment_index = frame.fragment_index;
  fragment_count = frame.fragment_count;
  payload = [];
}

unfoldable pub make_nak : DataLinkFrame → DataLinkFrame
unfolding make_ack
make_nak frame = record (make_ack frame) { flags = flag_nak }
