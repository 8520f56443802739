-- ===== src/Transport/Frame.antt =====
-- server/framework/transport/include/transport_frame.hpp and src/frame_codec.cpp: the frame that
-- one request or response of a channel travels in.
pub mod RoundTrip
use audio_studio.Prelude.{ℕ, ◌+◌, not, List, [], ◌++◌, length, take, drop, ltb, ◌==◌}
use audio_studio.Framework.Status.{Result, done, require, invalid_argument, ◌>>=◌, ◌>>◌}
use audio_studio.Wire.Bytes.{
  u16, u32, append_u16, append_u32, read_u16, read_u32, patch_u32, zero_tail,
}
use audio_studio.Wire.Checksum.{crc32}

pub record TransportFrame : Type 0 where
  pub version : ℕ
  pub service_id : ℕ
  pub channel_id : ℕ
  pub command_id : ℕ
  pub flags : ℕ
  pub sequence_id : ℕ
  pub session_id : ℕ
  pub payload : List ℕ

-- A default-initialised frame, `TransportFrame{}`.
abbrev pub empty_frame : TransportFrame
empty_frame = record {
  version = 1;
  service_id = 0;
  channel_id = 0;
  command_id = 0;
  flags = 0;
  sequence_id = 0;
  session_id = 0;
  payload = [];
}

abbrev pub flag_request : ℕ
flag_request = 1

abbrev pub flag_response : ℕ
flag_response = 2

abbrev pub flag_ack : ℕ
flag_ack = 4

abbrev pub flag_ack_required : ℕ
flag_ack_required = 8

abbrev pub magic : ℕ
magic = 0x4d545341

abbrev pub header_size : ℕ
header_size = 36

-- The header before its own checksum is patched in.
pub open_header : TransportFrame → List ℕ
unfolding append_u16 append_u32
open_header frame =
    let out1 = append_u32 [] magic in
    let out2 = append_u16 out1 frame.version in
    let out3 = append_u16 out2 (u16 header_size) in
    let out4 = append_u16 out3 frame.channel_id in
    let out5 = append_u16 out4 frame.command_id in
    let out6 = append_u32 out5 frame.flags in
    let out7 = append_u32 out6 frame.sequence_id in
    let out8 = append_u32 out7 frame.session_id in
    let out9 = append_u32 out8 (u32 (length frame.payload)) in
    let out10 = append_u32 out9 (crc32 frame.payload) in append_u32 out10 0

unfoldable pub encode : TransportFrame → List ℕ
unfolding open_header patch_u32
encode frame = let out = open_header frame in patch_u32 out (crc32 out) ++ frame.payload

unfoldable pub read_fields : List ℕ → TransportFrame
read_fields xs = record {
  version = read_u16 (drop 4 xs);
  service_id = read_u16 (drop 8 xs);
  channel_id = read_u16 (drop 8 xs);
  command_id = read_u16 (drop 10 xs);
  flags = read_u32 (drop 12 xs);
  sequence_id = read_u32 (drop 16 xs);
  session_id = read_u32 (drop 20 xs);
  payload = drop header_size xs;
}

-- A vector's `data()` is never null, so the null test is not a case of a list.
unfoldable pub decode : List ℕ → Result TransportFrame
unfolding read_fields zero_tail
decode xs = do
  require (not (ltb (length xs) header_size)) (invalid_argument "transport frame is too small")
  require (read_u32 xs == magic) (invalid_argument "transport frame magic mismatch")
  require (read_u16 (drop 6 xs) == header_size)
      (invalid_argument "transport frame header size mismatch")
  let payload_size = read_u32 (drop 24 xs)
  require (length xs == header_size + payload_size)
      (invalid_argument "transport frame size mismatch")
  require (crc32 (zero_tail (take header_size xs)) == read_u32 (drop 32 xs))
      (invalid_argument "transport frame header crc mismatch")
  require (crc32 (take payload_size (drop header_size xs)) == read_u32 (drop 28 xs))
      (invalid_argument "transport frame payload crc mismatch")
  done (read_fields xs)
