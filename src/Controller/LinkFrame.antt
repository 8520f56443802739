-- ===== src/Controller/LinkFrame.antt =====
-- audio_controller/src/ac_datalink.c: the frame as the device writes and reads it. A return of 0 with
-- what was written through the pointers is `some`, -1 is `none`.
pub mod Equivalence
use audio_studio.Prelude.{
  ℕ, ◌+◌, ◌-◌, Bool, true, false, not, ◌&&◌, ◌||◌, Option, none, some, List, [], ◌∷◌, ◌++◌, length,
  get_or, set, take, drop, replicate, ltb, ◌==◌, if◌then◌else◌,
}
use audio_studio.Wire.Bytes.{u32, read_u16, read_u32}
use audio_studio.Controller.Bytes.{write_le16, write_le32, ac_crc32}

abbrev pub header_size : ℕ
header_size = 36

abbrev pub max_frame_size : ℕ
max_frame_size = 1024

abbrev pub max_packet_size : ℕ
max_packet_size = 4096

pub record FrameView : Type 0 where
  pub flags : ℕ
  pub link_sequence : ℕ
  pub transport_size : ℕ
  pub fragment_offset : ℕ
  pub payload_size : ℕ
  pub fragment_index : ℕ
  pub fragment_count : ℕ
  pub payload : List ℕ

unfoldable pub is_magic : List ℕ → Bool
is_magic xs =
    get_or xs 0 0 == b'A' && get_or xs 1 0 == b'S' && get_or xs 2 0 == b'D' && get_or xs 3 0 == b'L'

-- 0 where no header stands at the front.
unfoldable pub frame_size : List ℕ → ℕ → ℕ
unfolding is_magic
frame_size xs size =
    if ltb size header_size
    then 0
    else if not (is_magic xs)
    then 0
    else if not (get_or xs 5 0 == header_size)
    then 0
    else header_size + read_u32 (drop 20 xs)

read_view : List ℕ → FrameView
read_view frame = record {
  flags = read_u16 (drop 6 frame);
  link_sequence = read_u32 (drop 8 frame);
  transport_size = read_u32 (drop 12 frame);
  fragment_offset = read_u32 (drop 16 frame);
  payload_size = read_u32 (drop 20 frame);
  fragment_index = read_u16 (drop 24 frame);
  fragment_count = read_u16 (drop 26 frame);
  payload = drop header_size frame;
}

-- The list is the frame, so `frame_size` is its length.
unfoldable pub decode_frame : List ℕ → Option FrameView
unfolding frame_size read_view write_le32
decode_frame frame =
    let header_copy = take header_size frame in
    if ltb (length frame) header_size
    then none
    else if not (is_magic frame) || not (get_or frame 5 0 == header_size)
    then none
    else if not (length frame == frame_size frame (length frame))
    then none
    else if not (ac_crc32 (write_le32 header_copy 32 0) == read_u32 (drop 32 header_copy))
    then none
    else if not (ac_crc32 (drop header_size frame) == read_u32 (drop 28 frame))
    then none
    else some (read_view frame)

unfoldable pub effective_mtu : ℕ → ℕ
effective_mtu mtu =
    let given = if mtu == 0 then 256 else mtu in
    if ltb max_frame_size given then max_frame_size else given

unfoldable pub fragment_timeout : ℕ → ℕ
fragment_timeout timeout_ms = if ltb timeout_ms 1000 then 1000 else timeout_ms

-- The header before its own checksum is written: `memset`, then the fields at their offsets.
unfoldable pub open_header : ℕ → ℕ → ℕ → ℕ → ℕ → ℕ → List ℕ → List ℕ
unfolding write_le16 write_le32
open_header flags link_sequence transport_size fragment_offset fragment_index fragment_count
      payload =
    let out0 = set (replicate header_size 0) 0 b'A' in
    let out1 = set (set (set out0 1 b'S') 2 b'D') 3 b'L' in
    let out2 = set (set out1 4 1) 5 header_size in
    let out3 = write_le16 out2 6 flags in
    let out4 = write_le32 out3 8 link_sequence in
    let out5 = write_le32 out4 12 transport_size in
    let out6 = write_le32 out5 16 fragment_offset in
    let out7 = write_le32 out6 20 (u32 (length payload)) in
    let out8 = write_le16 out7 24 fragment_index in
    let out9 = write_le16 out8 26 fragment_count in
    let out10 = write_le32 out9 28 (ac_crc32 payload) in write_le32 out10 32 0

unfoldable pub encode_frame : ℕ → ℕ → ℕ → ℕ → ℕ → ℕ → ℕ → List ℕ → Option (List ℕ)
unfolding open_header
encode_frame capacity flags link_sequence transport_size fragment_offset fragment_index
      fragment_count payload =
    let out =
      open_header flags link_sequence transport_size fragment_offset fragment_index fragment_count
        payload in
    if ltb capacity (header_size + length payload)
    then none
    else some (write_le32 out 32 (ac_crc32 out) ++ payload)
