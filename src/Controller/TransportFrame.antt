-- ===== src/Controller/TransportFrame.antt =====
-- audio_controller/src/ac_transport.c: the transport frame as the device writes and reads it. A
-- return of 0 with what was written through the pointers is `some`, -1 is `none`.
pub mod Equivalence
use audio_studio.Prelude.{
  ℕ, ◌+◌, ◌-◌, Bool, not, ◌&&◌, ◌||◌, Option, none, some, List, [], ◌∷◌, ◌++◌, length, get_or, set,
  take, drop, replicate, ltb, ◌==◌, if◌then◌else◌,
}
use audio_studio.Wire.Bytes.{u32, read_u16, read_u32}
use audio_studio.Controller.Bytes.{write_le16, write_le32, ac_crc32}
use audio_studio.Controller.LinkFrame.{max_packet_size}

abbrev pub header_size : ℕ
header_size = 36

abbrev pub max_payload : ℕ
max_payload = max_packet_size - header_size

abbrev pub flag_request : ℕ
flag_request = 1

abbrev pub flag_response : ℕ
flag_response = 2

abbrev pub flag_ack : ℕ
flag_ack = 4

abbrev pub flag_error : ℕ
flag_error = 0x80

-- The payload's size is its length.
pub record Frame : Type 0 where
  pub version : ℕ
  pub channel_id : ℕ
  pub command_id : ℕ
  pub flags : ℕ
  pub sequence_id : ℕ
  pub session_id : ℕ
  pub payload : List ℕ

unfoldable pub is_magic : List ℕ → Bool
is_magic xs =
    get_or xs 0 0 == b'A' && get_or xs 1 0 == b'S' && get_or xs 2 0 == b'T' && get_or xs 3 0 == b'M'

unfoldable pub read_frame : List ℕ → Frame
read_frame xs = record {
  version = read_u16 (drop 4 xs);
  channel_id = read_u16 (drop 8 xs);
  command_id = read_u16 (drop 10 xs);
  flags = read_u32 (drop 12 xs);
  sequence_id = read_u32 (drop 16 xs);
  session_id = read_u32 (drop 20 xs);
  payload = take (read_u32 (drop 24 xs)) (drop header_size xs);
}

unfoldable pub decode : List ℕ → Option Frame
unfolding is_magic read_frame write_le32
decode xs =
    let payload_size = read_u32 (drop 24 xs) in
    let header_copy = take header_size xs in
    if ltb (length xs) header_size
    then none
    else if not (is_magic xs)
    then none
    else if not (read_u16 (drop 6 xs) == header_size)
    then none
    else if not (length xs == header_size + payload_size)
    then none
    else if not (ac_crc32 (write_le32 header_copy 32 0) == read_u32 (drop 32 header_copy))
    then none
    else if not (ac_crc32 (take payload_size (drop header_size xs)) == read_u32 (drop 28 xs))
    then none
    else some (read_frame xs)

unfoldable pub open_header : Frame → ℕ → List ℕ → List ℕ
unfolding write_le16 write_le32
open_header request flags payload =
    let out0 = set (replicate header_size 0) 0 b'A' in
    let out1 = set (set (set out0 1 b'S') 2 b'T') 3 b'M' in
    let out2 = write_le16 out1 4 (if request.version == 0 then 1 else request.version) in
    let out3 = write_le16 out2 6 header_size in
    let out4 = write_le16 out3 8 request.channel_id in
    let out5 = write_le16 out4 10 request.command_id in
    let out6 = write_le32 out5 12 flags in
    let out7 = write_le32 out6 16 request.sequence_id in
    let out8 = write_le32 out7 20 request.session_id in
    let out9 = write_le32 out8 24 (u32 (length payload)) in
    let out10 = write_le32 out9 28 (ac_crc32 payload) in write_le32 out10 32 0

-- The payload is the one that is passed, not the request's.
unfoldable pub encode : ℕ → Frame → ℕ → List ℕ → Option (List ℕ)
unfolding open_header
encode capacity request flags payload =
    let out = open_header request flags payload in
    if ltb max_payload (length payload) || ltb capacity (header_size + length payload)
    then none
    else some (write_le32 out 32 (ac_crc32 out) ++ payload)
