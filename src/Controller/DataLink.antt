-- ===== src/Controller/DataLink.antt =====
-- audio_controller/src/ac_datalink.h and ac_datalink.c: the device's end of the data link. `rx_stream`
-- is the whole array, of which the first `rx_stream_size` bytes count. The device's table of calls
-- (`audio_controller_datalink_device_ops_t`) is complete and not null; a call may fail with any code.
pub mod Send
pub mod Receive
pub mod Sending
pub mod Reading
use audio_studio.Prelude.{
  ℕ, zero, suc, ◌+◌, ◌-◌, Bool, true, false, not, ◌&&◌, Option, none, some, List, [], ◌++◌, length,
  take, drop, replicate, ltb, leb, ◌==◌, if◌then◌else◌,
}
use audio_studio.Audio.Stream.{ℤ, pos, negsuc}
use audio_studio.Wire.Bytes.{u32}
use audio_studio.Controller.LinkFrame.{
  FrameView, header_size, max_frame_size, is_magic, frame_size, decode_frame, encode_frame,
  effective_mtu,
}
use audio_studio.Controller.Call.{
  Outcome, ok, returns, overrun, out_of_fuel, Call, pure, gets, lift, update, guard, ◌>>=◌, ◌>>◌,
}

pub record DeviceOps : Type 1 where
  pub State : Type 0
  pub open_device : State → ℤ × State
  pub close : State → State
  pub mtu : State → ℕ
  pub write : State → List ℕ → ℕ → ℤ × State
  -- The code, and the bytes that were put into the buffer (`actual_size` of them).
  pub read : State → ℕ → ℕ → ℤ × List ℕ × State

pub record DataLink (D : DeviceOps) : Type 0 where
  pub device : D.State
  pub is_open : Bool
  pub mtu : ℕ
  pub rx_stream : List ℕ
  pub rx_stream_size : ℕ
  pub next_link_sequence : ℕ
  pub tx_packets : ℕ
  pub rx_packets : ℕ
  pub retries : ℕ

abbrev pub rx_stream_capacity : ℕ
rx_stream_capacity = 2048

abbrev pub is_zero : ℤ → Bool
is_zero (pos zero) = true
is_zero (pos (suc n)) = false
is_zero (negsuc n) = false

-- `memmove(rx_stream, rx_stream + n, size - n)`: the bytes behind stay where they were.
unfoldable pub shift : ℕ → List ℕ → ℕ → List ℕ
shift n stream size = take (size - n) (drop n stream) ++ drop (size - n) stream

-- The loop that drops bytes until a frame's tag stands at the front.
unfoldable pub resync : ℕ → List ℕ → List ℕ × ℕ
unfolding shift
resync zero stream = (stream, 0)
resync (suc n) stream =
    let dropped = resync n (shift 1 stream (suc n)) in
    if is_magic stream then (stream, suc n) else dropped

-- `memcpy(rx_stream + size, bytes, n)`
abbrev pub append_at : List ℕ → ℕ → List ℕ → List ℕ
append_at stream size bytes = take size stream ++ (bytes ++ drop (size + length bytes) stream)

module _ (D : DeviceOps) where
  abbrev pub Run {ℓ} : Type ℓ → Type ℓ
  Run A = Call (DataLink D) A

  abbrev pub fresh : D.State → DataLink D
  fresh device = record {
    device = device;
    is_open = false;
    mtu = 0;
    rx_stream = replicate rx_stream_capacity 0;
    rx_stream_size = 0;
    next_link_sequence = 1;
    tx_packets = 0;
    rx_packets = 0;
    retries = 0;
  }

  unfoldable pub init : D.State → Outcome (Unit {0}) × DataLink D
  init device =
      let asked = D.mtu device in
      let mtu = if asked == 0 then 256 else asked in
      let (code, device') = D.open_device device in
      if is_zero code
      then (ok tt, record (fresh device') { mtu = mtu; is_open = true })
      else (returns (negsuc 0), record (fresh device') { mtu = mtu })

  unfoldable pub deinit : DataLink D → DataLink D
  deinit s =
      let closed = if s.is_open then D.close s.device else s.device in
      record s { device = closed; is_open = false }

  unfoldable pub write : List ℕ → ℕ → Run (Unit {0})
  write block timeout_ms s =
      let (code, device) = D.write s.device block timeout_ms in
      let s' = record s { device = device } in
      if is_zero code then (ok tt, s') else (returns code, s')

  -- The end of a round: bytes are asked for; a read of none returns 1.
  unfoldable pub fill : ℕ → ℕ → Run (Option FrameView)
  fill capacity timeout_ms s =
      let (code, bytes, device) = D.read s.device capacity timeout_ms in
      let s' = record s { device = device } in
      if ltb rx_stream_capacity (s.rx_stream_size + capacity)
      then (returns (negsuc 0), s)
      else if ltb capacity (length bytes)
      then (overrun, s')
      else if not (is_zero code)
      then (returns code, s')
      else if length bytes == 0
      then (returns (pos 1), s')
      else (
        ok none,
        record s' {
          rx_stream = append_at s.rx_stream s.rx_stream_size bytes;
          rx_stream_size = s.rx_stream_size + length bytes;
        },
      )

  -- A whole frame is at the front. `frame_copy` of the callers has room for 1024 bytes.
  unfoldable pub take_frame : ℕ → Run (Option FrameView)
  unfolding shift
  take_frame complete_size s =
      let n = s.rx_stream_size in
      elim (decode_frame (take complete_size s.rx_stream)) [
        | none ↦ (ok none, record s { rx_stream = shift 1 s.rx_stream n; rx_stream_size = n - 1 })
        | some view ↦
            (if ltb max_frame_size complete_size then (overrun, s) else (
              ok (some view),
              record s {
                rx_stream = shift complete_size s.rx_stream n;
                rx_stream_size = n - complete_size;
              },
            ))
      ]

  -- One round of the loop of `ac_datalink_read_frame`: `some` is returned, `none` goes round again.
  unfoldable pub round : ℕ → ℕ → Run (Option FrameView)
  unfolding resync fill take_frame
  round capacity timeout_ms s0 =
      let (stream, size) = resync s0.rx_stream_size s0.rx_stream in
      let s : DataLink D = record s0 { rx_stream = stream; rx_stream_size = size } in
      let complete_size = frame_size stream size in
      if ltb rx_stream_capacity complete_size
      then (returns (negsuc 0), s)
      else if ltb 0 complete_size && leb complete_size size
      then take_frame complete_size s
      else fill capacity timeout_ms s

  unfoldable pub rounds : ℕ → ℕ → ℕ → Run FrameView
  rounds zero capacity timeout_ms s = (out_of_fuel, s)
  rounds (suc fuel) capacity timeout_ms s =
      let (r, s') = round capacity timeout_ms s in
      elim r [
        | ok found ↦ elim found [
          | none ↦ rounds fuel capacity timeout_ms s'
          | some view ↦ (ok view, s')
        ]
        | returns code ↦ (returns code, s')
        | overrun ↦ (overrun, s')
        | out_of_fuel ↦ (out_of_fuel, s')
      ]

  unfoldable pub read_frame : ℕ → ℕ → Run FrameView
  unfolding rounds
  read_frame fuel timeout_ms = do
    capacity ← gets λ s. effective_mtu s.mtu
    rounds fuel capacity timeout_ms

  unfoldable pub send_ack : FrameView → Bool → ℕ → Run (Unit {0})
  unfolding write
  send_ack frame good timeout_ms =
      elim (encode_frame header_size (if good then 2 else 4) frame.link_sequence
        frame.transport_size frame.fragment_offset frame.fragment_index frame.fragment_count []) [
          | none ↦ guard false
          | some ack ↦ write ack timeout_ms
        ]
