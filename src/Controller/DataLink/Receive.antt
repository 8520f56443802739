-- ===== src/Controller/DataLink/Receive.antt =====
-- ac_datalink.c: `ac_datalink_receive_packet` and `ac_datalink_poll`.
use audio_studio.Prelude.{
  ℕ, zero, suc, ◌+◌, ◌-◌, Bool, true, false, not, ◌&&◌, List, length, replicate, ltb, ◌==◌,
  if◌then◌else◌,
}
use audio_studio.Audio.Stream.{negsuc}
use audio_studio.Wire.Bytes.{u32}
use audio_studio.Transport.DataLinkFrame.{has_flag}
use audio_studio.Controller.LinkFrame.{FrameView, max_packet_size, fragment_timeout}
use audio_studio.Controller.Call.{
  Outcome, ok, returns, overrun, out_of_fuel, pure, gets, lift, update, guard, ◌>>=◌, ◌>>◌,
}
use audio_studio.Controller.DataLink.{DeviceOps, Run, read_frame, send_ack, append_at}
use audio_studio.Controller.DataLink.Send.{flag_data, count_retry}

-- `memcpy(payload + offset, bytes, n)` into a buffer of the list's length.
unfoldable pub copy_to : List ℕ → ℕ → List ℕ → Outcome (List ℕ)
copy_to payload offset bytes =
    if ltb (length payload) (offset + length bytes)
    then overrun
    else ok (append_at payload offset bytes)

-- The sum is one of 32 bits.
unfoldable pub continues : FrameView → ℕ → ℕ → FrameView → Bool
continues first expected capacity frame =
    has_flag frame.flags flag_data
    && frame.link_sequence == first.link_sequence
    && frame.fragment_index == expected
    && frame.transport_size == first.transport_size
    && not (ltb capacity (u32 (frame.fragment_offset + frame.payload_size)))

module _ (D : DeviceOps) where
  -- `do { ... } while ((first.flags & DATA) == 0)`
  unfoldable pub first_data : ℕ → ℕ → ℕ → Run D FrameView
  first_data fuel zero timeout_ms = lift out_of_fuel
  first_data fuel (suc rounds) timeout_ms = do
    first ← read_frame D fuel timeout_ms
    elim (has_flag first.flags flag_data) [
      | true ↦ pure first
      | false ↦ first_data fuel rounds timeout_ms
    ]

  -- What `send_ack` returns is not looked at.
  unfoldable pub refuse : FrameView → ℕ → Run D (List ℕ)
  unfolding send_ack
  refuse frame timeout_ms s =
      let s' = (send_ack D frame false timeout_ms s).1 in (returns (negsuc 0), count_retry D s')

  -- An acknowledgement that could not be sent is -1, whatever the code.
  unfoldable pub acknowledge : FrameView → ℕ → Run D (Unit {0})
  unfolding send_ack
  acknowledge frame timeout_ms s =
      let (r, s') = send_ack D frame true timeout_ms s in
      elim r [
        | returns code ↦ (returns (negsuc 0), s')
        | ok u ↦ (ok tt, s')
        | overrun ↦ (overrun, s')
        | out_of_fuel ↦ (out_of_fuel, s')
      ]

  unfoldable pub receive_rest : ℕ → ℕ → ℕ → FrameView → ℕ → ℕ → List ℕ → Run D (List ℕ)
  unfolding copy_to continues refuse acknowledge
  receive_rest fuel timeout_ms wait first zero expected payload = pure payload
  receive_rest fuel timeout_ms wait first (suc left) expected payload = do
    frame ← read_frame D fuel wait
    elim (continues first expected (length payload) frame) [
      | false ↦ refuse frame timeout_ms
      | true ↦ (do
        payload' ← lift (copy_to payload frame.fragment_offset frame.payload)
        acknowledge frame timeout_ms
        receive_rest fuel timeout_ms wait first left (expected + 1) payload')
    ]

  -- The caller's buffer goes in and comes back, with `actual_size`.
  unfoldable pub receive_packet : ℕ → ℕ → List ℕ → ℕ → Run D (List ℕ × ℕ)
  unfolding first_data receive_rest
  receive_packet fuel rounds payload timeout_ms = do
    opened ← gets λ s. s.is_open
    guard opened
    first ← first_data fuel rounds timeout_ms
    guard (first.fragment_offset == 0 && not (first.fragment_count == 0))
    guard (
        not (ltb (length payload) first.transport_size)
        && not (ltb max_packet_size first.transport_size))
    guard (not (ltb first.transport_size first.payload_size))
    payload' ← lift (copy_to payload 0 first.payload)
    acknowledge first timeout_ms
    let wait = fragment_timeout timeout_ms
    payload'' ← receive_rest fuel timeout_ms wait first (first.fragment_count - 1) 1 payload'
    update λ s. record s { rx_packets = u32 (s.rx_packets + 1) }
    pure (payload'', first.transport_size)

  unfoldable pub poll : ℕ → ℕ → ℕ → Run D (List ℕ × ℕ)
  unfolding receive_packet
  poll fuel rounds timeout_ms = receive_packet fuel rounds (replicate max_packet_size 0) timeout_ms
