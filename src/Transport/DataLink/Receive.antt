-- ===== src/Transport/DataLink/Receive.antt =====
-- datalink_manager.cpp: `receivePacket`.
use audio_studio.Prelude.{
  ℕ, zero, suc, ◌+◌, ◌-◌, Bool, true, false, not, ◌&&◌, List, ◌++◌, length, take, drop, replicate,
  ltb, ◌==◌,
}
use audio_studio.Framework.Status.{invalid_argument}
use audio_studio.Framework.Action.{pure, raise, guard, observe, ◌>>=◌, ◌>>◌}
use audio_studio.Transport.DataLinkFrame.{DataLinkFrame, has_flag, flag_data}
use audio_studio.Transport.DataLink.{
  DataLinkDevice, DataLinkManagerStats, Run, count_with, read_frame, send_ack,
}

abbrev pub count_received : DataLinkManagerStats → DataLinkManagerStats
count_received st = record st { fragments_received = st.fragments_received + 1 }

-- `std::copy` of a fragment into the packet at its offset.
abbrev pub splice : List ℕ → ℕ → List ℕ → List ℕ
splice packet offset bytes = take offset packet ++ (bytes ++ drop (offset + length bytes) packet)

unfoldable pub continues : DataLinkFrame → ℕ → DataLinkFrame → Bool
continues first expected frame =
    has_flag frame.flags flag_data
    && frame.link_sequence == first.link_sequence
    && frame.fragment_index == expected

module _ (D : DataLinkDevice) where
  unfoldable pub copy_fragment : ℕ → ℕ → DataLinkFrame → List ℕ → Run D (List ℕ)
  unfolding send_ack
  copy_fragment timeout_ms size frame packet = do
    guard (frame.transport_size == size) (invalid_argument "data-link transport size changed")
    guard (not (ltb (length packet) (frame.fragment_offset + length frame.payload)))
        (invalid_argument "data-link fragment exceeds packet size")
    count_with D count_received
    send_ack D frame true timeout_ms
    pure (splice packet frame.fragment_offset frame.payload)

  unfoldable pub receive_rest : ℕ → ℕ → DataLinkFrame → ℕ → ℕ → List ℕ → Run D (List ℕ)
  unfolding send_ack
  receive_rest fuel timeout_ms first zero expected packet = pure packet
  receive_rest fuel timeout_ms first (suc left) expected packet = do
    frame ← read_frame D fuel timeout_ms
    elim (continues first expected frame) [
      | false ↦ (do
        _ ← observe (send_ack D frame false timeout_ms)
        raise (invalid_argument "data-link fragment sequence mismatch"))
      | true ↦ (do
        packet' ← copy_fragment timeout_ms first.transport_size frame packet
        receive_rest fuel timeout_ms first left (expected + 1) packet')
    ]

  unfoldable pub receive_packet : ℕ → ℕ → Run D (List ℕ)
  receive_packet fuel timeout_ms = do
    first ← read_frame D fuel timeout_ms
    guard (has_flag first.flags flag_data) (invalid_argument "data-link expected DATA frame")
    guard (first.fragment_offset == 0)
        (invalid_argument "data-link first fragment offset is not zero")
    packet ← copy_fragment timeout_ms first.transport_size first (replicate first.transport_size 0)
    packet' ← receive_rest fuel timeout_ms first (first.fragment_count - 1) 1 packet
    count_with D λ st. record st { packets_received = st.packets_received + 1 }
    pure packet'
