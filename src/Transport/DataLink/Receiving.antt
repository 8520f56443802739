-- ===== src/Transport/DataLink/Receiving.antt =====
-- `receivePacket`: its loop ends, and what it counts when it refuses a packet.
use audio_studio.Prelude.{ℕ, zero, suc, ◌+◌, ◌*◌, ◌-◌, ◌<◌, ◌^◌, ◌≢◌, List, replicate, arith}
use audio_studio.Framework.Status.{stuck}
use audio_studio.Framework.Action.{continue-ne-stuck, pure, ◌>>=◌, ◌>>◌}
use audio_studio.Transport.DataLinkFrame.{DataLinkFrame, header_size}
use audio_studio.Transport.DataLink.{
  DataLinkDevice, DataLinkManager, Run, count_with, read_frame, send_ack, write, ns_per_ms,
}
use audio_studio.Transport.DataLink.Termination.{IsTimely, read_frame-ne-stuck}
use audio_studio.Transport.DataLink.Receive.{copy_fragment, receive_rest, receive_packet}

module _ (D : DataLinkDevice) where
  copy_fragment-ne-stuck :
      (timeout_ms size : ℕ) (frame : DataLinkFrame) (packet : List ℕ) (s : DataLinkManager D)
      → (copy_fragment D timeout_ms size frame packet s).0 ≢ stuck
  unfolding copy_fragment
  copy_fragment-ne-stuck timeout_ms size frame packet s = ground arith

  module _ (timely : IsTimely D) (fuel timeout_ms : ℕ)
      (enough : 2 ^ 32 + header_size + timeout_ms * ns_per_ms < fuel) where
    receive_rest-ne-stuck :
        (first : DataLinkFrame) (left expected : ℕ) (packet : List ℕ) (s : DataLinkManager D)
        → (receive_rest D fuel timeout_ms first left expected packet s).0 ≢ stuck
    unfolding receive_rest send_ack write
    receive_rest-ne-stuck first zero expected packet s = ground arith
    receive_rest-ne-stuck first (suc left) expected packet s =
        let (r, s1) = read_frame D fuel timeout_ms s in
        continue-ne-stuck r s1 _ (read_frame-ne-stuck D timely fuel timeout_ms s enough) λ frame.
          let size : ℕ = first.transport_size in
          let (c, s2) = copy_fragment D timeout_ms size frame packet s1 in
          let copied =
            continue-ne-stuck c s2 (receive_rest D fuel timeout_ms first left (expected + 1))
              (copy_fragment-ne-stuck timeout_ms size frame packet s1)
              (λ packet1. receive_rest-ne-stuck first left (expected + 1) packet1 s2) in
          ground arith

    -- On a device whose clock never runs back and advances over a sleep, `receivePacket`
    -- returns, whatever the device delivers: it takes no more fuel than one read that lasts for
    -- the call's timeout, a round for each byte of the longest frame and for each nanosecond.
    pub receive_packet-ne-stuck :
        (s : DataLinkManager D) → (receive_packet D fuel timeout_ms s).0 ≢ stuck
    unfolding receive_packet
    receive_packet-ne-stuck s =
        let (r, s1) = read_frame D fuel timeout_ms s in
        continue-ne-stuck r s1 _ (read_frame-ne-stuck D timely fuel timeout_ms s enough) λ frame.
          let size : ℕ = frame.transport_size in
          let (c, s2) = copy_fragment D timeout_ms size frame (replicate size 0) s1 in
          let finish : List ℕ → Run D (List ℕ) = λ packet. (do
            packet' ← receive_rest D fuel timeout_ms frame (frame.fragment_count - 1) 1 packet
            count_with D λ st. record st { packets_received = st.packets_received + 1 }
            pure packet') in
          let finished : (packet : List ℕ) → (finish packet s2).0 ≢ stuck = λ packet.
            ground (arith, receive_rest-ne-stuck frame (frame.fragment_count - 1) 1 packet s2) in
          let copied =
            continue-ne-stuck c s2 finish
              (copy_fragment-ne-stuck timeout_ms size frame (replicate size 0) s1) finished in
          ground arith
