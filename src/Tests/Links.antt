-- ===== src/Tests/Links.antt =====
-- The data link at concrete packets: five bytes over a device whose MTU leaves four bytes to a
-- fragment, so that there are two fragments.
use audio_studio.Prelude.{
  ℕ, ◌+◌, ◌*◌, ◌^◌, ◌≤◌, ◌≡◌, ◌≢◌, refl, List, [], ◌∷◌, ◌++◌, String, take, arith,
}
use audio_studio.Framework.Status.{done, fail, stuck, unavailable, invalid_argument}
use audio_studio.Wire.Checksum.{crc32}
use audio_studio.Wire.Bytes.{read_u16, read_u32, append_u16, append_u32, zero_tail, patch_u32, byte}
use audio_studio.Transport.DataLinkFrame.{DataLinkFrame, frame_size, decode, encode, make_ack}
use audio_studio.Transport.DataLinkFrame.RoundTrip.{IsWellSized, decode-encode_link}
use audio_studio.Transport.DataLinkFrame.Buffered.{frame_size-take, length-encode}
use audio_studio.Transport.DataLink.{
  DataLinkDevice, DataLinkManager, new, read_frame, round, rounds, write, clock,
}
use audio_studio.Transport.DataLink.Send.{send_packet, send_fragments, deliver, attempt, fragment}
use audio_studio.Transport.DataLink.Receive.{receive_packet}
use audio_studio.Transport.DataLink.Reassembly.{receive_packet-wire, wire, fragments}
use audio_studio.Transport.DataLink.Sending.{send_packet-counts, send_packet-ne-stuck}
use audio_studio.Transport.DataLink.Receiving.{receive_packet-ne-stuck}
use audio_studio.Transport.DataLink.Delivery.{receive_packet-send_packet}
use audio_studio.Tests.Fixtures.{
  echo, echo_start, echo_config, echo_manager, echo-Line, echo-Accepts, echo-IsTimely, five_bytes,
}

abbrev after_send : DataLinkManager echo
after_send = (send_packet echo 10 five_bytes 5 echo_manager).1

five_bytes-sent : (send_packet echo 10 five_bytes 5 echo_manager).0 ≡ done tt
unfolding send_packet send_fragments deliver attempt read_frame rounds round frame_size decode
    encode fragment write clock crc32 read_u16 read_u32 append_u32 append_u16 zero_tail patch_u32
    make_ack byte
five_bytes-sent = refl

no_retries : after_send.stats.retries ≡ 0
unfolding send_packet send_fragments deliver attempt read_frame rounds round frame_size decode
    encode fragment write clock crc32 read_u16 read_u32 append_u32 append_u16 zero_tail patch_u32
    make_ack byte
no_retries = refl

abbrev receiver : List ℕ → DataLinkManager echo
receiver bytes = record echo_manager { rx_buffer = bytes }

receive_packet-send_packet_example :
    let (got, t) = receive_packet echo 10 5 (receiver after_send.device.sent) in
    (got ≡ done five_bytes)
    × (t.rx_buffer ≡ [])
    × (t.stats ≡ record echo_manager.stats { packets_received = 1; fragments_received = 2 })
receive_packet-send_packet_example =
    receive_packet-send_packet echo echo echo-Line echo-Accepts 10 9 five_bytes 5 5 echo_manager
      (receiver after_send.device.sent) (omega arith) (omega arith) refl five_bytes-sent no_retries
      refl

receive_packet-wire_example :
    let bytes = wire (fragments five_bytes 4 2 7 2 0) ++ 99 ∷ [] in
    let (got, t) = receive_packet echo 10 5 (receiver bytes) in
    (got ≡ done five_bytes)
    × (t.rx_buffer ≡ 99 ∷ [])
    × (t.stats ≡ record echo_manager.stats { packets_received = 1; fragments_received = 2 })
receive_packet-wire_example =
    receive_packet-wire echo echo-Accepts 5 five_bytes 4 7 (omega arith) (omega arith) (omega arith)
      9 (99 ∷ []) (receiver (wire (fragments five_bytes 4 2 7 2 0) ++ 99 ∷ [])) (omega arith) refl

send_packet-counts_example :
    (after_send.stats.packets_sent ≡ 1)
    × (after_send.next_link_sequence ≡ 2)
    × (after_send.stats.fragments_sent + 0 ≡ 0 + after_send.stats.retries + 2)
    × (after_send.stats.retries ≤ 0 + 2 * 2)
send_packet-counts_example = send_packet-counts echo 10 five_bytes 5 echo_manager five_bytes-sent

abbrev narrow : DataLinkDevice
narrow = record echo { max_payload_size = λ d. 36 }

abbrev narrow_manager : DataLinkManager narrow
narrow_manager = new narrow echo_start echo_config

narrow-refused :
    send_packet narrow 10 five_bytes 5 narrow_manager
    ≡ (fail (invalid_argument "data-link MTU is too small"), narrow_manager)
unfolding send_packet new
narrow-refused = refl

send_packet-ne-stuck_example : (send_packet echo (2 ^ 33) five_bytes 5 echo_manager).0 ≢ stuck
send_packet-ne-stuck_example =
    send_packet-ne-stuck echo echo-IsTimely (2 ^ 33) five_bytes 5 echo_manager (omega arith)

receive_packet-ne-stuck_example :
    (receive_packet echo (2 ^ 33) 5 (receiver (1 ∷ 2 ∷ 3 ∷ []))).0 ≢ stuck
receive_packet-ne-stuck_example =
    receive_packet-ne-stuck echo echo-IsTimely (2 ^ 33) 5 (omega arith) (receiver (1 ∷ 2 ∷ 3 ∷ []))

abbrev a_frame : DataLinkFrame
a_frame = record {
  version = 1;
  flags = 9;
  link_sequence = 7;
  transport_size = 5;
  fragment_offset = 0;
  fragment_index = 0;
  fragment_count = 1;
  payload = five_bytes;
}

a_frame-IsWellSized : IsWellSized a_frame
a_frame-IsWellSized = record {
  version_fits = omega arith;
  flags_fit = omega arith;
  sequence_fits = omega arith;
  size_fits = omega arith;
  offset_fits = omega arith;
  index_fits = omega arith;
  count_fits = omega arith;
  payload_fits = omega arith;
}

decode-encode_link_example : decode (encode a_frame) ≡ done a_frame
decode-encode_link_example = decode-encode_link a_frame a_frame-IsWellSized

frame_size-take_example :
    (message : String) × (frame_size (take 40 (encode a_frame)) ≡ fail (unavailable message))
frame_size-take_example =
    frame_size-take a_frame (omega arith) 40 (omega (arith, length-encode a_frame))
