-- ===== src/Tests/Controller.antt =====
-- Runs of the device's end of the link.
use audio_studio.Prelude.{ℕ, ◌≡◌, refl, ◌++◌, true, some, List, [], ◌∷◌, take, replicate, arith}
use audio_studio.Audio.Stream.{pos}
use audio_studio.Wire.Bytes.{are_bytes, byte, read_u16, read_u32}
use audio_studio.Wire.Checksum.{crc32}
use audio_studio.Transport.DataLinkFrame
use audio_studio.Transport.DataLinkFrame.{DataLinkFrame as Frame}
use audio_studio.Transport.Frame
use audio_studio.Transport.DataLink.Reassembly.{fragments}
use audio_studio.Controller.Bytes.{ac_crc32}
use audio_studio.Controller.LinkFrame.{
  encode_frame, decode_frame, effective_mtu, frame_size, is_magic,
}
use audio_studio.Controller.LinkFrame.Equivalence.{view, view_of, decode_frame-decode}
use audio_studio.Controller.TransportFrame
use audio_studio.Controller.TransportFrame.{Frame as Request}
use audio_studio.Controller.TransportFrame.Equivalence
use audio_studio.Controller.TransportFrame.Equivalence.{answer, encode-answer, ac_decode-decode}
use audio_studio.Controller.Call.{ok}
use audio_studio.Controller.DataLink.{
  DeviceOps, DataLink, fresh, read_frame, rounds, round, resync, fill, take_frame,
}
use audio_studio.Controller.DataLink.Send.{
  send_packet, send_fragments, deliver, attempt, encode_fragment,
}
use audio_studio.Controller.DataLink.Sending.{
  is_ok, Line, Carries, is_ok, on_line, send_packet-Carries,
}
use audio_studio.Controller.DataLink.Reading.{Buffered, taken, read_frame-encode_ac}
use audio_studio.Controller.RequestQueue.{ChannelQueue, queue_request, pop_request}
use audio_studio.Controller.RequestQueue.Refinement.{
  IsRingIn, seen, popped, left, requests, enqueue, dequeue, request_queue-refines,
}

data_frame : Frame
data_frame = record {
  version = 1;
  flags = 9;
  link_sequence = 1;
  transport_size = 3;
  fragment_offset = 0;
  fragment_index = 0;
  fragment_count = 1;
  payload = 5 ∷ 6 ∷ 255 ∷ [];
}

decode_frame-decode_example :
    decode_frame (DataLinkFrame.encode data_frame)
    ≡ view (DataLinkFrame.decode (DataLinkFrame.encode data_frame))
unfolding data_frame DataLinkFrame.encode are_bytes byte crc32
decode_frame-decode_example = decode_frame-decode (DataLinkFrame.encode data_frame) refl

request : Request
request = record {
  version = 0;
  channel_id = 3;
  command_id = 7;
  flags = 1;
  sequence_id = 12;
  session_id = 4;
  payload = [];
}

encode-answer_example :
    TransportFrame.encode 4096 request 6 (1 ∷ 2 ∷ [])
    ≡ some (Frame.encode (answer request 6 (1 ∷ 2 ∷ [])))
encode-answer_example = encode-answer 4096 request 6 (1 ∷ 2 ∷ []) (omega arith) (omega arith)

ac_decode-decode_example :
    TransportFrame.decode (Frame.encode (answer request 6 (1 ∷ 2 ∷ [])))
    ≡ Equivalence.view (Frame.decode (Frame.encode (answer request 6 (1 ∷ 2 ∷ []))))
unfolding request answer Frame.encode are_bytes byte crc32
ac_decode-decode_example = ac_decode-decode (Frame.encode (answer request 6 (1 ∷ 2 ∷ []))) refl

-- A device that keeps what is written to it and acknowledges fragment 0 of packet 1.
acknowledging : DeviceOps
acknowledging = record {
  State = List ℕ;
  open_device = λ d. (pos 0, d);
  close = λ d. d;
  mtu = λ d. 128;
  write = λ d block ms. (pos 0, d ++ block);
  read = λ d capacity ms. (pos 0, DataLinkFrame.encode (DataLinkFrame.make_ack data_frame), d);
}

acknowledging_line : Line acknowledging
unfolding acknowledging
acknowledging_line = record {
  sent = λ d. d;
  write_sent = λ d block ms e. refl;
  read_sent = λ d capacity ms. refl;
}

controller : List ℕ → DataLink acknowledging
unfolding acknowledging
controller sent = record (fresh acknowledging sent) { is_open = true; mtu = 128 }

packet_sent : is_ok (send_packet acknowledging 5 (5 ∷ 6 ∷ 255 ∷ []) 10 (controller [])).0 ≡ true
unfolding controller acknowledging data_frame send_packet effective_mtu send_fragments deliver
    attempt encode_fragment encode_frame read_frame rounds round resync fill take_frame frame_size
    decode_frame ac_crc32 DataLinkFrame.encode DataLinkFrame.make_ack byte crc32 is_magic read_u32
    read_u16
packet_sent = refl

send_packet-Carries_example :
    (bytes : List ℕ) × Carries (fragments (5 ∷ 6 ∷ 255 ∷ []) 92 1 1 1 0) bytes
    × (on_line acknowledging acknowledging_line
          (send_packet acknowledging 5 (5 ∷ 6 ∷ 255 ∷ []) 10 (controller [])).1
        ≡ on_line acknowledging acknowledging_line (controller []) ++ bytes)
unfolding controller effective_mtu
send_packet-Carries_example =
    send_packet-Carries acknowledging acknowledging_line 5 (5 ∷ 6 ∷ 255 ∷ []) 10 (controller [])
      packet_sent

waiting : DataLink acknowledging
unfolding controller data_frame
waiting = record (controller []) {
  rx_stream = DataLinkFrame.encode data_frame ++ replicate 2009 0;
  rx_stream_size = 39;
}

queue : ChannelQueue
queue = record { queue = request ∷ request ∷ request ∷ request ∷ []; head = 3; tail = 1; count = 2 }

request_queue-refines_example :
    ((seen (queue_request queue request) ≡ enqueue (requests queue) request)
      × IsRingIn (queue_request queue request))
    × ((popped (pop_request queue) ≡ dequeue (requests queue))
        × IsRingIn (left (pop_request queue)))
unfolding queue
request_queue-refines_example =
    request_queue-refines queue request
      (record { slots = refl; head_inside = omega arith; filled = omega arith; behind = refl })

waiting-Buffered : Buffered acknowledging data_frame (replicate 2009 0) waiting
unfolding waiting controller data_frame DataLinkFrame.encode are_bytes byte crc32
waiting-Buffered = record {
  stream = refl;
  bytes = refl;
  sized = record {
    version_fits = omega arith;
    flags_fit = omega arith;
    sequence_fits = omega arith;
    size_fits = omega arith;
    offset_fits = omega arith;
    index_fits = omega arith;
    count_fits = omega arith;
    payload_fits = omega arith;
  };
  arrived = omega arith;
  fits = omega arith;
  inside = omega arith;
}

abbrev rest : DataLink acknowledging
rest = taken acknowledging data_frame (replicate 2009 0) waiting waiting-Buffered

read_frame-encode_ac_example :
    (read_frame acknowledging 1 10 waiting ≡ (ok (view_of data_frame), rest))
    × (take rest.rx_stream_size rest.rx_stream ≡ take rest.rx_stream_size (replicate 2009 0))
read_frame-encode_ac_example =
    read_frame-encode_ac acknowledging data_frame (replicate 2009 0) waiting waiting-Buffered 0 10
