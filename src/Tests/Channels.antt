-- ===== src/Tests/Channels.antt =====
-- Channels: a request that is served, and an exchange with a device that answers it.
use audio_studio.Prelude.{ℕ, ◌+◌, ◌%◌, ◌^◌, ◌≡◌, ◌≢◌, refl, true, false, List, [], ◌∷◌, some, arith}
use audio_studio.Framework.Status.{done, success, stuck}
use audio_studio.Wire.Checksum.{crc32}
use audio_studio.Wire.Bytes.{
  u32, read_u16, read_u32, append_u16, append_u32, zero_tail, patch_u32, byte,
}
use audio_studio.Transport.Frame.{TransportFrame, empty_frame}
use audio_studio.Transport.Frame as Frame
use audio_studio.Transport.Frame.RoundTrip as RoundTrip
use audio_studio.Transport.DataLinkFrame.{frame_size, decode, encode, make_ack}
use audio_studio.Transport.DataLink.{
  DataLinkDevice, read_frame, round, rounds, write, clock, send_ack, no_stats,
}
use audio_studio.Transport.DataLink.Send.{send_packet, send_fragments, deliver, attempt, fragment}
use audio_studio.Transport.DataLink.Receive.{receive_packet, receive_rest, copy_fragment}
use audio_studio.OrderedMap.{find, modify}
use audio_studio.Transport.Channel.{ChannelRuntime, AsyncRequest, enqueue}
use audio_studio.Transport.Channel.Worker.{
  System, Step, Reachable, Worker, IsOrderly, reachable-IsOrderly, drained-served,
}
use audio_studio.Transport.Manager.{
  TransportManager, send_sync, get_channel, is_answer, exchange, request_frame, on_link, record_tx,
  record_rx, answers,
}
use audio_studio.Transport.Manager.Exchange.{send_sync-done, send_sync-ne-stuck}
use audio_studio.Prelude.{none, true}
use audio_studio.Tests.Fixtures.{echo, echo_config, echo_manager, echo-IsTimely, five_bytes}

abbrev a_request : AsyncRequest
a_request = record {
  command_id = 3;
  payload = five_bytes;
  callback = some 1;
  timeout_ms = 10;
  session_id = 0;
}

abbrev a_runtime : ChannelRuntime
a_runtime = record {
  channel = record {
    id = 4;
    service = "audio";
    is_open = true;
    frames_sent = 0;
    frames_received = 0;
  };
  queue = [];
  active = false;
  stopping = false;
}

abbrev opened : System
opened = record { runtime = a_runtime; worker = Worker.waiting; accepted = []; served = [] }

abbrev queued : System
queued = record opened {
  runtime = record a_runtime { queue = a_request ∷ [] };
  accepted = a_request ∷ [];
}

abbrev taken : System
taken = record queued {
  runtime = record a_runtime { active = true };
  worker = Worker.serving a_request;
}

abbrev called_back : System
called_back = record taken { worker = Worker.finishing; served = a_request ∷ [] }

abbrev finished : System
finished = record called_back { runtime = a_runtime; worker = Worker.waiting }

sends : Step opened queued
unfolding enqueue
sends = Step.send a_request opened refl

finished-Reachable : Reachable finished
finished-Reachable =
    let start = Reachable.start a_runtime refl refl refl in
    let sent = Reachable.step opened queued start sends in
    let took = Reachable.step queued taken sent (Step.take a_request [] queued refl refl) in
    let called = Reachable.step taken called_back took (Step.call_back a_request taken refl) in
    Reachable.step called_back finished called (Step.finish called_back refl)

reachable-IsOrderly_example : IsOrderly finished
reachable-IsOrderly_example = reachable-IsOrderly finished finished-Reachable

drained-served_example : finished.served ≡ finished.accepted
drained-served_example = drained-served finished finished-Reachable refl

-- A device that answers with what was written for it, one block for each read.
abbrev scripted : DataLinkDevice
scripted = record {
  State = List (List ℕ);
  is_connected = λ d. true;
  max_payload_size = λ d. 4096;
  write_block = λ d block ms. (success, d);
  read_block =
      λ d capacity ms. elim d [ [] ↦ (success, [], []) | block ∷ rest ↦ (success, block, rest) ];
  now = λ d. (0, d);
  sleep_ms = λ d ms. d;
}

abbrev response : TransportFrame
response = record empty_frame {
  service_id = 4;
  channel_id = 4;
  command_id = 3;
  flags = 6;
  sequence_id = 1;
  payload = 77 ∷ [];
}

abbrev request : TransportFrame
request = record empty_frame {
  service_id = 4;
  channel_id = 4;
  command_id = 3;
  flags = 9;
  sequence_id = 1;
  payload = five_bytes;
}

abbrev script : List (List ℕ)
script =
    encode (make_ack (fragment (Frame.encode request) 4060 1 1 0))
    ∷ encode (fragment (Frame.encode response) 4060 1 8 0)
    ∷ []

abbrev a_manager : TransportManager scripted
a_manager = record {
  channels = (4, a_runtime) ∷ [];
  binding = none;
  datalink = some (record {
    device = script;
    config = echo_config;
    stats = no_stats;
    next_link_sequence = 1;
    rx_buffer = [];
  });
  next_sequence = 1;
}

exchanged : (send_sync scripted 10 4 3 five_bytes 5 0 a_manager).0 ≡ done response
unfolding send_sync exchange request_frame on_link record_tx record_rx answers is_answer send_packet
    send_fragments deliver attempt read_frame rounds round frame_size decode encode fragment write
    clock crc32 read_u16 read_u32 append_u32 append_u16 zero_tail patch_u32 make_ack byte
    receive_packet receive_rest copy_fragment send_ack Frame.encode Frame.decode find modify
exchanged = refl

channel_known : (get_channel scripted 4 a_manager).0 ≡ done a_runtime.channel
unfolding get_channel find
channel_known = refl

send_sync-done_example :
    let t = (send_sync scripted 10 4 3 five_bytes 5 0 a_manager).1 in
    (response.channel_id ≡ 4)
    × (response.sequence_id ≡ 1)
    × (is_answer scripted response ≡ true)
    × (t.next_sequence ≡ u32 (1 + 1))
    × ((get_channel scripted 4 t).0
        ≡ done (record a_runtime.channel {
          frames_sent = (0 + 1) % 2 ^ 64;
          frames_received = (0 + 1) % 2 ^ 64;
        }))
send_sync-done_example =
    send_sync-done scripted 10 4 3 five_bytes 5 0 a_manager response a_runtime.channel exchanged
      channel_known

abbrev echo_transport : TransportManager echo
echo_transport = record {
  channels = (4, a_runtime) ∷ [];
  binding = none;
  datalink = some echo_manager;
  next_sequence = 1;
}

send_sync-ne-stuck_example : (send_sync echo (2 ^ 33) 4 3 five_bytes 5 0 echo_transport).0 ≢ stuck
send_sync-ne-stuck_example =
    send_sync-ne-stuck echo echo-IsTimely (2 ^ 33) 4 3 five_bytes 5 0 echo_transport (omega arith)
      (omega arith)

request-IsWellSized : RoundTrip.IsWellSized request
request-IsWellSized = record {
  version_fits = omega arith;
  channel_fits = omega arith;
  command_fits = omega arith;
  flags_fit = omega arith;
  sequence_fits = omega arith;
  session_fits = omega arith;
  payload_fits = omega arith;
}

decode-encode_frame_example :
    Frame.decode (Frame.encode request) ≡ done (record request { service_id = request.channel_id })
decode-encode_frame_example = RoundTrip.decode-encode_frame request request-IsWellSized
