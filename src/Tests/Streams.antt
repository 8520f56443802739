-- ===== src/Tests/Streams.antt =====
-- Audio sessions and the audio service on drivers that count their calls.
use mathlib.Core.Option
use audio_studio.Prelude.{
  ℕ, ◌+◌, ◌<◌, ◌≤◌, ◌≡◌, refl, true, false, not, ◌&&◌, ◌||◌, List, [], ◌∷◌, length, replicate, none,
  some, if◌then◌else◌, arith,
}
use audio_studio.Prelude.Texts.{text_eq}
use audio_studio.Framework.Status.{done, success, is_ok}
use audio_studio.OrderedMap.{string_key, find}
use audio_studio.Audio.Device.{AudioDevice, AudioPlaybackDevice, AudioCaptureDevice}
use audio_studio.Audio.Stream.{AudioStream, StreamDirection, ℤ}
use audio_studio.Audio.Session.{new_session, closed_error, stop, close}
use audio_studio.Audio.Playback.{
  PlaybackSession, prepare_playback, start_playback, write_frames, drain,
}
use audio_studio.Audio.Capture.{CaptureSession, read_frames, frame_bytes}
use audio_studio.Audio.Session.Lifecycle.{
  IsConsistent, PlaybackCall, play, Reaches, reaches-IsConsistent, reaches-closed,
  read_frames-length,
}
use audio_studio.Audio.Service.{AudioServiceConfig, Service, create, named_stream}
use audio_studio.Audio.Service.Calls.{get}
use audio_studio.Audio.Service.Sessions.{
  ServiceCall, serve_all, IsWellFormed, serve_all-IsWellFormed, get-create,
}

-- The state of the driver is the number of calls that it has had.
abbrev counter : AudioDevice
counter = record {
  State = ℕ;
  prepare = λ params d. (success, d + 1);
  start = λ d. (success, d + 1);
  stop = λ d. (success, d + 1);
  close = λ d. d + 1;
  get_stats = λ d. record { frames_written = d; frames_read = 0; running = true };
}

abbrev speaker : AudioPlaybackDevice
speaker = record {
  base = counter;
  write_frame = λ frame ms d. (success, d + 1);
  drain = λ d. (success, d + 1);
}

abbrev microphone : AudioCaptureDevice
microphone = record { base = counter; read_frame = λ size ms d. (success, replicate size 7, d + 1) }

abbrev a_stream : AudioStream
a_stream = record {
  id = "main";
  direction = StreamDirection.playback;
  driver_factory = "alsa";
  device_name = "default";
  sample_rate = ℤ.pos 48000;
  channels = ℤ.pos 2;
  bytes_per_sample = ℤ.pos 2;
  blocking_write = true;
  prepared = false;
  running = false;
}

abbrev fresh : PlaybackSession speaker
fresh = new_session counter a_stream (some 0)

reaches-IsConsistent_example : IsConsistent counter (play speaker PlaybackCall.starts fresh).1
reaches-IsConsistent_example =
    reaches-IsConsistent speaker a_stream (some 0) (play speaker PlaybackCall.starts fresh).1 refl
      (Reaches.called PlaybackCall.starts fresh Reaches.opened)

-- A session that was started and then closed.
abbrev started : PlaybackSession speaker
started = (play speaker PlaybackCall.starts fresh).1

abbrev shut : PlaybackSession speaker
shut = (close counter started).1

reaches-closed_example :
    let t = (play speaker PlaybackCall.starts shut).1 in
    let refused = closed_error counter "playback" t in
    (t ≡ shut)
    × (t.is_closed ≡ true)
    × ((t.stream.running || t.stream.prepared) ≡ false)
    × (t.device
        ≡ (if started.is_closed then started.device else Option.map counter.close started.device))
    × (prepare_playback speaker t ≡ (refused, t))
    × (start_playback speaker t ≡ (refused, t))
    × (drain speaker t ≡ (refused, t))
    × (write_frames speaker (1 ∷ 2 ∷ []) 5 t ≡ (refused, 0, t))
    × (stop counter t ≡ (success, t))
    × (close counter t ≡ (success, t))
reaches-closed_example =
    reaches-closed speaker a_stream (some 0) started (play speaker PlaybackCall.starts shut).1
      (1 ∷ 2 ∷ []) 5 (Reaches.called PlaybackCall.starts fresh Reaches.opened)
      (Reaches.called PlaybackCall.starts shut Reaches.opened)

abbrev recording : CaptureSession microphone
recording = record {
  stream = record a_stream { direction = StreamDirection.capture; prepared = true; running = true };
  device = some 2;
  is_closed = false;
}

read_frames-length_example :
    let (status, bytes, t) = read_frames microphone 10 5 recording in
    (length bytes ≤ (if is_ok status then 10 else 0))
    × (is_ok status ≡ is_ok status && (recording.stream.running && not recording.is_closed))
    × (t.stream ≡ recording.stream)
    × (t.is_closed ≡ recording.is_closed)
read_frames-length_example = read_frames-length microphone 10 5 recording

unit_is_four : frame_bytes recording.stream ≡ 4
unfolding frame_bytes
unit_is_four = refl

three_short : 3 < frame_bytes recording.stream
three_short = rw unit_is_four (omega arith)

frame_long : 3 < length (microphone.read_frame (frame_bytes recording.stream) 5 2).1
frame_long = rw unit_is_four (omega arith)

abbrev config : AudioServiceConfig
config = record { driver_factory = "alsa"; default_device_name = "default"; options = [] }

abbrev no_sessions : Service speaker microphone
no_sessions = record {
  registry = none;
  config = config;
  playback_sessions = [];
  capture_sessions = [];
}

abbrev one_session : Service speaker microphone
one_session = record no_sessions { playback_sessions = ("main", fresh) ∷ [] }

no_sessions-IsWellFormed : IsWellFormed speaker microphone no_sessions
unfolding find
no_sessions-IsWellFormed = record {
  playback_sorted = tt;
  capture_sorted = tt;
  one_direction = λ id. refl;
}

one_session-IsWellFormed : IsWellFormed speaker microphone one_session
unfolding find
one_session-IsWellFormed = record {
  playback_sorted = (tt, tt);
  capture_sorted = tt;
  one_direction = λ id. ground arith;
}

abbrev service_calls : List ServiceCall
service_calls =
    ServiceCall.creates a_stream
    ∷ ServiceCall.starts "main"
    ∷ ServiceCall.writes "main" (1 ∷ []) 5
    ∷ ServiceCall.removes "main"
    ∷ []

serve_all-IsWellFormed_example :
    IsWellFormed speaker microphone (serve_all speaker microphone service_calls no_sessions)
serve_all-IsWellFormed_example =
    serve_all-IsWellFormed speaker microphone service_calls no_sessions no_sessions-IsWellFormed

get-create_example :
    let (status, t) = create speaker microphone a_stream no_sessions in
    get speaker microphone "main" t ≡ (
      if is_ok status && text_eq "main" "main"
      then done (named_stream speaker microphone a_stream no_sessions)
      else get speaker microphone "main" no_sessions)
get-create_example = get-create speaker microphone a_stream "main" no_sessions
