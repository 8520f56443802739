-- ===== src/Audio/Service.antt =====
-- audio_service.cpp: AudioService. A session's `shared_ptr` is the entry of the map; a handle that
-- outlives `remove` is the closed session that `remove` gives back. A call on the service is one
-- step; its parts that run under different locks are not interleaved with another call here.
pub mod Calls
pub mod Sessions
use audio_studio.Prelude.{
  ℕ, String, Bool, true, false, not, ◌||◌, List, [], ◌∷◌, ◌++◌, Option, none, some, if◌then◌else◌,
}
use audio_studio.Prelude.Texts.{is_empty}
use audio_studio.Framework.Status.{
  Status, Result, done, fail, success, invalid_argument, unavailable, is_ok,
}
use audio_studio.OrderedMap.{
  OrderedMap, string_key, find, emplace, modify, erase, assign, has, values,
}
use audio_studio.Audio.Device.{
  AudioDevice, AudioPlaybackDevice, AudioCaptureDevice, AudioOpenParams, Factories, create_device,
}
use audio_studio.Audio.Stream.{AudioStream, AudioIoStats, StreamDirection, is_positive}
use audio_studio.Audio.Session.{Session, new_session, stop, close, snapshot, get_stats}
use audio_studio.Audio.Playback.{
  PlaybackSession, prepare_playback, start_playback, write_frames, drain,
}
use audio_studio.Audio.Capture.{CaptureSession, prepare_capture, start_capture, read_frames}
use Prim.Native.String.{◌++◌ as ◌+++◌}

-- `defaultAudioDriverFactory` of a build that is not for Windows.
abbrev pub default_audio_driver_factory : String
default_audio_driver_factory = "alsa"

pub record AudioServiceConfig : Type 0 where
  pub driver_factory : String
  pub default_device_name : String
  pub options : OrderedMap String String

pub record AudioDeviceRegistry (P : AudioPlaybackDevice) (C : AudioCaptureDevice) : Type 0 where
  pub playback_factories : Factories P.base
  pub capture_factories : Factories C.base

pub record AudioService (P : AudioPlaybackDevice) (C : AudioCaptureDevice) : Type 0 where
  pub registry : Option (AudioDeviceRegistry P C)
  pub config : AudioServiceConfig
  pub playback_sessions : OrderedMap String (Session P.base)
  pub capture_sessions : OrderedMap String (Session C.base)

unfoldable pub validate_stream : AudioStream → Status
validate_stream stream =
    if is_empty stream.id
    then invalid_argument "audio stream id is empty"
    else if not (is_positive stream.sample_rate)
    then invalid_argument "audio sample rate must be positive"
    else if not (is_positive stream.channels)
    then invalid_argument "audio channel count must be positive"
    else if not (is_positive stream.bytes_per_sample)
    then invalid_argument "audio bytes per sample must be positive"
    else success

abbrev pub is_playback : StreamDirection → Bool
is_playback StreamDirection.playback = true
is_playback StreamDirection.capture = false

module _ (P : AudioPlaybackDevice) (C : AudioCaptureDevice) where
  abbrev pub Service : Type 0
  Service = AudioService P C

  unfoldable pub effective_device_name : AudioStream → Service → String
  effective_device_name stream s =
      if not (is_empty stream.device_name)
      then stream.device_name
      else if is_empty s.config.default_device_name
      then "default"
      else s.config.default_device_name

  unfoldable pub effective_factory_name : AudioStream → Service → String
  effective_factory_name stream s =
      if not (is_empty stream.driver_factory)
      then stream.driver_factory
      else if is_empty s.config.driver_factory
      then default_audio_driver_factory
      else s.config.driver_factory

  unfoldable pub has_session : String → Service → Bool
  has_session id s = has id s.playback_sessions || has id s.capture_sessions

  -- The stream with the names that a session of it uses.
  unfoldable pub named_stream : AudioStream → Service → AudioStream
  unfolding effective_device_name effective_factory_name
  named_stream stream s = record stream {
    driver_factory = effective_factory_name stream s;
    device_name = effective_device_name stream s;
  }

  unfoldable pub open_params : AudioStream → Service → AudioOpenParams
  open_params stream s = record {
    device_name = stream.device_name;
    blocking_write = stream.blocking_write;
    options = s.config.options;
  }

  -- The device of a session: none when no registry is configured.
  unfoldable pub make_device :
      (D : AudioDevice)
      → String
      → (AudioDeviceRegistry P C → Factories D)
      → AudioStream
      → Service
      → Status × Option D.State
  unfolding create_device open_params
  make_device D kind factories stream s = elim s.registry [
    | none ↦ (success, none)
    | some registry ↦
        let (status, device) =
          create_device D kind stream.driver_factory (open_params stream s) (factories registry) in
        if is_ok status then (status, device) else (
          unavailable (
              "failed to create "
              +++ (kind
                  +++ (" audio driver: "
                      +++ (stream.driver_factory
                          +++ (" device="
                              +++ (stream.device_name +++ (": " +++ status.message))))))),
          none,
        )
  ]

  unfoldable pub create_playback_session : AudioStream → Service → Status × Service
  unfolding named_stream make_device has_session validate_stream
  create_playback_session stream s =
      let valid = validate_stream stream in
      if not (is_ok valid)
      then (valid, s)
      else if not (is_playback stream.direction)
      then (invalid_argument ("audio operation requires playback stream: " +++ stream.id), s)
      else if has_session stream.id s
      then (invalid_argument ("audio stream already exists: " +++ stream.id), s)
      else let named = named_stream stream s in
        let (status, device) = make_device P.base "playback" (λ r. r.playback_factories) named s in
        if is_ok status
        then (
          success,
          record s {
            playback_sessions =
                emplace stream.id (new_session P.base named device) s.playback_sessions;
          },
        )
        else (status, s)

  unfoldable pub create_capture_session : AudioStream → Service → Status × Service
  unfolding named_stream make_device has_session validate_stream
  create_capture_session stream s =
      let valid = validate_stream stream in
      if not (is_ok valid)
      then (valid, s)
      else if is_playback stream.direction
      then (invalid_argument ("audio operation requires capture stream: " +++ stream.id), s)
      else if has_session stream.id s
      then (invalid_argument ("audio stream already exists: " +++ stream.id), s)
      else let named = named_stream stream s in
        let (status, device) = make_device C.base "capture" (λ r. r.capture_factories) named s in
        if is_ok status
        then (
          success,
          record s {
            capture_sessions =
                emplace stream.id (new_session C.base named device) s.capture_sessions;
          },
        )
        else (status, s)

  unfoldable pub create : AudioStream → Service → Status × Service
  create stream s =
      if is_playback stream.direction
      then create_playback_session stream s
      else create_capture_session stream s
