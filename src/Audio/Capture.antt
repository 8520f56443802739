-- ===== src/Audio/Capture.antt =====
-- audio_service.cpp: AudioCaptureSession.
use audio_studio.Prelude.{
  ℕ, ◌*◌, ◌/◌, ◌%◌, ◌^◌, none, some, List, [], length, take, replicate, max, ltb, ◌==◌,
  if◌then◌else◌, not,
}
use audio_studio.Framework.Status.{Status, success, unavailable, invalid_argument, is_ok}
use audio_studio.Audio.Device.{AudioCaptureDevice}
use audio_studio.Audio.Stream.{AudioStream, cast_unsigned}
use audio_studio.Audio.Session.{Session, prepare, start, closed_error}
use Prim.Native.String.{◌++◌}

-- The bytes of one sample of every channel, in a `size_t` of 64 bits.
unfoldable pub frame_bytes : AudioStream → ℕ
frame_bytes stream =
    (cast_unsigned (2 ^ 64) stream.channels * cast_unsigned (2 ^ 64) stream.bytes_per_sample)
    % 2 ^ 64

module _ (C : AudioCaptureDevice) where
  abbrev pub CaptureSession : Type 0
  CaptureSession = Session C.base

  unfoldable pub prepare_capture : CaptureSession → Status × CaptureSession
  prepare_capture s = prepare C.base "capture" s

  unfoldable pub start_capture : CaptureSession → Status × CaptureSession
  start_capture s = start C.base "capture" s

  abbrev pub whole_frames : ℕ → ℕ → ℕ
  whole_frames max_bytes unit = (max_bytes / unit) * unit

  -- `resize` only shortens here: the frame is longer than `max_bytes`.
  unfoldable pub read_device :
      ℕ → ℕ → ℕ → C.base.State → CaptureSession → Status × List ℕ × CaptureSession
  read_device unit max_bytes timeout_ms d s =
      let aligned = max unit (whole_frames max_bytes unit) in
      let (status, frame, d') = C.read_frame aligned timeout_ms d in
      let s' = record s { device = some d' } in
      if not (is_ok status)
      then (status, [], s')
      else if ltb max_bytes (length frame)
      then (success, take (whole_frames max_bytes unit) frame, s')
      else (success, frame, s')

  unfoldable pub read_frames : ℕ → ℕ → CaptureSession → Status × List ℕ × CaptureSession
  unfolding frame_bytes read_device
  read_frames max_bytes timeout_ms s =
      if s.is_closed
      then (closed_error C.base "capture" s, [], s)
      else if not s.stream.running
      then (unavailable ("audio capture stream is not running: " ++ s.stream.id), [], s)
      else if max_bytes == 0
      then (invalid_argument "audio read max_bytes is zero", [], s)
      else elim s.device [
        | none ↦ (success, replicate max_bytes 0, s)
        | some d ↦
            if frame_bytes s.stream == 0
            then (invalid_argument "audio capture frame size is zero", [], s)
            else read_device (frame_bytes s.stream) max_bytes timeout_ms d s
      ]
