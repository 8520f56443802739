-- ===== src/Audio/Playback.antt =====
-- audio_service.cpp: AudioPlaybackSession.
use audio_studio.Prelude.{ℕ, List, length, not, ◌==◌, if◌then◌else◌}
use audio_studio.Framework.Status.{Status, success, unavailable, is_ok}
use audio_studio.Audio.Device.{AudioPlaybackDevice}
use audio_studio.Audio.Session.{Session, prepare, start, with_device, closed_error}
use Prim.Native.String.{◌++◌}

module _ (P : AudioPlaybackDevice) where
  abbrev pub PlaybackSession : Type 0
  PlaybackSession = Session P.base

  unfoldable pub prepare_playback : PlaybackSession → Status × PlaybackSession
  prepare_playback s = prepare P.base "playback" s

  unfoldable pub start_playback : PlaybackSession → Status × PlaybackSession
  start_playback s = start P.base "playback" s

  -- The status, the number of bytes accepted, and the session.
  unfoldable pub write_frames : List ℕ → ℕ → PlaybackSession → Status × ℕ × PlaybackSession
  write_frames frame timeout_ms s =
      if s.is_closed
      then (closed_error P.base "playback" s, 0, s)
      else if not s.stream.running
      then (unavailable ("audio playback stream is not running: " ++ s.stream.id), 0, s)
      else if length frame == 0
      then (success, 0, s)
      else let (status, s') = with_device P.base (P.write_frame frame timeout_ms) s in
        if is_ok status then (success, length frame, s') else (status, 0, s')

  unfoldable pub drain : PlaybackSession → Status × PlaybackSession
  drain s =
      if s.is_closed then (closed_error P.base "playback" s, s) else with_device P.base P.drain s
