-- ===== src/Audio/Service/Calls.antt =====
-- audio_service.cpp: the calls of AudioService on a session that is there.
use audio_studio.Prelude.{ℕ, String, List, [], ◌∷◌, ◌++◌, none, some}
use audio_studio.Framework.Status.{Status, Result, done, fail, unavailable}
use audio_studio.OrderedMap.{string_key, find, erase, assign, values}
use audio_studio.Audio.Device.{AudioDevice, AudioPlaybackDevice, AudioCaptureDevice}
use audio_studio.Audio.Stream.{AudioStream, AudioIoStats}
use audio_studio.Audio.Session.{Session, stop, close, snapshot, get_stats}
use audio_studio.Audio.Playback.{prepare_playback, start_playback, write_frames, drain}
use audio_studio.Audio.Capture.{prepare_capture, start_capture, read_frames}
use Prim.Native.String.{◌++◌ as ◌+++◌}
use audio_studio.Audio.Service.{Service}

module _ (P : AudioPlaybackDevice) (C : AudioCaptureDevice) where
  abbrev pub not_found : String → Status
  not_found id = unavailable ("audio stream not found: " +++ id)

  -- A call on the session of an id: the playback sessions are looked through first.
  unfoldable pub dispatch :
      (Session P.base → Status × Session P.base)
      → (Session C.base → Status × Session C.base)
      → String
      → Service P C
      → Status × Service P C
  dispatch play capture id s = elim (find id s.playback_sessions) [
    | some session ↦
        let (status, session') = play session in
        (status, record s { playback_sessions = assign id session' s.playback_sessions })
    | none ↦ elim (find id s.capture_sessions) [
      | some session ↦
          let (status, session') = capture session in
          (status, record s { capture_sessions = assign id session' s.capture_sessions })
      | none ↦ (not_found id, s)
    ]
  ]

  unfoldable pub prepare_stream : String → Service P C → Status × Service P C
  prepare_stream id s = dispatch (prepare_playback P) (prepare_capture C) id s

  unfoldable pub start_stream : String → Service P C → Status × Service P C
  start_stream id s = dispatch (start_playback P) (start_capture C) id s

  unfoldable pub stop_stream : String → Service P C → Status × Service P C
  stop_stream id s = dispatch (stop P.base) (stop C.base) id s

  unfoldable pub drain_stream : String → Service P C → Status × Service P C
  drain_stream id s = elim (find id s.playback_sessions) [
    | none ↦ (unavailable ("audio playback stream not found: " +++ id), s)
    | some session ↦
        let (status, session') = drain P session in
        (status, record s { playback_sessions = assign id session' s.playback_sessions })
  ]

  -- The session that was taken out, closed, for those who still hold it.
  pub data Removed : Type 0 where
    nothing : Removed
    playback : Session P.base → Removed
    capture : Session C.base → Removed

  unfoldable pub remove : String → Service P C → Status × Removed × Service P C
  remove id s = elim (find id s.playback_sessions) [
    | some session ↦
        let (status, session') = close P.base session in
        (
          status,
          Removed.playback session',
          record s { playback_sessions = erase id s.playback_sessions },
        )
    | none ↦ elim (find id s.capture_sessions) [
      | some session ↦
          let (status, session') = close C.base session in
          (
            status,
            Removed.capture session',
            record s { capture_sessions = erase id s.capture_sessions },
          )
      | none ↦ (not_found id, Removed.nothing, s)
    ]
  ]

  unfoldable pub get : String → Service P C → Result AudioStream
  get id s = elim (find id s.playback_sessions) [
    | some session ↦ done (snapshot P.base session)
    | none ↦ elim (find id s.capture_sessions) [
      | some session ↦ done (snapshot C.base session)
      | none ↦ fail (not_found id)
    ]
  ]

  unfoldable pub write_stream : String → List ℕ → ℕ → Service P C → Status × ℕ × Service P C
  write_stream id bytes timeout_ms s = elim (find id s.playback_sessions) [
    | none ↦ (unavailable ("audio playback stream not found: " +++ id), 0, s)
    | some session ↦
        let (status, accepted, session') = write_frames P bytes timeout_ms session in
        (status, accepted, record s { playback_sessions = assign id session' s.playback_sessions })
  ]

  unfoldable pub read_stream : String → ℕ → ℕ → Service P C → Status × List ℕ × Service P C
  read_stream id max_bytes timeout_ms s = elim (find id s.capture_sessions) [
    | none ↦ (unavailable ("audio capture stream not found: " +++ id), [], s)
    | some session ↦
        let (status, bytes, session') = read_frames C max_bytes timeout_ms session in
        (status, bytes, record s { capture_sessions = assign id session' s.capture_sessions })
  ]

  unfoldable pub stream_stats : String → Service P C → Result AudioIoStats
  stream_stats id s = elim (find id s.playback_sessions) [
    | some session ↦ done (get_stats P.base session)
    | none ↦ elim (find id s.capture_sessions) [
      | some session ↦ done (get_stats C.base session)
      | none ↦ fail (not_found id)
    ]
  ]

  pub snapshots : {D : AudioDevice} → List (Session D) → List AudioStream
  snapshots [] = []
  snapshots {D} (session ∷ sessions) = snapshot D session ∷ snapshots sessions

  unfoldable pub list : Service P C → List AudioStream
  unfolding snapshots
  list s = snapshots (values s.playback_sessions) ++ snapshots (values s.capture_sessions)
