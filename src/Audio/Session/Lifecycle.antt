-- ===== src/Audio/Session/Lifecycle.antt =====
-- The states that a session can be in: a stream that runs is prepared, a closed session is neither,
-- and nothing opens it again.
use mathlib.Core.Option
use audio_studio.Prelude.{
  ℕ, ◌≤◌, ◌<◌, ◌≡◌, refl, ap, ◌∙◌, ◌*◌, ◌/◌, max, true, false, not, ◌&&◌, ◌||◌, List, [], length,
  Option, some, arith, if◌then◌else◌, length-take, length-replicate, inl, inr, Option-cases,
}
use audio_studio.Framework.Status.{Status, success, is_ok}
use audio_studio.Audio.Device.{AudioDevice, AudioPlaybackDevice, AudioCaptureDevice}
use audio_studio.Audio.Stream.{AudioStream}
use audio_studio.Audio.Session.{Session, new_session, prepare, start, stop, close, closed_error}
use audio_studio.Audio.Playback.{
  PlaybackSession, prepare_playback, start_playback, write_frames, drain,
}
use audio_studio.Audio.Capture.{CaptureSession, read_frames, read_device, whole_frames, frame_bytes}
use native.Mathlib.Nat.{div-mul-le_self, div-eq_of_lt}

-- The flags of a session: it runs only while it is prepared, and not once it is closed.
pub record IsConsistent (D : AudioDevice) (s : Session D) : Type 0 where
  pub runs_prepared : (s.stream.running && not s.stream.prepared) ≡ false
  pub closed_idle : (s.is_closed && s.stream.running) ≡ false

-- A call of a playback session.
pub data PlaybackCall : Type 0 where
  prepares : PlaybackCall
  starts : PlaybackCall
  writes : List ℕ → ℕ → PlaybackCall
  drains : PlaybackCall
  stops : PlaybackCall
  closes : PlaybackCall

whole_frames-le : (max_bytes unit : ℕ) → (max_bytes / unit) * unit ≤ max_bytes
whole_frames-le max_bytes unit = div-mul-le_self max_bytes unit

module _ (P : AudioPlaybackDevice) where
  pub play : PlaybackCall → PlaybackSession P → Status × PlaybackSession P
  play PlaybackCall.prepares s = prepare_playback P s
  play PlaybackCall.starts s = start_playback P s
  play (PlaybackCall.writes frame ms) s =
      let (status, _, s') = write_frames P frame ms s in (status, s')
  play PlaybackCall.drains s = drain P s
  play PlaybackCall.stops s = stop P.base s
  play PlaybackCall.closes s = close P.base s

  -- The states that calls lead to, from a session that was opened on a device or without one.
  pub data Reaches (first : PlaybackSession P) : PlaybackSession P → Type 0 where
    opened : Reaches first first
    called :
        (c : PlaybackCall) (s : PlaybackSession P) → Reaches first s → Reaches first (play c s).1

  play-IsConsistent :
      (c : PlaybackCall) (s : PlaybackSession P)
      → IsConsistent P.base s
      → IsConsistent P.base (play c s).1
  unfolding play prepare_playback start_playback prepare start write_frames drain stop close
  play-IsConsistent PlaybackCall.prepares s h = ground arith
  play-IsConsistent PlaybackCall.starts s h = ground arith
  play-IsConsistent (PlaybackCall.writes frame ms) s h = ground arith
  play-IsConsistent PlaybackCall.drains s h = ground arith
  play-IsConsistent PlaybackCall.stops s h = ground arith
  play-IsConsistent PlaybackCall.closes s h = ground arith

  -- Whatever calls a playback session gets, and whatever its device answers: it runs only while it
  -- is prepared, and it does not run once it is closed, when it is opened with a stream that is not
  -- running, or is running and prepared.
  pub reaches-IsConsistent :
      (stream : AudioStream) (device : Option P.base.State) (s : PlaybackSession P)
      → (stream.running && not stream.prepared) ≡ false
      → Reaches (new_session P.base stream device) s
      → IsConsistent P.base s
  unfolding new_session
  reaches-IsConsistent stream device _ h Reaches.opened = ground arith
  reaches-IsConsistent stream device _ h (Reaches.called c s before) =
      play-IsConsistent c s (reaches-IsConsistent stream device s h before)

  play-closed : (c : PlaybackCall) (s : PlaybackSession P) → s.is_closed ≡ true → (play c s).1 ≡ s
  unfolding play prepare_playback start_playback prepare start write_frames drain stop close
  play-closed PlaybackCall.prepares s h = ground arith
  play-closed PlaybackCall.starts s h = ground arith
  play-closed (PlaybackCall.writes frame ms) s h = ground arith
  play-closed PlaybackCall.drains s h = ground arith
  play-closed PlaybackCall.stops s h = ground arith
  play-closed PlaybackCall.closes s h = ground arith

  reaches-same : (s t : PlaybackSession P) → s.is_closed ≡ true → Reaches s t → t ≡ s
  reaches-same s _ h Reaches.opened = refl
  reaches-same s _ h (Reaches.called c u before) =
      let same = reaches-same s u h before in
      play-closed c u (ap (λ (t : PlaybackSession P). t.is_closed) same ∙ h) ∙ same

  play-idle :
      (c : PlaybackCall) (s : PlaybackSession P)
      → (s.is_closed && (s.stream.running || s.stream.prepared)) ≡ false
      → let t = (play c s).1 in (t.is_closed && (t.stream.running || t.stream.prepared)) ≡ false
  unfolding play prepare_playback start_playback prepare start write_frames drain stop close
  play-idle PlaybackCall.prepares s h = ground arith
  play-idle PlaybackCall.starts s h = ground arith
  play-idle (PlaybackCall.writes frame ms) s h = ground arith
  play-idle PlaybackCall.drains s h = ground arith
  play-idle PlaybackCall.stops s h = ground arith
  play-idle PlaybackCall.closes s h = ground arith

  reaches-idle :
      (stream : AudioStream) (device : Option P.base.State) (s : PlaybackSession P)
      → Reaches (new_session P.base stream device) s
      → (s.is_closed && (s.stream.running || s.stream.prepared)) ≡ false
  unfolding new_session
  reaches-idle stream device _ Reaches.opened = refl
  reaches-idle stream device _ (Reaches.called c s before) =
      play-idle c s (reaches-idle stream device s before)

  close-is_closed : (s : PlaybackSession P) → (close P.base s).1.is_closed ≡ true
  unfolding close
  close-is_closed s = ground arith

  -- Once `close` was called on a playback session, whatever was called before and is called after,
  -- the session is as that call left it, its device included: it is closed, neither running nor
  -- prepared. Its device is what the driver's `close` makes of it, where the session was open.
  -- `prepare`, `start`, `drain` and `writeFrames` are refused with UNAVAILABLE, the last with 0 bytes
  -- accepted; `stop` and `close` succeed and change nothing.
  pub reaches-closed :
      (stream : AudioStream) (device : Option P.base.State) (s t : PlaybackSession P)
      (frame : List ℕ) (ms : ℕ)
      → Reaches (new_session P.base stream device) s
      → Reaches (close P.base s).1 t
      → let refused = closed_error P.base "playback" t in
        (t ≡ (close P.base s).1)
        × (t.is_closed ≡ true)
        × ((t.stream.running || t.stream.prepared) ≡ false)
        × (t.device ≡ (if s.is_closed then s.device else Option.map P.base.close s.device))
        × (prepare_playback P t ≡ (refused, t))
        × (start_playback P t ≡ (refused, t))
        × (drain P t ≡ (refused, t))
        × (write_frames P frame ms t ≡ (refused, 0, t))
        × (stop P.base t ≡ (success, t))
        × (close P.base t ≡ (success, t))
  unfolding prepare_playback start_playback prepare start write_frames drain stop close
  reaches-closed stream device s t frame ms before after =
      let shut : PlaybackSession P = (close P.base s).1 in
      let same : t ≡ shut = reaches-same shut t (close-is_closed s) after in
      let closed : shut.is_closed ≡ true = close-is_closed s in
      rw same (ground (arith, reaches-idle stream device s before))

module _ (C : AudioCaptureDevice) where
  -- `readFrames` never gives more than `max_bytes`, whatever size the driver leaves the frame at,
  -- and gives nothing unless it succeeds; it succeeds only on a session that runs and is not closed,
  -- and changes nothing of the session but its device.
  pub read_frames-length :
      (max_bytes timeout_ms : ℕ) (s : CaptureSession C)
      → let (status, bytes, t) = read_frames C max_bytes timeout_ms s in
        (length bytes ≤ (if is_ok status then max_bytes else 0))
        × (is_ok status ≡ is_ok status && (s.stream.running && not s.is_closed))
        × (t.stream ≡ s.stream)
        × (t.is_closed ≡ s.is_closed)
  unfolding read_frames read_device
  read_frames-length max_bytes timeout_ms s =
      let unit : ℕ = frame_bytes s.stream in
      let aligned : ℕ = max unit (whole_frames C max_bytes unit) in
      elim (Option-cases s.device) [
        | inl absent ↦ ground (arith, length-replicate {0} {A = ℕ} max_bytes 0)
        | inr (d, present) ↦ ground (
          arith,
          length-take {0} (whole_frames C max_bytes unit) (C.read_frame aligned timeout_ms d).1,
          whole_frames-le max_bytes unit,
        )
      ]

  -- A read of fewer bytes than one frame takes a whole frame from the driver and gives none of it:
  -- the call succeeds with no bytes, and the driver's state is the one after the read.
  pub read_frames-short :
      (max_bytes timeout_ms : ℕ) (s : CaptureSession C) (d : C.base.State)
      → s.is_closed ≡ false
      → s.stream.running ≡ true
      → s.device ≡ some d
      → 0 < max_bytes
      → max_bytes < frame_bytes s.stream
      → is_ok (C.read_frame (frame_bytes s.stream) timeout_ms d).0 ≡ true
      → max_bytes < length (C.read_frame (frame_bytes s.stream) timeout_ms d).1
      → read_frames C max_bytes timeout_ms s ≡ (
        success,
        [],
        record s { device = some (C.read_frame (frame_bytes s.stream) timeout_ms d).2 },
      )
  unfolding read_frames read_device
  read_frames-short max_bytes timeout_ms s d usable runs present some_bytes short ok long =
      let unit : ℕ = frame_bytes s.stream in
      let none_fit : max_bytes / unit ≡ 0 = div-eq_of_lt short in
      let no_frame : whole_frames C max_bytes unit ≡ 0 = rw none_fit (omega arith) in
      let aligned : max unit (whole_frames C max_bytes unit) ≡ unit = omega arith in ground arith
