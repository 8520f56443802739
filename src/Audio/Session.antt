-- ===== src/Audio/Session.antt =====
-- audio_service.cpp: what AudioPlaybackSession and AudioCaptureSession have in common. `kind` is
-- the word that the messages of one of them use. A call runs under the session's mutex, so it is
-- one step from state to state.
pub mod Lifecycle
use audio_studio.Prelude.{ℕ, String, Bool, true, false, List, Option, none, some, if◌then◌else◌}
use audio_studio.Framework.Status.{Status, success, unavailable, is_ok}
use audio_studio.Audio.Device.{AudioDevice}
use audio_studio.Audio.Stream.{AudioStream, AudioIoStats, stream_params}
use Prim.Native.String.{◌++◌}

pub record Session (D : AudioDevice) : Type 0 where
  pub stream : AudioStream
  pub device : Option D.State
  pub is_closed : Bool

module _ (D : AudioDevice) where
  unfoldable pub new_session : AudioStream → Option D.State → Session D
  new_session stream device = record { stream = stream; device = device; is_closed = false }

  -- `if (device_) ...`: a session without a device goes on as if the call had succeeded.
  abbrev pub with_device : (D.State → Status × D.State) → Session D → Status × Session D
  with_device call s = elim s.device [
    | none ↦ (success, s)
    | some d ↦ let (status, d') = call d in (status, record s { device = some d' })
  ]

  -- `if (!status.ok()) return status;`
  abbrev pub and_then : Status × Session D → (Session D → Status × Session D) → Status × Session D
  and_then (status, s) f = if is_ok status then f s else (status, s)

  abbrev pub set_prepared : Bool → Session D → Session D
  set_prepared b s = record s { stream = record s.stream { prepared = b } }

  abbrev pub set_running : Bool → Session D → Session D
  set_running b s = record s { stream = record s.stream { running = b } }

  abbrev pub closed_error : String → Session D → Status
  closed_error kind s = unavailable ("audio " ++ (kind ++ (" session is closed: " ++ s.stream.id)))

  abbrev pub prepare_device : Session D → Status × Session D
  prepare_device s =
      and_then (with_device (D.prepare (stream_params s.stream)) s)
        λ s. (success, set_prepared true s)

  unfoldable pub prepare : String → Session D → Status × Session D
  prepare kind s =
      if s.is_closed
      then (closed_error kind s, s)
      else if s.stream.prepared
      then (success, s)
      else prepare_device s

  unfoldable pub start : String → Session D → Status × Session D
  start kind s =
      if s.is_closed
      then (closed_error kind s, s)
      else and_then (if s.stream.prepared then (success, s) else prepare_device s)
          λ s. and_then (with_device D.start s) λ s. (success, set_running true s)

  unfoldable pub stop : Session D → Status × Session D
  stop s =
      if s.is_closed
      then (success, s)
      else and_then (with_device D.stop s) λ s. (success, set_running false s)

  abbrev pub shut_device : Option D.State → Option D.State
  shut_device none = none
  shut_device (some d) = some (D.close d)

  unfoldable pub close : Session D → Status × Session D
  close s = if s.is_closed then (success, s) else (
    success,
    record s {
      stream = record s.stream { running = false; prepared = false };
      device = shut_device s.device;
      is_closed = true;
    },
  )

  unfoldable pub snapshot : Session D → AudioStream
  snapshot s = s.stream

  unfoldable pub get_stats : Session D → AudioIoStats
  get_stats s = elim s.device [
    | none ↦ record { frames_written = 0; frames_read = 0; running = s.stream.running }
    | some d ↦
        let stats = D.get_stats d in
        record {
          frames_written = stats.frames_written;
          frames_read = stats.frames_read;
          running = stats.running;
        }
  ]
