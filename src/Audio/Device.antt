-- ===== src/Audio/Device.antt =====
-- drivers/audio/include/audio_device.hpp: the driver interface, with each call as a function on
-- a state of the driver's own, and the registry of driver factories.
use audio_studio.Prelude.{ℕ, String, Bool, List, Option, none, some, if◌then◌else◌}
use audio_studio.Prelude.Texts.{is_empty}
use audio_studio.Framework.Status.{Status, success, invalid_argument, unavailable}
use audio_studio.OrderedMap.{OrderedMap, string_key, find, emplace, has}
use Prim.Native.String.{◌++◌}

pub record AudioOpenParams : Type 0 where
  pub device_name : String
  pub blocking_write : Bool
  pub options : OrderedMap String String

pub record AudioStreamParams : Type 0 where
  pub sample_rate : ℕ
  pub channels : ℕ
  pub bytes_per_sample : ℕ

pub record AudioStreamStats : Type 0 where
  pub frames_written : ℕ
  pub frames_read : ℕ
  pub running : Bool

-- The calls that playback and capture devices share.
pub record AudioDevice : Type 1 where
  pub State : Type 0
  pub prepare : AudioStreamParams → State → Status × State
  pub start : State → Status × State
  pub stop : State → Status × State
  pub close : State → State
  pub get_stats : State → AudioStreamStats

-- `IAudioPlaybackDevice`
pub record AudioPlaybackDevice : Type 1 where
  pub base : AudioDevice
  pub write_frame : List ℕ → ℕ → base.State → Status × base.State
  pub drain : base.State → Status × base.State

-- `IAudioCaptureDevice`: `read_frame` takes the size of the frame that it is to fill and gives
-- the frame back, whose size the driver may have changed.
pub record AudioCaptureDevice : Type 1 where
  pub base : AudioDevice
  pub read_frame : ℕ → ℕ → base.State → Status × List ℕ × base.State

-- A factory's `create`: the status, and the device if it made one.
abbrev pub Factory : AudioDevice → Type 0
Factory D = AudioOpenParams → Status × Option D.State

-- The factories of one direction; `kind` is `playback` or `capture`.
abbrev pub Factories : AudioDevice → Type 0
Factories D = OrderedMap String (Factory D)

module _ (D : AudioDevice) (kind : String) where
  unfoldable pub register_factory : String → Factory D → Factories D → Status × Factories D
  register_factory name factory fs =
      if is_empty name
      then (invalid_argument ("audio " ++ (kind ++ " factory name is empty")), fs)
      else if has name fs
      then (invalid_argument ("audio " ++ (kind ++ (" factory already registered: " ++ name))), fs)
      else (success, emplace name factory fs)

  unfoldable pub has_factory : String → Factories D → Bool
  has_factory name fs = has name fs

  unfoldable pub create_device : String → AudioOpenParams → Factories D → Status × Option D.State
  create_device name params fs = elim (find name fs) [
    | none ↦ (unavailable ("audio " ++ (kind ++ (" factory not registered: " ++ name))), none)
    | some factory ↦ factory params
  ]
