-- ===== src/Audio/Stream.antt =====
-- server/framework/audio/include/audio_service.hpp: streams, and the casts of their `int` fields.
use audio_studio.Prelude.{ℕ, ◌-◌, ◌%◌, ◌^◌, String, Bool, false, ltb}
use audio_studio.Audio.Device.{AudioStreamParams}

-- `int`
pub data ℤ : Type 0 where
  pos : ℕ → ℤ
  negsuc : ℕ → ℤ

-- `static_cast` to an unsigned integer below `modulus`.
abbrev pub cast_unsigned : ℕ → ℤ → ℕ
cast_unsigned modulus (ℤ.pos n) = n % modulus
cast_unsigned modulus (ℤ.negsuc n) = (modulus - 1) - n % modulus

abbrev pub is_positive : ℤ → Bool
is_positive (ℤ.pos n) = ltb 0 n
is_positive (ℤ.negsuc n) = false

pub data StreamDirection : Type 0 where
  playback : StreamDirection
  capture : StreamDirection

pub record AudioStream : Type 0 where
  pub id : String
  pub direction : StreamDirection
  pub driver_factory : String
  pub device_name : String
  pub sample_rate : ℤ
  pub channels : ℤ
  pub bytes_per_sample : ℤ
  pub blocking_write : Bool
  pub prepared : Bool
  pub running : Bool

pub record AudioIoStats : Type 0 where
  pub frames_written : ℕ
  pub frames_read : ℕ
  pub running : Bool

-- `streamParamsLocked`
unfoldable pub stream_params : AudioStream → AudioStreamParams
stream_params stream = record {
  sample_rate = cast_unsigned (2 ^ 32) stream.sample_rate;
  channels = cast_unsigned (2 ^ 16) stream.channels;
  bytes_per_sample = cast_unsigned (2 ^ 16) stream.bytes_per_sample;
}
