-- ===== src/Audio.antt =====
-- server/framework/audio: playback and capture sessions on a driver, and the service that keeps
-- them by stream id.
pub mod Device
pub mod Stream
pub mod Session
pub mod Playback
pub mod Capture
pub mod Service
