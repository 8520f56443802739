-- ===== src/Controller.antt =====
-- audio_controller: the device's end of the link, in C.
pub mod Bytes
pub mod LinkFrame
pub mod TransportFrame
pub mod Call
pub mod DataLink
pub mod RequestQueue
