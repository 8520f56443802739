-- ===== src/Tests.antt =====
-- The theorems at concrete inputs, with devices that a test can run.
mod Fixtures
mod Links
mod Bindings
mod Channels
mod Connections
mod Registries
mod Streams
mod Json
mod Controller
