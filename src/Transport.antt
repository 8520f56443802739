-- ===== src/Transport.antt =====
-- server/framework/transport: frames, the data link's stop-and-wait protocol, and channels.
pub mod Frame
pub mod DataLinkFrame
pub mod DataLink
pub mod Channel
pub mod Manager
