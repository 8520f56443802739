-- ===== src/Rpc/Json/RoundTrip.antt =====
-- What `dump` writes, the parser reads.
pub mod Text
pub mod Number
pub mod Keys
pub mod WellFormed
pub mod Elements
pub mod Value
