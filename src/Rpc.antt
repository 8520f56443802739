-- ===== src/Rpc.antt =====
-- rpc: the binary frames of the RPC connection, its JSON values and its JSON-RPC endpoint.
pub mod Parsed
pub mod BinaryFrame
pub mod Json
pub mod TextFrame
pub mod Endpoint
pub mod Client
pub mod Params
pub mod ApiRegistry
pub mod RuntimeContext
