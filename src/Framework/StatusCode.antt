-- ===== src/Framework/StatusCode.antt =====
-- server/framework/common/include/status.hpp: enum class StatusCode.
pub data StatusCode : Type 0 where
  ok invalid_argument unavailable internal : StatusCode
