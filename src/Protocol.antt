-- ===== src/Protocol.antt =====
-- The RESP protocol (src/astra/protocol/resp) and the byte search under its parser
-- (src/astra/base/simd_utils.hpp).
pub mod Types
pub mod FindCrlf
pub mod Builder
pub mod Parser
