-- ===== src/Net/Http.antt =====
-- net/http/: HTTP messages, the protocol over them, and the response codes.
pub mod ResponseCodes
pub mod Message
pub mod Protocol
