-- ===== src/Net/Http/Message.antt =====
-- net/http/Message.cpp: an HTTP message and its headers.
pub mod Keys
pub mod Headers
pub mod Reading
pub mod Writing
pub mod Lost
pub mod StartLine
mod Tests
