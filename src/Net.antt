-- ===== src/Net.antt =====
-- net/: the networking code.
pub mod Oop
pub mod Http
