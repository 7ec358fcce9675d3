-- ===== src/Net/Oop.antt =====
-- net/oop/: the object-oriented protocol between scheduler and crawlers.
pub mod Factory
pub mod Messages
pub mod Header
pub mod Protocol
pub mod Serialiser
pub mod Transfer
