-- ===== src/Url/Parser.antt =====
-- url/Parser.cpp: the parser of a URL, one character or one part at a time.
pub mod Scan
pub mod Tokens
pub mod Query
pub mod Normalise
pub mod Machine
mod Tests
