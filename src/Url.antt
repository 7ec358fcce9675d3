-- ===== src/Url.antt =====
-- url/: the parts of a URL (Parser.hpp), and the iterators over them.
pub mod Attributes
pub mod Iterator
pub mod TreeIterator
pub mod Ids
pub mod Parser
