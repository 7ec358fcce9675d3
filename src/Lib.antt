-- ===== src/Lib.antt =====
-- oodles: a crawler and its scheduler, which talk through typed messages over TCP.
--
-- Parts and files.
--   Prelude stands for no code: names of the libraries, Boolean tests, lists.
--   Utility/BitSet models utility/BitSet.cpp, a set of numbers with ranks, which the message factory
--   (Net/Oop/Factory, net/oop/Factory.cpp) and the HTTP response codes (Net/Http/ResponseCodes,
--   net/http/ResponseCodes.cpp) use to place an entry in a vector; Utility/BitSet/Registry holds what
--   the two share. Utility/Bits is about binary digits only.
--   Utility/Chunk models utility/Chunk.cpp, the allocator of small blocks; Ownership runs it.
--   Utility/Events models utility/Event.cpp, Subscriber.cpp and Publisher.cpp on a store of both kinds
--   of object, and Utility/Hash the FNV hash of utility/hash.cpp.
--   Url models url/Parser.hpp (Attributes), url/Iterator.cpp and url/TreeIterator.cpp. An iterator's
--   pointer is a Place in the attributes. TreeIterator/Moves has its single moves. Url/Ids models the
--   ids and the printing of url/URL.cpp. Url/Parser models url/Parser.cpp: Scan its searches and
--   conversions, Tokens and Query its tokenisers, Normalise the components of a path, Machine the loop
--   of parse; RoundTrip joins it to Url/Ids through Phases, one lemma for each part of a URL.
--   Net/Oop/Serialiser models the streams of net/oop/Serialiser.hpp, and Net/Oop/Transfer the rest of
--   net/oop/Protocol.cpp; Wire sends a message through both ends.
--   Net/Http/Message models net/http/Message.cpp: Keys the comparison of headers, Headers the state,
--   Writing and Reading the two directions. Net/Http/Protocol models net/http/Protocol.cpp.
--   Net/Oop/Messages and Net/Oop/Header model net/oop/Messages.hpp and the header of
--   net/oop/Message.cpp.
--   Sched/Session models sched/Session.cpp with its garbage collector, and Steps runs it beside the
--   events of sched/DeferredUpdate.cpp; Crawl/Session models crawl/Session.cpp.
--   Dialogue joins the two sessions by two streams that keep the order of messages.
--   Net/Oop/Protocol models bytes_transferred of net/oop/Protocol.cpp, Sched/Crawler models
--   sched/Crawler.cpp (WorkUnit and Rank prove), Utility/IndexedSet models utility/IndexedSet.ipp.
--   Utility/Tree models the tree of utility/Node.ipp and Tree.ipp on a store of numbered nodes: Children
--   has one child found or added, Paths what a path of values leads to, Insertion whole paths.
--   Utility/ChunkManager models utility/ChunkManager.cpp over Utility/Chunk: Find its search, Deallocate
--   the way back; Utility/Linker utility/Linker.cpp, Utility/BreadCrumbTrail the trail of a traversal.
--   Sched/Node models sched/Node.cpp and PageData.cpp over any arithmetic of double, Sched/Scheduler the
--   walk of sched/Scheduler.cpp, Work its fill_crawler and run over any queue, Updates the scheduling of
--   a URL and the update of a page; Sched/DeferredUpdate models sched/DeferredUpdate.cpp, Publishing
--   its events and Unassigned its new URLs. Search,
--   Traversal, Rounds and Filling follow the walk, Cleaning its undoing.
--
-- State and errors. A method that changes its object is a function from the old state to the new
-- one, beside its result. A failed assertion or a NULL is `none`, a thrown exception is a result.
-- An Outcome, of the parser, HTTP, the scheduler's updates and the deferred ones, tells them apart.
-- Bytes, sizes and ids are native numbers, with the wrap-around of their C++ types written out where
-- an operation can reach it.
--
-- Fuel. An increment of an iterator asks for another move at most three times, so `recalls` is 4; a
-- loop over an iterator takes its fuel as an argument, and the theorems say how much is enough. The
-- loop of fetches in crawl/Session.cpp takes any fuel. The parser's loops take fuel from the length of
-- the text, and parse-exhausted shows that it is enough; those of the HTTP protocol take any fuel.
-- The fuel of a traversal of the scheduler's tree is bounded by `enough`, that of fill_crawler by
-- `room`, and that of the search for a chunk by the number of chunks.
--
-- Not modelled: net/core (Boost.Asio), the archives of Boost.Serialization, html (Boost.Spirit), the
-- programs, the dispatcher's threads, whose events run one at a time here in any order; the
-- printing of a tree, its traversals for visit(), which does nothing, and the contexts. What a
-- session asks of its context, scheduler or crawler is recorded as data; what read() and write() do
-- with a body's file is a parameter.
pub mod Crawl
pub mod Dialogue
pub mod Net
pub mod Prelude
pub mod Sched
pub mod Url
pub mod Utility
