-- ===== src/Net/Oop/Serialiser.antt =====
-- net/oop/Serialiser.hpp: a message as the bytes of its archive. What Boost.Serialization makes of a
-- message is the argument `archive`; reading a message back from its bytes is left to it.
use oodles.Prelude.{
  ℕ, ◌+◌, ◌-◌, ◌%◌, ◌^◌, true, false, not, ◌&&◌, List, [], ◌++◌, ltb, leb, if◌then◌else◌, length,
  take, drop,
}
use oodles.Net.Oop.Header.{Header, header_size, htonl, htons}

-- A message that is going out: `position` is how far its stream was read.
pub record Outgoing : Type 0 where
  pub header : Header
  pub stream : List ℕ
  pub position : ℕ

-- A message that is coming in: the stream has what was written into it.
pub record Incoming : Type 0 where
  pub header : Header
  pub stream : List ℕ

-- deconstruct; the body's size is a uint32_t.
abbrev pub deconstruct : ℕ → List ℕ → Outgoing
deconstruct id archive = record {
  header = record { body_size = length archive % 2 ^ 32; message_id = id; processed = false };
  stream = archive;
  position = 0;
}

-- Serialiser::create, which gets the size of the header that was read.
abbrev pub create : Header → Incoming
create h = record {
  header = record { body_size = h.body_size; message_id = h.message_id; processed = false };
  stream = [];
}

-- pending, before and after the stream was written; a size_t wraps around.
abbrev pub pending_out : Outgoing → ℕ
pending_out o = (o.header.body_size + 2 ^ 64 - o.position) % 2 ^ 64

abbrev pub pending_in : Incoming → ℕ
pending_in i = (i.header.body_size + 2 ^ 64 - length i.stream) % 2 ^ 64

abbrev pub at_most : ℕ → ℕ → ℕ
at_most max pending = if ltb pending max then pending else max

-- header2buffer into fresh bytes.
abbrev pub header_bytes : Header → List ℕ
header_bytes h = htonl ((header_size + h.body_size) % 2 ^ 32) ++ htons h.message_id

-- to_buffer: the bytes that it puts into the buffer.
unfoldable pub to_buffer : Outgoing → ℕ → List ℕ × Outgoing
to_buffer o max =
    let first = not o.header.processed && leb header_size max in
    let left = if first then max - header_size else max in
    let body = take (at_most left (pending_out o)) (drop o.position o.stream) in
    (
      if first then header_bytes o.header ++ body else body,
      record o {
        header = if first then record (o.header) { processed = true } else o.header;
        position = o.position + length body;
      },
    )

-- from_buffer: what is left of the buffer.
unfoldable pub from_buffer : Incoming → List ℕ → Incoming × List ℕ
from_buffer i buffer =
    let n = at_most (length buffer) (pending_in i) in
    (record i { stream = i.stream ++ take n buffer }, drop n buffer)
