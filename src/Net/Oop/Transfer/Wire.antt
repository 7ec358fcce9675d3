-- ===== src/Net/Oop/Transfer/Wire.antt =====
-- net/oop/Protocol.cpp: one message over the wire.
use oodles.Prelude.{
  ap, ap₂, ◌∙◌, ℕ, suc, ◌+◌, ◌-◌, ◌%◌, ◌^◌, ◌<◌, ◌≡◌, refl, Bool, true, false, none, List, [], ◌∷◌,
  ◌++◌, ltb, leb, ◌==◌, length, take, drop, arith,
}
use oodles.Url.Parser.Scan.{done}
use oodles.Url.Parser.Scan.Bounds.{take_all}
use oodles.Net.Oop.Header.{Header, header_size, buffer2header, ntohl-htonl, ntohs-htons, body_back}
use oodles.Net.Oop.Serialiser.{
  Outgoing, deconstruct, pending_out, pending_in, header_bytes, to_buffer, from_buffer,
}
use oodles.Net.Oop.Transfer.{
  Connection, fill_loop, message2buffer, incoming_message, drain_loop, buffer2message,
}

abbrev pub header_of : ℕ → List ℕ → Header
header_of id archive = record { body_size = length archive; message_id = id; processed = false }

-- The bytes of a message on the wire.
abbrev pub wire : ℕ → List ℕ → List ℕ
wire id archive = header_bytes (header_of id archive) ++ archive

drop_whole : (xs : List ℕ) → drop (length xs) xs ≡ []
drop_whole [] = refl
drop_whole (x ∷ xs) = drop_whole xs

abbrev pub sent : ℕ → List ℕ → Outgoing
sent id archive = record {
  header = record { body_size = length archive; message_id = id; processed = true };
  stream = archive;
  position = length archive;
}

to_buffer-deconstruct :
    (id max : ℕ) (archive : List ℕ)
    → length archive < 2 ^ 32
    → header_size + length archive < max
    → to_buffer (deconstruct id archive) max ≡ (wire id archive, sent id archive)
unfolding to_buffer
to_buffer-deconstruct id max archive s l =
    let first : leb header_size max ≡ true = ground arith in
    let size : length archive % 2 ^ 32 ≡ length archive = omega arith in
    let left : (length archive + 2 ^ 64 - 0) % 2 ^ 64 ≡ length archive = omega arith in
    let room : ltb (length archive) (max - header_size) ≡ true = ground arith in
    let all : take (length archive) archive ≡ archive =
      take_all (length archive) archive (omega arith) in
    let z : 0 + length archive ≡ length archive = omega arith in
    rw (first, size, left, room, all, z)

buffer2header-wire :
    (id : ℕ) (archive : List ℕ)
    → length archive < 2 ^ 32
    → id < 2 ^ 16
    → buffer2header (wire id archive)
      ≡ record { body_size = length archive; message_id = id; processed = true }
unfolding buffer2header
buffer2header-wire id archive s i =
    ap₂ (λ b m. record { body_size = b; message_id = m; processed = true })
      (ap (λ b. (b + 2 ^ 32 - 6) % 2 ^ 32)
          (ntohl-htonl ((6 + length archive) % 2 ^ 32) (omega arith))
        ∙ body_back (length archive) s)
      (ntohs-htons id i)

from_buffer-create :
    (id : ℕ) (archive : List ℕ)
    → length archive < 2 ^ 32
    → from_buffer (record { header = header_of id archive; stream = [] }) archive
      ≡ (record { header = header_of id archive; stream = archive }, [])
unfolding from_buffer
from_buffer-create id archive s =
    let left : (length archive + 2 ^ 64 - 0) % 2 ^ 64 ≡ length archive = omega arith in
    let room : ltb (length archive) (length archive) ≡ false = ground arith in
    let all : take (length archive) archive ≡ archive =
      take_all (length archive) archive (omega arith) in
    rw (left, room, all, drop_whole archive)

message2buffer-wire :
    (fuel max id : ℕ) (archive : List ℕ) (ms : List Outgoing) (p : Connection)
    → p.outbound_messages ≡ deconstruct id archive ∷ ms
    → length archive < 2 ^ 32
    → header_size + length archive < max
    → message2buffer (suc fuel) p max
      ≡ done (
        wire id archive,
        record p {
          outbound_messages = ms;
          buffered_messages = p.buffered_messages ++ sent id archive ∷ [];
        },
      )
unfolding message2buffer fill_loop
message2buffer-wire fuel max id archive ms p e s l =
    let t = to_buffer-deconstruct id max archive s l in
    let t0 = ap (λ r. r.0) t in
    let t1 = ap (λ r. r.1) t in
    let room : (max == 0) ≡ false = ground arith in
    let over : (pending_out (sent id archive) == 0) ≡ true = ground arith in
    let more : ltb 0 (max - length (wire id archive)) ≡ true = ground arith in
    rw (room, e, fill_loop, t1, over, t0, more, t1, t0)

buffer2message-wire :
    (fuel id : ℕ) (archive : List ℕ) (q : Connection) (enrolled : ℕ → Bool)
    → q.incoming ≡ none
    → enrolled id ≡ true
    → id < 2 ^ 16
    → length archive < 2 ^ 32
    → buffer2message (suc fuel) enrolled q (wire id archive)
      ≡ done (
        [],
        record q {
          incoming = none;
          inbound_messages =
              q.inbound_messages ++ record { header = header_of id archive; stream = archive } ∷ [];
        },
      )
unfolding buffer2message drain_loop incoming_message
buffer2message-wire fuel id archive q enrolled o k i s =
    let h = buffer2header-wire id archive s i in
    let f = from_buffer-create id archive s in
    let f0 = ap (λ r. r.0) f in
    let f1 = ap (λ r. r.1) f in
    let long : ltb (length (wire id archive)) header_size ≡ false = ground arith in
    let over : (pending_in (record { header = header_of id archive; stream = archive }) == 0)
        ≡ true =
      ground arith in
    rw (drain_loop, incoming_message, o, long, h, k, f0, over, f1, f0, f1)

-- A message that is sent with room to spare in the buffer is all that message2buffer puts there, and
-- from these bytes buffer2message, with no message begun, gets one message with the same id and
-- archive: for an archive shorter than 2^32 bytes and a 16-bit id that is enrolled.
pub buffer2message-message2buffer :
    (fuel max id : ℕ) (archive : List ℕ) (ms : List Outgoing) (p q : Connection)
    (enrolled : ℕ → Bool)
    → p.outbound_messages ≡ deconstruct id archive ∷ ms
    → q.incoming ≡ none
    → enrolled id ≡ true
    → id < 2 ^ 16
    → length archive < 2 ^ 32
    → header_size + length archive < max
    → (message2buffer (suc fuel) p max
        ≡ done (
          wire id archive,
          record p {
            outbound_messages = ms;
            buffered_messages = p.buffered_messages ++ sent id archive ∷ [];
          },
        ))
      × (buffer2message (suc fuel) enrolled q (wire id archive)
          ≡ done (
            [],
            record q {
              incoming = none;
              inbound_messages =
                  q.inbound_messages
                  ++ record { header = header_of id archive; stream = archive } ∷ [];
            },
          ))
buffer2message-message2buffer fuel max id archive ms p q enrolled e o k i s l = (
  message2buffer-wire fuel max id archive ms p e s l,
  buffer2message-wire fuel id archive q enrolled o k i s,
)
