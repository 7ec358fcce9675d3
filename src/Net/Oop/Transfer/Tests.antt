-- ===== src/Net/Oop/Transfer/Tests.antt =====
-- net/oop/Protocol.cpp: runs of both directions.
use oodles.Prelude.{◌≡◌, refl, true, none, [], ◌∷◌, ◌++◌, arith, bytes}
use oodles.Url.Parser.Scan.{done, undefined}
use oodles.Net.Oop.Header.{buffer2header}
use oodles.Net.Oop.Serialiser.{deconstruct, to_buffer, from_buffer}
use oodles.Net.Oop.Transfer.{Connection, message2buffer, buffer2message}
use oodles.Net.Oop.Transfer.Wire.{header_of, wire, sent, buffer2message-message2buffer}

abbrev idle : Connection
idle = record {
  incoming = none;
  inbound_messages = [];
  outbound_messages = [];
  buffered_messages = [];
}

abbrev one_waiting : Connection
one_waiting = record idle { outbound_messages = deconstruct 1 (bytes "abc") ∷ [] }

-- When the last message fills the buffer exactly, the loop goes on to the front of the empty queue.
filled_exactly : message2buffer 5 one_waiting 9 ≡ undefined
unfolding message2buffer to_buffer
filled_exactly = refl

-- In a buffer without room for the header the body goes out first.
body_before_header : (to_buffer (deconstruct 1 (bytes "abc")) 2).0 ≡ bytes "ab"
unfolding to_buffer
body_before_header = refl

-- A second message in the same buffer is read as well, and the first bytes of a third are left.
two_messages :
    buffer2message 5 (λ id. true) idle (wire 1 (bytes "abc") ++ (wire 2 [] ++ bytes "xy"))
    ≡ done (
      bytes "xy",
      record idle {
        inbound_messages =
            record { header = header_of 1 (bytes "abc"); stream = bytes "abc" }
            ∷ record { header = header_of 2 []; stream = [] }
            ∷ [];
      },
    )
unfolding buffer2message buffer2header from_buffer
two_messages = refl

buffer2message-message2buffer_example :
    (message2buffer 1 one_waiting 100
      ≡ done (wire 1 (bytes "abc"), record idle { buffered_messages = sent 1 (bytes "abc") ∷ [] }))
    × (buffer2message 1 (λ id. true) idle (wire 1 (bytes "abc"))
        ≡ done (
          [],
          record idle {
            inbound_messages =
                record { header = header_of 1 (bytes "abc"); stream = bytes "abc" } ∷ [];
          },
        ))
buffer2message-message2buffer_example =
    buffer2message-message2buffer 0 100 1 (bytes "abc") [] one_waiting idle (λ id. true) refl refl
      refl (omega arith) (omega arith) (omega arith)
