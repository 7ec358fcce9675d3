-- ===== src/Net/Oop/Protocol/Tests.antt =====
-- net/oop/Protocol.cpp: two messages in the send buffer.
use oodles.Prelude.{◌+◌, ◌≡◌, false, List, [], ◌∷◌, ◌++◌, arith}
use oodles.Net.Oop.Header.{Header}
use oodles.Net.Oop.Protocol.{
  Protocol, bytes_transferred, total, Waits, bytes_transferred-prefix, bytes_transferred-twice,
}

abbrev registration_header : Header
registration_header = record { body_size = 300; message_id = 10; processed = false }

abbrev report_header : Header
report_header = record { body_size = 20; message_id = 12; processed = false }

abbrev sending : Protocol
sending = record { buffered_messages = registration_header ∷ report_header ∷ []; transferred = 5 }

bytes_transferred-prefix_example :
    (done : List Header) × (sending.buffered_messages
      ≡ done ++ (bytes_transferred sending 310).buffered_messages)
    × (sending.transferred + 310 ≡ total done + (bytes_transferred sending 310).transferred)
    × Waits
        (bytes_transferred sending 310).buffered_messages
        (bytes_transferred sending 310).transferred
bytes_transferred-prefix_example =
    bytes_transferred-prefix sending 310 (omega arith) (omega arith)
      (omega arith, (omega arith, tt))

bytes_transferred-twice_run :
    bytes_transferred (bytes_transferred sending 310) 3 ≡ bytes_transferred sending 313
bytes_transferred-twice_run =
    bytes_transferred-twice sending 310 3 (omega arith) (omega arith) (omega arith)
