-- ===== src/Net/Http/Protocol/Tests.antt =====
-- net/http/Protocol.cpp: runs of bytes_transferred.
use oodles.Prelude.{◌≡◌, refl, false, none, [], ◌∷◌, arith}
use oodles.Url.Parser.Scan.{done, exhausted}
use oodles.Net.Http.Message.Headers.{HttpMessage, empty_message}
use oodles.Net.Http.Protocol.{HttpProtocol, bytes_transferred}
use oodles.Net.Http.Protocol.Retiring.{bytes_transferred-stalls, bytes_transferred-whole}

abbrev ten_bytes : HttpMessage
ten_bytes = empty_message false 10

abbrev two_buffered : HttpProtocol
two_buffered = record {
  incoming = none;
  transferred = 0;
  response_fds = [];
  inbound_messages = [];
  outbound_messages = [];
  buffered_messages = ten_bytes ∷ ten_bytes ∷ [];
}

bytes_transferred-stalls_example : bytes_transferred 9 two_buffered 4 ≡ exhausted
bytes_transferred-stalls_example =
    bytes_transferred-stalls 9 4 two_buffered ten_bytes (ten_bytes ∷ []) refl (omega arith)
      (omega arith) (omega arith)

bytes_transferred-whole_example :
    bytes_transferred 2 two_buffered 20
    ≡ done (record two_buffered { buffered_messages = []; transferred = 0 })
bytes_transferred-whole_example =
    bytes_transferred-whole 2 20 two_buffered ten_bytes (ten_bytes ∷ []) [] refl refl (omega arith)
      (omega arith) (omega arith) (omega arith)
