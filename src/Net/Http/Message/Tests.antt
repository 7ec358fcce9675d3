-- ===== src/Net/Http/Message/Tests.antt =====
-- net/http/Message.cpp: runs of a message.
use oodles.Prelude.{
  ◌≡◌, refl, true, false, [], ◌∷◌, ◌++◌, length, bytes, arith, ◌+◌, ◌==◌, if◌then◌else◌, take, drop,
  get_or,
}
use oodles.Url.Parser.Scan.{done, undefined}
use oodles.Net.Http.Message.Keys.{no_header, lower_bound, case_less, case_equal}
use oodles.Net.Http.Message.Headers.{
  HttpMessage, inbound, outbound, empty_message, request, add_header, find_header, expected,
  pending, add_header_lem, find_header_lem, pending-first_buffer, pending_lem,
}
use oodles.Net.Http.Message.Writing.{write_headers, write_start_line, start_line_size, crlf}
use oodles.Net.Http.Message.Lost.{write_headers-lost}
use oodles.Net.Http.Message.Reading.{read, from_buffer, read_start_line}
use oodles.Net.Http.Message.StartLine.{read_start_line-write_start_line}

abbrev one_header : HttpMessage
one_header =
    (add_header (request (empty_message false 0) (bytes "GET") (bytes "/")) (bytes "host")
      (bytes "a")).0

abbrev two_headers : HttpMessage
two_headers = (add_header one_header (bytes "x") (bytes "y")).0

-- The start line and the header go past the end of a buffer of 20 bytes, which each of them fits.
writes_past_end :
    write_headers one_header 20
    ≡ done (
      bytes "GET / HTTP/1.1" ++ crlf ++ bytes "host:a" ++ crlf ++ crlf,
      record (empty_message false 0) { mode = outbound; body_offset = 26 },
    )
unfolding write_headers request lower_bound add_header
writes_past_end = refl

-- The body is three bytes long, and the byte behind it is taken as well.
reads_past_body :
    from_buffer
      (λ t. length t)
      (empty_message true 0)
      (bytes "HTTP/1.1 200 OK" ++ crlf ++ bytes "content-length: 3" ++ crlf ++ crlf ++ bytes "abcd")
    ≡ read (
      record (empty_message true 0) {
        mode = inbound;
        first = bytes "HTTP/1.1";
        second = bytes "200";
        third = bytes "OK";
        headers = record { key = bytes "content-length"; value = bytes " 3" } ∷ [];
        buffered = 42;
        body_offset = 38;
        body_size = 4;
      },
      42,
    )
unfolding from_buffer lower_bound pending case_less case_equal
reads_past_body = refl

add_header_lem_example : add_header one_header (bytes "accept") (bytes "b") ≡ (
    if lower_bound one_header.headers (bytes "accept") == length one_header.headers
    then (
      record one_header {
        headers =
            take (lower_bound one_header.headers (bytes "accept")) one_header.headers
            ++ record { key = bytes "accept"; value = bytes "b" }
              ∷ drop (lower_bound one_header.headers (bytes "accept")) one_header.headers;
      },
      true,
    )
    else (one_header, false))
add_header_lem_example = add_header_lem one_header (bytes "accept") (bytes "b")

finds_other_key : find_header one_header (bytes "accept") ≡ (
    if lower_bound one_header.headers (bytes "accept") == length one_header.headers
    then []
    else (get_or one_header.headers
        (lower_bound one_header.headers (bytes "accept"))
        no_header).value)
finds_other_key = find_header_lem one_header (bytes "accept")

write_headers-lost_example : write_headers two_headers 40 ≡ undefined
unfolding request lower_bound add_header case_less
write_headers-lost_example =
    write_headers-lost two_headers b'G' (bytes "ET") 40 refl (omega arith) (omega arith) refl

abbrev sending : HttpMessage
sending = record (empty_message true 5) { mode = outbound; body_offset = 30 }

awaits_too_much : pending sending ≡ expected sending outbound + 30
unfolding expected
awaits_too_much = pending-first_buffer sending refl refl (omega arith)

abbrev sent_some : HttpMessage
sent_some = record sending { buffered = 32 }

pending_lem_run : pending sent_some + 32 ≡ 30 + expected sent_some outbound
unfolding expected
pending_lem_run = pending_lem sent_some (omega arith) (omega arith) (omega arith)

read_start_line-write_start_line_example :
    read_start_line
      (empty_message false 0)
      (take (start_line_size one_header + 2) (write_start_line one_header 30).0)
    ≡ read (record (empty_message false 0) {
      mode = inbound;
      first = bytes "GET";
      second = bytes "/";
      third = bytes "HTTP/1.1";
    })
unfolding request add_header lower_bound
read_start_line-write_start_line_example =
    read_start_line-write_start_line one_header (empty_message false 0) b'H' (bytes "TTP/1.1") 30
      refl refl refl refl (omega arith)
