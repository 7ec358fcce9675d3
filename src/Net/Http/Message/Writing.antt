-- ===== src/Net/Http/Message/Writing.antt =====
-- net/http/Message.cpp: a message written into a buffer. What is written is the text from the start of
-- the buffer; a text longer than the buffer went past its end.
use oodles.Prelude.{
  ℕ, zero, suc, ◌+◌, ◌-◌, true, false, List, [], ◌∷◌, ◌++◌, none, some, ltb, ◌==◌, if◌then◌else◌,
  length, get_elem?,
}
use oodles.Url.Attributes.{Text, is_nil}
use oodles.Url.Parser.Scan.{Outcome, done, aborted, undefined, exhausted}
use oodles.Url.Parser.Normalise.{erase_at}
use oodles.Net.Http.Message.Keys.{HttpHeader}
use oodles.Net.Http.Message.Headers.{HttpMessage, outbound, headers_received, pending}

abbrev pub crlf : Text
crlf = 13 ∷ 10 ∷ []

abbrev pub start_line_size : HttpMessage → ℕ
start_line_size m = length m.first + length m.second + length m.third

-- write_start_line: nothing is written unless all of it fits.
unfoldable pub write_start_line : HttpMessage → ℕ → Text × HttpMessage
write_start_line m max =
    if ltb max (start_line_size m + 4) then ([], record m { mode = outbound }) else (
      m.first ++ (b' ' ∷ m.second ++ (b' ' ∷ m.third ++ crlf)),
      record m { mode = outbound; first = []; second = []; third = [] },
    )

abbrev pub header_line : HttpHeader → Text
header_line h = h.key ++ (b':' ∷ h.value ++ crlf)

-- The loop of write_headers from the iterator `i` to `j`, the end the vector had at first: the text
-- that it adds and the headers that are left. Reading at or after the end the vector has now is
-- undefined.
unfoldable pub header_loop :
    ℕ → ℕ → ℕ → ℕ → List HttpHeader → Text → Outcome (Text × List HttpHeader)
header_loop zero max i j headers text = exhausted
header_loop (suc fuel) max i j headers text = elim (i == j) [
  | true ↦ done (text, headers)
  | false ↦ elim (get_elem? headers i) [
    | none ↦ undefined
    | some h ↦ elim (ltb max (length h.key + length h.value + 3 + (if i + 1 == j then 2 else 0))) [
      | true ↦ done (text, headers)
      | false ↦ header_loop fuel max (i + 1) j (erase_at i headers) (text ++ header_line h)
    ]
  ]
]

-- The end-of-headers indicator, if all were written.
abbrev pub end_of_headers :
    HttpMessage → Outcome (Text × List HttpHeader) → Outcome (Text × HttpMessage)
end_of_headers m (done (text, headers)) =
    let all = if is_nil headers then text ++ crlf else text in
    done (all, record m { headers = headers; body_offset = length all })
end_of_headers m aborted = aborted
end_of_headers m undefined = undefined
end_of_headers m exhausted = exhausted

abbrev pub after_start_line : ℕ → Text × HttpMessage → Outcome (Text × HttpMessage)
after_start_line max ([], m) = done ([], m)
after_start_line max (c ∷ cs, m) =
    end_of_headers m
      (header_loop (length m.headers + 1) max 0 (length m.headers) m.headers (c ∷ cs))

-- write_headers: a start line is written if there is one.
unfoldable pub write_headers : HttpMessage → ℕ → Outcome (Text × HttpMessage)
unfolding write_start_line header_loop
write_headers m max =
    if ltb 0 (start_line_size m)
    then after_start_line max (write_start_line m max)
    else end_of_headers m (header_loop (length m.headers + 1) max 0 (length m.headers) m.headers [])

abbrev pub smaller : ℕ → ℕ → ℕ
smaller x max = if ltb x max then x else max

-- write_body, with what read() gives for a number of bytes.
unfoldable pub write_body : (ℕ → Text) → HttpMessage → ℕ → Text
write_body source m max = if m.has_fd then source (smaller (pending m) max) else []

abbrev pub with_body : (ℕ → Text) → ℕ → Outcome (Text × HttpMessage) → Outcome (Text × HttpMessage)
with_body source max (done (text, m)) =
    let all =
      if ltb (length text) max then text ++ write_body source m (max - length text) else text in
    done (all, record m { buffered = m.buffered + length all })
with_body source max aborted = aborted
with_body source max undefined = undefined
with_body source max exhausted = exhausted

-- to_buffer
unfoldable pub to_buffer : (ℕ → Text) → HttpMessage → ℕ → Outcome (Text × HttpMessage)
unfolding write_headers write_body
to_buffer source m max =
    with_body source max (if headers_received m then done ([], m) else write_headers m max)
