-- ===== src/Net/Http/Message/Reading.antt =====
-- net/http/Message.cpp: a message read from a buffer.
use oodles.Prelude.{
  ℕ, zero, suc, ◌+◌, ◌-◌, Bool, true, false, not, ◌&&◌, ◌||◌, [], ◌∷◌, ◌++◌, ltb, ◌==◌,
  if◌then◌else◌, length, get_or, take, drop,
}
use oodles.Url.Attributes.{Text}
use oodles.Url.Parser.Scan.{seek, npos, substr}
use oodles.Net.Http.Message.Keys.{HttpHeader, lower_bound}
use oodles.Net.Http.Message.Headers.{HttpMessage, inbound, headers_received, pending}
use oodles.Net.Http.Message.Writing.{smaller}

-- What reading comes to: HeaderError and the out_of_range of a substr are `thrown`, and a read before
-- the buffer is `before_buffer`.
pub data Reading {ℓ} (A : Type ℓ) : Type ℓ where
  read : A → Reading A
  thrown before_buffer : Reading A

pub record Trigram : Type 0 where
  pub first : Text
  pub second : Text
  pub third : Text

abbrev pub put_token : ℕ → Text → Trigram → Trigram
put_token zero s t = record t { first = s }
put_token (suc zero) s t = record t { second = s }
put_token (suc (suc k)) s t = record t { third = s }

-- The loop of read_start_line over the characters from `i` on, with the variables `j`, `k` and `last`.
unfoldable pub token_loop : Text → Text → ℕ → ℕ → ℕ → Bool → Trigram → Trigram
token_loop [] s i j k last t = t
token_loop (c ∷ cs) s i j k last t = elim (c == b' ' || last) [
  | false ↦ token_loop cs s (i + 1) j k last t
  | true ↦
      let t' = put_token k (substr s j ((if last then length s else i) - j)) t in
      elim (ltb (k + 1) 3) [
        | true ↦ token_loop cs s (i + 1) (i + 1) (k + 1) (last || k + 1 == 2) t'
        | false ↦ t'
      ]
]

-- "HTTP/" has five characters: of a request, the third token must have as many, for its version.
abbrev pub version_readable : Trigram → Bool
version_readable t = not (ltb (length t.first) 5) || not (ltb (length t.third) 5)

-- read_start_line
unfoldable pub read_start_line : HttpMessage → Text → Reading HttpMessage
unfolding token_loop
read_start_line m s =
    let t =
      token_loop s s 0 0 0 false (record { first = m.first; second = m.second; third = m.third }) in
    if version_readable t
    then read (record m { mode = inbound; first = t.first; second = t.second; third = t.third })
    else thrown

-- A header between the positions `j` and `i` of the buffer, which ends in CR and LF: memchr for its
-- delimiter, and its insertion.
unfoldable pub read_header : HttpMessage → Text → ℕ → ℕ → Reading HttpMessage
unfolding seek
read_header m buffer j i =
    let line = substr buffer j (i - j) in
    let d = seek b':' line 0 in
    if d == npos
    then thrown
    else (let h : HttpHeader = record {
      key = take d line;
      value = substr line (d + 1) (i - j - (d + 2));
    } in
        let x = lower_bound m.headers h.key in
        read (record m { headers = take x m.headers ++ h ∷ drop x m.headers }))

abbrev pub byte_at : Text → ℕ → ℕ
byte_at buffer i = get_or buffer i 0

-- The body of the loop of read_headers at a LF: `j` is where its line began.
unfoldable pub read_line : HttpMessage → Text → ℕ → ℕ → Reading HttpMessage
unfolding read_start_line read_header
read_line m buffer i j =
    let split =
      byte_at buffer (i - 3) == 13
      && (byte_at buffer (i - 2) == 10 && byte_at buffer (i - 1) == 13) in
    let m' = if split then record m { body_offset = i + 1 } else m in
    if ltb i 3
    then before_buffer
    else (if not split && not (byte_at buffer (i - 1) == 13)
        then thrown
        else (if j == 0
            then read_start_line m' (take (i - 1) buffer)
            else (if headers_received m' then read m' else read_header m' buffer j i)))

-- The loop of read_headers; `left` characters are left from `i` on. The result has the index.
unfoldable pub read_loop : ℕ → HttpMessage → Text → ℕ → ℕ → Reading (HttpMessage × ℕ)
unfolding read_line
read_loop zero m buffer i j = read (m, i)
read_loop (suc left) m buffer i j = elim (headers_received m) [
  | true ↦ read (m, i)
  | false ↦ elim (byte_at buffer i == 10) [
    | false ↦ read_loop left m buffer (i + 1) j
    | true ↦ elim (read_line m buffer i j) [
      | read m' ↦ read_loop left m' buffer (i + 1) (i + 1)
      | thrown ↦ thrown
      | before_buffer ↦ before_buffer
    ]
  ]
]

-- read_headers
unfoldable pub read_headers : HttpMessage → Text → Reading (HttpMessage × ℕ)
unfolding read_loop
read_headers m buffer = read_loop (length buffer) m buffer 0 0

-- read_body, with the number of bytes that write() takes of a text.
unfoldable pub read_body : (Text → ℕ) → HttpMessage → Text → HttpMessage × ℕ
read_body sink m buffer =
    let n = if m.has_fd then sink (take (smaller (pending m) (length buffer)) buffer) else 0 in
    (record m { body_size = m.body_size + n }, n)

abbrev pub then_body : (Text → ℕ) → Text → Reading (HttpMessage × ℕ) → Reading (HttpMessage × ℕ)
then_body sink buffer thrown = thrown
then_body sink buffer before_buffer = before_buffer
then_body sink buffer (read (m, used)) =
    let (m', n) =
      if ltb used (length buffer) then read_body sink m (drop used buffer) else (m, 0) in
    read (record m' { buffered = m'.buffered + (used + n) }, used + n)

-- from_buffer
unfoldable pub from_buffer : (Text → ℕ) → HttpMessage → Text → Reading (HttpMessage × ℕ)
unfolding read_headers read_body
from_buffer sink m buffer =
    then_body sink buffer (if headers_received m then read (m, 0) else read_headers m buffer)
