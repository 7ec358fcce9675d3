-- ===== src/Net/Http/Message/Headers.antt =====
-- net/http/Message.cpp: the state of a message, and the operations on its headers.
use oodles.Prelude.{
  ℕ, zero, suc, ◌+◌, ◌-◌, ◌*◌, ◌/◌, ◌%◌, ◌^◌, ◌≤◌, ◌<◌, ◌≡◌, Bool, true, false, not, ◌&&◌, ◌||◌,
  List, [], ◌∷◌, ◌++◌, ltb, ◌==◌, if◌then◌else◌, length, get_or, take, drop, bytes, arith,
  Bool-cases, inl, inr,
}
use oodles.Url.Attributes.{Text, is_nil}
use oodles.Url.Parser.Scan.{is_digit, skip_spaces}
use oodles.Net.Http.Message.Keys.{HttpHeader, no_header, header_equal, lower_bound, case_equal_refl}

-- `mode`, with -1 as `unset`.
pub data Mode : Type 0 where
  unset inbound outbound : Mode

-- The version, a float that nothing reads, is left out, and of `fd` whether it is -1.
pub record HttpMessage : Type 0 where
  pub has_fd : Bool
  pub mode : Mode
  pub first : Text
  pub second : Text
  pub third : Text
  pub headers : List HttpHeader
  pub buffered : ℕ
  pub body_offset : ℕ
  pub body_size : ℕ

-- to_string of a number.
unfoldable pub decimal : ℕ → ℕ → Text → Text
decimal zero n digits = digits
decimal (suc fuel) n digits =
    let digits' = (n % 10 + b'0') ∷ digits in
    elim (n / 10 == 0) [ true ↦ digits' | false ↦ decimal fuel (n / 10) digits' ]

-- atoi and atoll, of numbers in their range, as they are read into an unsigned type.
unfoldable pub number : Text → ℕ → ℕ
number [] value = value
number (c ∷ cs) value = elim (is_digit c) [
  | true ↦ number cs (10 * value + (c - b'0'))
  | false ↦ value
]

abbrev pub signed_number : Text → ℕ
signed_number [] = 0
signed_number (c ∷ cs) =
    if c == b'-'
    then (2 ^ 64 - number cs 0 % 2 ^ 64) % 2 ^ 64
    else (if c == b'+' then number cs 0 % 2 ^ 64 else number (c ∷ cs) 0 % 2 ^ 64)

unfoldable pub atoll : Text → ℕ
unfolding number skip_spaces
atoll s = signed_number (skip_spaces s)

abbrev pub headers_received : HttpMessage → Bool
headers_received m = ltb 0 m.body_offset

-- add_header
unfoldable pub add_header : HttpMessage → Text → Text → HttpMessage × Bool
add_header m key value =
    let x = lower_bound m.headers key in
    if not (x == length m.headers) && header_equal (get_or m.headers x no_header) key
    then (m, false)
    else (
      record m {
        headers = take x m.headers ++ record { key = key; value = value } ∷ drop x m.headers;
      },
      true,
    )

-- find_header, with EMPTY as the empty text.
unfoldable pub find_header : HttpMessage → Text → Text
find_header m key =
    let x = lower_bound m.headers key in
    if not (not (x == length m.headers) && header_equal (get_or m.headers x no_header) key)
    then []
    else (get_or m.headers x no_header).value

abbrev pub empty_message : Bool → ℕ → HttpMessage
empty_message has_fd size = record {
  has_fd = has_fd;
  mode = unset;
  first = [];
  second = [];
  third = [];
  headers = [];
  buffered = 0;
  body_offset = 0;
  body_size = size;
}

-- Message::Message; 20 digits are enough for a size_t.
unfoldable pub make_message : Bool → ℕ → HttpMessage
unfolding add_header decimal
make_message has_fd size =
    if ltb 0 size
    then (add_header (empty_message has_fd size) (bytes "content-length") (decimal 20 size [])).0
    else empty_message has_fd size

abbrev pub http_version : Text
http_version = bytes "HTTP/1.1"

-- request and respond
unfoldable pub request : HttpMessage → Text → Text → HttpMessage
request m method uri = record m {
  first = method;
  second = if is_nil uri then b'*' ∷ [] else uri;
  third = http_version;
}

unfoldable pub respond : HttpMessage → ℕ → Text → HttpMessage
unfolding decimal
respond m code phrase = record m {
  first = http_version;
  second = decimal 20 code [];
  third = phrase;
}

abbrev pub received_text : HttpMessage → Text → Text
received_text m s = if headers_received m && not (is_nil s) then s else []

-- response_code, response_phrase, request_URI and request_method; a uint16_t wraps around.
unfoldable pub response_code : HttpMessage → ℕ
unfolding atoll
response_code m = atoll (received_text m m.second) % 2 ^ 16

abbrev pub response_phrase : HttpMessage → Text
response_phrase m = received_text m m.third

abbrev pub request_uri : HttpMessage → Text
request_uri m = received_text m m.second

abbrev pub request_method : HttpMessage → Text
request_method m = received_text m m.first

-- size, a size_t.
abbrev pub message_size : HttpMessage → ℕ
message_size m = (m.body_offset + m.body_size) % 2 ^ 64

abbrev pub has_no_body : ℕ → Bool
has_no_body code = ltb code 200 || (code == 204 || code == 304)

-- The body that is expected: `n` of pending.
unfoldable pub expected : HttpMessage → Mode → ℕ
unfolding find_header atoll
expected m unset = 0
expected m inbound =
    if has_no_body (atoll m.second % 2 ^ 16)
    then 0
    else atoll (find_header m (bytes "content-length"))
expected m outbound = m.body_size

-- pending; a size_t wraps around.
unfoldable pub pending : HttpMessage → ℕ
unfolding expected
pending m =
    let n = expected m m.mode in
    if n == 0 then 0 else (n + m.body_offset + 2 ^ 64 - m.buffered) % 2 ^ 64

-- complete; both tests of the headers are the same.
unfoldable pub complete : HttpMessage → Bool
complete m = headers_received m && pending m == 0

-- A header is added only behind all the others: any header at the place that the search finds counts
-- as one with the same key.
pub add_header_lem :
    (m : HttpMessage) (key value : Text)
    → add_header m key value ≡ (
        if lower_bound m.headers key == length m.headers
        then (
          record m {
            headers =
                take (lower_bound m.headers key) m.headers
                ++ record { key = key; value = value } ∷ drop (lower_bound m.headers key) m.headers;
          },
          true,
        )
        else (m, false))
unfolding add_header
add_header_lem m key value =
    let e = case_equal_refl (get_or m.headers (lower_bound m.headers key) no_header).key in
    elim (Bool-cases (lower_bound m.headers key == length m.headers)) [
      | inl h ↦ rw (e, h)
      | inr h ↦ rw (e, h)
    ]

-- The value found for a key is that of the header at the place of the search, whatever its key.
pub find_header_lem :
    (m : HttpMessage) (key : Text)
    → find_header m key ≡ (
        if lower_bound m.headers key == length m.headers
        then []
        else (get_or m.headers (lower_bound m.headers key) no_header).value)
unfolding find_header
find_header_lem m key =
    let e = case_equal_refl (get_or m.headers (lower_bound m.headers key) no_header).key in
    elim (Bool-cases (lower_bound m.headers key == length m.headers)) [
      | inl h ↦ rw (e, h)
      | inr h ↦ rw (e, h)
    ]

-- While the headers and a body come in one buffer nothing counts as buffered yet: the number of bytes
-- still awaited is too high by the size of the headers, and bytes of the next message are taken.
pub pending-first_buffer :
    (m : HttpMessage)
    → m.buffered ≡ 0
    → (expected m m.mode == 0) ≡ false
    → expected m m.mode + m.body_offset < 2 ^ 64
    → pending m ≡ expected m m.mode + m.body_offset
unfolding pending
pending-first_buffer m b e l =
    let w : (expected m m.mode + m.body_offset + 2 ^ 64 - 0) % 2 ^ 64
        ≡ expected m m.mode + m.body_offset =
      omega arith in
    rw (e, b, w)

-- When no more was buffered than headers and body together, and the headers were, what is awaited is
-- what is left of the body.
pub pending_lem :
    (m : HttpMessage)
    → m.body_offset ≤ m.buffered
    → m.buffered ≤ m.body_offset + expected m m.mode
    → expected m m.mode + m.body_offset < 2 ^ 64
    → pending m + m.buffered ≡ m.body_offset + expected m m.mode
unfolding pending
pending_lem m a b l = elim (Bool-cases (expected m m.mode == 0)) [
  | inl e ↦ rw e (ground arith)
  | inr e ↦
      let w : (expected m m.mode + m.body_offset + 2 ^ 64 - m.buffered) % 2 ^ 64
          ≡ expected m m.mode + m.body_offset - m.buffered =
        omega arith in
      rw (e, w) (omega arith)
]
