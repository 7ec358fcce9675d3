-- ===== src/Net/Http/Protocol.antt =====
-- net/http/Protocol.cpp: the queues of messages of a connection.
use oodles.Prelude.{
  ℕ, zero, suc, ◌+◌, ◌-◌, ◌%◌, ◌^◌, Bool, true, false, not, ◌&&◌, ◌||◌, Option, none, some, List,
  [], ◌∷◌, ◌++◌, ltb, leb, ◌==◌, if◌then◌else◌, length, drop,
}
use oodles.Url.Attributes.{Text, is_nil}
use oodles.Url.Parser.Scan.{Outcome, done, aborted, undefined, exhausted}
use oodles.Net.Http.Message.Headers.{HttpMessage, empty_message, message_size, complete}
use oodles.Net.Http.Message.Writing.{to_buffer}
use oodles.Net.Http.Message.Reading.{Reading, read, thrown, before_buffer, from_buffer}
pub mod Retiring
mod Tests

-- Of a file descriptor, whether it is not -1.
pub record HttpProtocol : Type 0 where
  pub incoming : Option HttpMessage
  pub transferred : ℕ
  pub response_fds : List Bool
  pub inbound_messages : List HttpMessage
  pub outbound_messages : List HttpMessage
  pub buffered_messages : List HttpMessage

-- pop_message and push_message; the second says whether it asks for a transfer.
unfoldable pub pop_message : HttpProtocol → HttpProtocol × Option HttpMessage
pop_message p = elim p.inbound_messages [
  | [] ↦ (p, none)
  | m ∷ ms ↦ (record p { inbound_messages = ms }, some m)
]

unfoldable pub push_message : HttpProtocol → Option HttpMessage → Bool → HttpProtocol × Bool
push_message p none fd = (p, false)
push_message p (some m) fd = (
  record p {
    outbound_messages = p.outbound_messages ++ m ∷ [];
    response_fds = p.response_fds ++ fd ∷ [];
  },
  is_nil p.buffered_messages,
)

-- The loop of bytes_transferred over the messages that are buffered.
abbrev pub retire_first : List HttpMessage → ℕ → List HttpMessage × ℕ
retire_first [] n = ([], n)
retire_first (m ∷ ms) n = if leb (message_size m) n then (ms, n - message_size m) else (m ∷ ms, n)

unfoldable pub retire_loop : ℕ → List HttpMessage → ℕ → Outcome (List HttpMessage × ℕ)
retire_loop zero ms n = exhausted
retire_loop (suc fuel) ms n =
    let (ms', n') = retire_first ms n in
    elim (ltb 0 n' && not (is_nil ms')) [ true ↦ retire_loop fuel ms' n' | false ↦ done (ms', n') ]

abbrev pub retired : HttpProtocol → Outcome (List HttpMessage × ℕ) → Outcome HttpProtocol
retired p (done (ms, n)) = done (record p { buffered_messages = ms; transferred = n })
retired p aborted = aborted
retired p undefined = undefined
retired p exhausted = exhausted

-- bytes_transferred, with fuel for its loop; `buffered` is a size_t.
unfoldable pub bytes_transferred : ℕ → HttpProtocol → ℕ → Outcome HttpProtocol
unfolding retire_loop
bytes_transferred fuel p n =
    if n == 0
    then done p
    else (if is_nil p.buffered_messages
        then done (record p { transferred = (p.transferred + n) % 2 ^ 64 })
        else retired p (retire_loop fuel p.buffered_messages ((p.transferred + n) % 2 ^ 64)))

-- The loop of message2buffer. `source` is what read() gives for a message; `max` is a size_t and wraps
-- around when a message goes past the end of the buffer.
unfoldable pub fill_loop :
    ℕ → (HttpMessage → ℕ → Text) → HttpProtocol → Text → ℕ → Outcome (Text × HttpProtocol)
fill_loop zero source p text max = exhausted
fill_loop (suc fuel) source p text max = elim p.outbound_messages [
  | [] ↦ done (text, p)
  | m ∷ ms ↦ elim (to_buffer (source m) m max) [
    | aborted ↦ aborted
    | undefined ↦ undefined
    | exhausted ↦ exhausted
    | done (t, m') ↦
        let max' = (max + 2 ^ 64 - length t) % 2 ^ 64 in
        let p' =
          if complete m'
          then record p {
            buffered_messages = p.buffered_messages ++ m' ∷ [];
            outbound_messages = ms;
          }
          else record p { outbound_messages = m' ∷ ms } in
        elim (ltb 0 max' && not (is_nil p'.outbound_messages)) [
          | true ↦ fill_loop fuel source p' (text ++ t) max'
          | false ↦ done (text ++ t, p')
        ]
  ]
]

-- message2buffer
unfoldable pub message2buffer :
    ℕ → (HttpMessage → ℕ → Text) → HttpProtocol → ℕ → Outcome (Text × HttpProtocol)
unfolding fill_loop
message2buffer fuel source p max =
    if max == 0 || is_nil p.outbound_messages then done ([], p) else fill_loop fuel source p [] max

-- response_fd
unfoldable pub response_fd : HttpProtocol → Bool × HttpProtocol
response_fd p = elim p.response_fds [
  | [] ↦ (false, p)
  | fd ∷ fds ↦ (fd, record p { response_fds = fds })
]

-- The message that is coming in, which is made when there is none.
unfoldable pub incoming_message : HttpProtocol → HttpMessage × HttpProtocol
unfolding response_fd
incoming_message p = elim p.incoming [
  | some m ↦ (m, p)
  | none ↦ (empty_message (response_fd p).0 0, (response_fd p).1)
]

abbrev pub received : HttpProtocol → HttpMessage → HttpProtocol
received p m =
    if complete m
    then record p { inbound_messages = p.inbound_messages ++ m ∷ []; incoming = none }
    else record p { incoming = some m }

-- The loop of buffer2message, over what is left of the buffer. `sink` is how many bytes write() takes;
-- `none` is fuel that did not suffice.
unfoldable pub drain_loop : ℕ → (Text → ℕ) → HttpProtocol → Text → Option (Reading HttpProtocol)
unfolding incoming_message
drain_loop zero sink p buffer = none
drain_loop (suc fuel) sink p buffer = elim (from_buffer sink (incoming_message p).0 buffer) [
  | thrown ↦ some thrown
  | before_buffer ↦ some before_buffer
  | read (m, used) ↦
      let p' = received (incoming_message p).1 m in
      elim (is_nil (drop used buffer)) [
        | true ↦ some (read p')
        | false ↦ drain_loop fuel sink p' (drop used buffer)
      ]
]

-- buffer2message
unfoldable pub buffer2message : ℕ → (Text → ℕ) → HttpProtocol → Text → Option (Reading HttpProtocol)
unfolding drain_loop
buffer2message fuel sink p buffer =
    if is_nil buffer then some (read p) else drain_loop fuel sink p buffer
