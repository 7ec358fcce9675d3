-- ===== src/Net/Oop/Transfer.antt =====
-- net/oop/Protocol.cpp: the queues of a connection, filled into a buffer and drained from one.
use oodles.Prelude.{
  ℕ, zero, suc, ◌+◌, ◌-◌, Bool, true, false, not, ◌&&◌, ◌||◌, Option, none, some, List, [], ◌∷◌,
  ◌++◌, ltb, leb, ◌==◌, if◌then◌else◌, length, take, drop,
}
use oodles.Url.Attributes.{is_nil}
use oodles.Url.Parser.Scan.{Outcome, done, aborted, undefined, exhausted}
use oodles.Net.Oop.Header.{Header, header_size, buffer2header}
use oodles.Net.Oop.Serialiser.{
  Outgoing, Incoming, deconstruct, create, pending_out, pending_in, to_buffer, from_buffer,
}
pub mod Wire
mod Tests

pub record Connection : Type 0 where
  pub incoming : Option Incoming
  pub inbound_messages : List Incoming
  pub outbound_messages : List Outgoing
  pub buffered_messages : List Outgoing

-- pop_message; reconstruct is the archive's.
unfoldable pub pop_message : Connection → Connection × Option Incoming
pop_message p = elim p.inbound_messages [
  | [] ↦ (p, none)
  | m ∷ ms ↦ (record p { inbound_messages = ms }, some m)
]

-- push_message of a message with its id and its archive; whether it asks for a transfer.
unfoldable pub push_message : Connection → Option (ℕ × List ℕ) → Connection × Bool
push_message p none = (p, false)
push_message p (some (id, archive)) = (
  record p { outbound_messages = p.outbound_messages ++ deconstruct id archive ∷ [] },
  is_nil p.buffered_messages,
)

-- The loop of message2buffer: `max` is the room that is left. The front of an empty queue is
-- undefined.
unfoldable pub fill_loop : ℕ → Connection → List ℕ → ℕ → Outcome (List ℕ × Connection)
fill_loop zero p buffer max = exhausted
fill_loop (suc fuel) p buffer max = elim p.outbound_messages [
  | [] ↦ undefined
  | m ∷ ms ↦
      let (bytes, m') = to_buffer m max in
      let max' = max - length bytes in
      elim (pending_out m' == 0) [
        | true ↦
            let p' = record p {
              buffered_messages = p.buffered_messages ++ m' ∷ [];
              outbound_messages = ms;
            } in
            elim (ltb 0 max') [
              | true ↦ done (buffer ++ bytes, p')
              | false ↦ fill_loop fuel p' (buffer ++ bytes) max'
            ]
        | false ↦
            let p' = record p { outbound_messages = m' ∷ ms } in
            elim (max' == 0) [
              | true ↦ done (buffer ++ bytes, p')
              | false ↦ fill_loop fuel p' (buffer ++ bytes) max'
            ]
      ]
]

-- message2buffer
unfoldable pub message2buffer : ℕ → Connection → ℕ → Outcome (List ℕ × Connection)
unfolding fill_loop
message2buffer fuel p max =
    if max == 0 || is_nil p.outbound_messages then done ([], p) else fill_loop fuel p [] max

-- The message that is coming in, and what is left of the buffer: a header that is not all there is
-- read behind the bytes received, and for an id without a message `create` gives NULL.
unfoldable pub incoming_message : (ℕ → Bool) → Connection → List ℕ → Outcome (Incoming × List ℕ)
incoming_message enrolled p buffer = elim p.incoming [
  | some m ↦ done (m, buffer)
  | none ↦
      if ltb (length buffer) header_size
      then undefined
      else (if enrolled (buffer2header buffer).message_id
          then done (create (buffer2header buffer), drop header_size buffer)
          else undefined)
]

-- The loop of buffer2message: the connection and the bytes that are not used.
unfoldable pub drain_loop : ℕ → (ℕ → Bool) → Connection → List ℕ → Outcome (List ℕ × Connection)
unfolding incoming_message
drain_loop zero enrolled p buffer = exhausted
drain_loop (suc fuel) enrolled p buffer = elim (incoming_message enrolled p buffer) [
  | aborted ↦ aborted
  | undefined ↦ undefined
  | exhausted ↦ exhausted
  | done (m, rest) ↦
      let (m', left) = from_buffer m rest in
      elim (pending_in m' == 0) [
        | true ↦
            let p' = record p {
              inbound_messages = p.inbound_messages ++ m' ∷ [];
              incoming = none;
            } in
            elim (ltb (length left) header_size) [
              | true ↦ done (left, p')
              | false ↦ drain_loop fuel enrolled p' left
            ]
        | false ↦
            let p' = record p { incoming = some m' } in
            elim (is_nil left) [ true ↦ done (left, p') | false ↦ drain_loop fuel enrolled p' left ]
      ]
]

-- buffer2message
unfoldable pub buffer2message : ℕ → (ℕ → Bool) → Connection → List ℕ → Outcome (List ℕ × Connection)
unfolding drain_loop
buffer2message fuel enrolled p buffer =
    if is_nil buffer then done ([], p) else drain_loop fuel enrolled p buffer
