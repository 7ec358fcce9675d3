-- ===== src/Net/Http/Protocol/Retiring.antt =====
-- net/http/Protocol.cpp: what bytes_transferred does to the messages that are buffered.
use oodles.Prelude.{
  ap, ℕ, zero, suc, ◌+◌, ◌-◌, ◌%◌, ◌^◌, ◌<◌, ◌≡◌, refl, Bool, true, false, ◌&&◌, List, [], ◌∷◌,
  ◌++◌, ltb, leb, ◌==◌, length, arith,
}
use oodles.Url.Parser.Scan.{done, exhausted}
use oodles.Net.Http.Message.Headers.{HttpMessage, message_size}
use oodles.Net.Http.Protocol.{HttpProtocol, retire_first, retire_loop, bytes_transferred}

retire_loop-stalls :
    (fuel n : ℕ) (m : HttpMessage) (ms : List HttpMessage)
    → 0 < n
    → n < message_size m
    → retire_loop fuel (m ∷ ms) n ≡ exhausted
unfolding retire_loop
retire_loop-stalls zero n m ms a b = refl
retire_loop-stalls (suc fuel) n m ms a b =
    let part : leb (message_size m) n ≡ false = ground arith in
    let more : (ltb 0 n && true) ≡ true = ground arith in
    let q : retire_first (m ∷ ms) n ≡ (m ∷ ms, n) = rw part in
    let q0 = ap (λ r. r.0) q in
    let q1 = ap (λ r. r.1) q in
    rw (retire_loop, q1, q0, more, q1, q0) (retire_loop-stalls fuel n m ms a b)

-- When a part of the first buffered message has been transferred, but not all of it, and its headers
-- and body together fit `size_t`, the loop of bytes_transferred does not end, whatever its fuel.
pub bytes_transferred-stalls :
    (fuel n : ℕ) (p : HttpProtocol) (m : HttpMessage) (ms : List HttpMessage)
    → p.buffered_messages ≡ m ∷ ms
    → 0 < n
    → p.transferred + n < m.body_offset + m.body_size
    → m.body_offset + m.body_size < 2 ^ 64
    → bytes_transferred fuel p n ≡ exhausted
unfolding bytes_transferred
bytes_transferred-stalls fuel n p m ms e a b c =
    let some_bytes : (n == 0) ≡ false = ground arith in
    let w : (p.transferred + n) % 2 ^ 64 ≡ p.transferred + n = omega arith in
    let part : p.transferred + n < message_size m = omega arith in
    rw (some_bytes, e, w, retire_loop-stalls fuel (p.transferred + n) m ms (omega arith) part)

-- Headers and body together, for any number of messages.
abbrev pub total_size : List HttpMessage → ℕ
total_size [] = 0
total_size (m ∷ ms) = m.body_offset + m.body_size + total_size ms

abbrev pub all_sized : List HttpMessage → Bool
all_sized [] = true
all_sized (m ∷ ms) = ltb 0 (m.body_offset + m.body_size) && all_sized ms

retire_loop-whole :
    (fuel : ℕ) (m : HttpMessage) (ms ns : List HttpMessage)
    → all_sized ms ≡ true
    → length ms < fuel
    → total_size (m ∷ ms) < 2 ^ 64
    → retire_loop fuel (m ∷ ms ++ ns) (total_size (m ∷ ms)) ≡ done (ns, 0)
unfolding retire_loop
retire_loop-whole zero m ms ns h f b = absurd (omega arith)
retire_loop-whole (suc fuel) m [] ns h f b =
    let size : message_size m ≡ m.body_offset + m.body_size = omega arith in
    let part : leb (message_size m) (m.body_offset + m.body_size + 0) ≡ true =
      ground (arith, size) in
    let left : m.body_offset + m.body_size + 0 - message_size m ≡ 0 = omega (arith, size) in
    let q : retire_first (m ∷ ns) (m.body_offset + m.body_size + 0) ≡ (ns, 0) = rw (part, left) in
    let q0 = ap (λ r. r.0) q in let q1 = ap (λ r. r.1) q in rw (retire_loop, q1, q0, q1)
retire_loop-whole (suc fuel) m (k ∷ ms) ns h f b =
    let size : message_size m ≡ m.body_offset + m.body_size = omega arith in
    let part : leb (message_size m) (total_size (m ∷ k ∷ ms)) ≡ true = ground (arith, size) in
    let left : total_size (m ∷ k ∷ ms) - message_size m ≡ total_size (k ∷ ms) =
      omega (arith, size) in
    let more : (ltb 0 (total_size (k ∷ ms)) && true) ≡ true = ground arith in
    let q : retire_first (m ∷ k ∷ ms ++ ns) (total_size (m ∷ k ∷ ms))
        ≡ (k ∷ ms ++ ns, total_size (k ∷ ms)) =
      rw (part, left) in
    let q0 = ap (λ r. r.0) q in
    let q1 = ap (λ r. r.1) q in
    rw (retire_loop, q1, q0, more, q1, q0)
      (retire_loop-whole fuel k ms ns (ground arith) (omega arith) (omega arith))

-- When the bytes transferred are those of whole messages, the first ones that are buffered, of which
-- those behind the first are not empty, and their number fits `size_t`, these messages are deleted and
-- nothing is left over, given fuel for each of them. At least one byte is transferred.
pub bytes_transferred-whole :
    (fuel n : ℕ) (p : HttpProtocol) (m : HttpMessage) (ms ns : List HttpMessage)
    → p.buffered_messages ≡ m ∷ ms ++ ns
    → all_sized ms ≡ true
    → 0 < n
    → p.transferred + n ≡ total_size (m ∷ ms)
    → p.transferred + n < 2 ^ 64
    → length ms < fuel
    → bytes_transferred fuel p n ≡ done (record p { buffered_messages = ns; transferred = 0 })
unfolding bytes_transferred
bytes_transferred-whole fuel n p m ms ns e h a b c f =
    let some_bytes : (n == 0) ≡ false = ground arith in
    let w : (p.transferred + n) % 2 ^ 64 ≡ total_size (m ∷ ms) = omega (arith, b, c) in
    rw (some_bytes, e, w, retire_loop-whole fuel m ms ns h f (omega (arith, b, c)))
