-- ===== src/Net/Oop/Protocol.antt =====
-- net/oop/Protocol.cpp: the messages that are in the send buffer, and how many of their bytes have
-- gone out.
use oodles.Prelude.{
  ℕ, zero, suc, ◌+◌, ◌-◌, ◌*◌, ◌%◌, ◌^◌, ◌≤◌, ◌<◌, ◌≡◌, ◌≢◌, refl, sym, ap, ◌∙◌, Bool, true, false,
  List, [], ◌∷◌, ◌++◌, arith, ltb, ◌==◌, if◌then◌else◌, Bool-cases, inl, inr,
}
use oodles.Net.Oop.Header.{Header, header_size, size}
mod Tests

-- `buffered_messages`, the front first, and `transferred`.
pub record Protocol : Type 0 where
  pub buffered_messages : List Header
  pub transferred : ℕ

-- The loop of bytes_transferred, with `buffered` bytes to account for.
unfoldable pub retire : List Header → ℕ → Protocol
retire [] buffered = record { buffered_messages = []; transferred = buffered }
retire (m ∷ ms) buffered =
    let rest = retire ms (buffered - size m) in
    if ltb buffered (size m)
    then record { buffered_messages = m ∷ ms; transferred = buffered }
    else rest

unfoldable pub bytes_transferred : Protocol → ℕ → Protocol
unfolding retire
bytes_transferred p n =
    if n == 0 then p else retire p.buffered_messages ((p.transferred + n) % 2 ^ 64)

-- Header and body together.
abbrev pub whole : Header → ℕ
whole m = header_size + m.body_size

abbrev pub total : List Header → ℕ
total [] = 0
total (m ∷ ms) = whole m + total ms

-- No message's size wraps around.
abbrev pub Fits : List Header → Type 0
Fits [] = Unit
Fits (m ∷ ms) = (whole m < 2 ^ 32) × Fits ms

-- The front message is not yet sent in full.
abbrev pub Waits : List Header → ℕ → Type 0
Waits [] x = Unit
Waits (m ∷ ms) x = x < whole m

-- What the loop takes off the queue.
retire-prefix :
    (q : List Header) (x : ℕ)
    → Fits q
    → (done : List Header) × (q ≡ done ++ (retire q x).buffered_messages)
      × (x ≡ total done + (retire q x).transferred)
      × Waits (retire q x).buffered_messages (retire q x).transferred
unfolding retire
retire-prefix [] x f = ([], refl, omega arith, tt)
retire-prefix (m ∷ ms) x f =
    let w : size m ≡ whole m = omega (arith, f.0) in
    elim (Bool-cases (ltb x (size m))) [
      | inl e ↦
          let waits : x < whole m = ground (arith, w) in
          rw (retire, e) ([], refl, omega arith, waits)
      | inr e ↦
          let (done, split, sum, waits) = retire-prefix ms (x - size m) f.1 in
          let h : size m ≤ x = ground arith in
          rw (retire, e) (m ∷ done, ap (λ l. m ∷ l) split, omega (arith, sum, h, w), waits)
    ]

retire-fewer : (q : List Header) (x : ℕ) → (retire q x).transferred ≤ x
unfolding retire
retire-fewer [] x = omega arith
retire-fewer (m ∷ ms) x = elim (Bool-cases (ltb x (size m))) [
  | inl e ↦ rw (retire, e) (omega arith)
  | inr e ↦ rw (retire, e) (omega (arith, retire-fewer ms (x - size m)))
]

-- Bytes that arrive later are accounted for as if they had been there.
retire-again :
    (q : List Header) (x y : ℕ)
    → retire (retire q x).buffered_messages ((retire q x).transferred + y) ≡ retire q (x + y)
unfolding retire
retire-again [] x y = refl
retire-again (m ∷ ms) x y = elim (Bool-cases (ltb x (size m))) [
  | inl e ↦ rw (retire, e)
  | inr e ↦
      let f : ltb (x + y) (size m) ≡ false = ground arith in
      let g : x + y - size m ≡ x - size m + y = ground arith in
      rw (retire, e, f, g) (retire-again ms (x - size m) y)
]

bytes_transferred-fits :
    (p : Protocol) (n : ℕ)
    → 0 < n
    → p.transferred + n < 2 ^ 64
    → bytes_transferred p n ≡ retire p.buffered_messages (p.transferred + n)
unfolding bytes_transferred
bytes_transferred-fits p n h b =
    let z : (n == 0) ≡ false = ground arith in
    let w : (p.transferred + n) % 2 ^ 64 ≡ p.transferred + n = omega arith in
    rw (bytes_transferred, z, w)

-- When `n` more bytes have gone out, `n` is not 0, the sum fits `size_t` and header and body of each
-- message in the buffer are fewer than 2^32 bytes together, the messages taken off the front are those
-- whose bytes have all gone out: their headers and bodies and the bytes left over make up the sum, and
-- less than the next message is left over.
pub bytes_transferred-prefix :
    (p : Protocol) (n : ℕ)
    → 0 < n
    → p.transferred + n < 2 ^ 64
    → Fits p.buffered_messages
    → (done : List Header) × (p.buffered_messages
        ≡ done ++ (bytes_transferred p n).buffered_messages)
      × (p.transferred + n ≡ total done + (bytes_transferred p n).transferred)
      × Waits (bytes_transferred p n).buffered_messages (bytes_transferred p n).transferred
bytes_transferred-prefix p n h b f =
    rw (bytes_transferred-fits p n h b) (retire-prefix p.buffered_messages (p.transferred + n) f)

-- Two notices of bytes gone out come to the same as one of their sum, while it fits `size_t`.
pub bytes_transferred-twice :
    (p : Protocol) (n k : ℕ)
    → 0 < n
    → 0 < k
    → p.transferred + n + k < 2 ^ 64
    → bytes_transferred (bytes_transferred p n) k ≡ bytes_transferred p (n + k)
bytes_transferred-twice p n k h g b =
    let x = p.transferred + n in
    let left = retire p.buffered_messages x in
    let fewer : left.transferred ≤ x = retire-fewer p.buffered_messages x in
    let assoc : p.transferred + (n + k) ≡ x + k = omega arith in
    rw
      (
        bytes_transferred-fits p n h (omega arith),
        bytes_transferred-fits left k g (omega (arith, fewer)),
        bytes_transferred-fits p (n + k) (omega arith) (omega arith),
        assoc,
      )
      (retire-again p.buffered_messages x k)
