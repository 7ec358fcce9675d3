-- ===== src/Net/Oop/Header.antt =====
-- net/oop/Message.cpp and Message.hpp: the header in front of each message's body. A buffer is a
-- list of bytes; the most significant byte of a number in network order comes first.
use oodles.Prelude.{
  ℕ, zero, suc, ◌+◌, ◌-◌, ◌*◌, ◌/◌, ◌%◌, ◌^◌, ◌≤◌, ◌<◌, ◌≡◌, refl, Bool, true, false, List, [], ◌∷◌,
  get_or, take, drop, length, arith, ap, ap₂, ◌∙◌,
}
mod Tests

-- Message::Header.
pub record Header : Type 0 where
  pub body_size : ℕ
  pub message_id : ℕ
  pub processed : Bool

abbrev pub header_size : ℕ
header_size = 6

-- Message::size: a uint8_t and a uint32_t are added in 32 bits, before the sum becomes a size_t.
abbrev pub size : Header → ℕ
size h = (header_size + h.body_size) % 2 ^ 32

-- `htonl` and `htons`, by the bytes that they put into memory.
abbrev pub htonl : ℕ → List ℕ
htonl n = n / 2 ^ 24 % 256 ∷ n / 2 ^ 16 % 256 ∷ n / 2 ^ 8 % 256 ∷ n % 256 ∷ []

abbrev pub htons : ℕ → List ℕ
htons n = n / 2 ^ 8 % 256 ∷ n % 256 ∷ []

abbrev pub ntohl : List ℕ → ℕ
ntohl bs = get_or bs 0 0 * 2 ^ 24 + get_or bs 1 0 * 2 ^ 16 + get_or bs 2 0 * 2 ^ 8 + get_or bs 3 0

abbrev pub ntohs : List ℕ → ℕ
ntohs bs = get_or bs 0 0 * 2 ^ 8 + get_or bs 1 0

-- `memcpy(buffer + offset, bytes, ...)`, within the buffer.
abbrev pub memcpy : List ℕ → ℕ → List ℕ → List ℕ
memcpy [] offset xs = []
memcpy (b ∷ bs) zero [] = b ∷ bs
memcpy (b ∷ bs) zero (x ∷ xs) = x ∷ memcpy bs zero xs
memcpy (b ∷ bs) (suc offset) xs = b ∷ memcpy bs offset xs

unfoldable pub header2buffer : List ℕ → Header → List ℕ × Header
header2buffer buffer h = (
  memcpy (memcpy buffer 0 (htonl ((header_size + h.body_size) % 2 ^ 32))) 4 (htons h.message_id),
  record h { processed = true },
)

unfoldable pub buffer2header : List ℕ → Header
buffer2header buffer = record {
  body_size = (ntohl (take 4 buffer) + 2 ^ 32 - header_size) % 2 ^ 32;
  message_id = ntohs (take 2 (drop 4 buffer));
  processed = true;
}

pub ntohl-htonl :
    (n : ℕ)
    → n < 2 ^ 32
    → n / 2 ^ 24 % 256 * 2 ^ 24 + n / 2 ^ 16 % 256 * 2 ^ 16 + n / 2 ^ 8 % 256 * 2 ^ 8 + n % 256 ≡ n
ntohl-htonl n h = omega arith

pub ntohs-htons : (n : ℕ) → n < 2 ^ 16 → n / 2 ^ 8 % 256 * 2 ^ 8 + n % 256 ≡ n
ntohs-htons n h = omega arith

pub body_back : (n : ℕ) → n < 2 ^ 32 → ((6 + n) % 2 ^ 32 + 2 ^ 32 - 6) % 2 ^ 32 ≡ n
body_back n h = omega arith

-- A header written into a buffer of at least `header_size` bytes reads back as it was, marked as
-- processed, for each `uint32_t` body size and `uint16_t` id; the sum that is sent may wrap around.
pub buffer2header-header2buffer :
    (buffer : List ℕ) (h : Header)
    → header_size ≤ length buffer
    → h.body_size < 2 ^ 32
    → h.message_id < 2 ^ 16
    → buffer2header (header2buffer buffer h).0 ≡ (header2buffer buffer h).1
unfolding buffer2header header2buffer
buffer2header-header2buffer (a ∷ b ∷ c ∷ d ∷ e ∷ f ∷ bs) h l x y =
    let m = (6 + h.body_size) % 2 ^ 32 in
    ap₂ (λ s i. record { body_size = s; message_id = i; processed = true })
      (ap (λ s. (s + 2 ^ 32 - 6) % 2 ^ 32) (ntohl-htonl m (omega arith)) ∙ body_back h.body_size x)
      (ntohs-htons h.message_id y)
buffer2header-header2buffer [] h l x y = ground arith
buffer2header-header2buffer (a ∷ []) h l x y = ground arith
buffer2header-header2buffer (a ∷ b ∷ []) h l x y = ground arith
buffer2header-header2buffer (a ∷ b ∷ c ∷ []) h l x y = ground arith
buffer2header-header2buffer (a ∷ b ∷ c ∷ d ∷ []) h l x y = ground arith
buffer2header-header2buffer (a ∷ b ∷ c ∷ d ∷ e ∷ []) h l x y = ground arith
