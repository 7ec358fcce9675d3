-- ===== src/Net/Http/Message/Lost.antt =====
-- net/http/Message.cpp: what write_headers does to more than one header, and to one.
use oodles.Prelude.{
  ap, sym, ◌∙◌, ℕ, zero, suc, ◌+◌, ◌-◌, ◌<◌, ◌≤◌, ◌≡◌, refl, Bool, true, false, ◌&&◌, List, [], ◌∷◌,
  ◌++◌, none, some, ltb, leb, ◌==◌, if◌then◌else◌, length, get_elem?, get_elem?-lt, arith,
  Option-cases, inl, inr,
}
use oodles.Url.Attributes.{Text}
use oodles.Url.Parser.Scan.{undefined}
use oodles.Url.Parser.Normalise.{erase_at}
use oodles.Net.Http.Message.Keys.{HttpHeader}
use oodles.Net.Http.Message.Headers.{HttpMessage}
use oodles.Net.Http.Message.Writing.{
  crlf, start_line_size, write_start_line, header_loop, write_headers,
}

-- Each header fits into a buffer of `max` bytes, the end of headers included.
abbrev pub all_fit : ℕ → List HttpHeader → Bool
all_fit max [] = true
all_fit max (h ∷ hs) = leb (length h.key + length h.value + 5) max && all_fit max hs

all_fit-erase_at :
    (max i : ℕ) (hs : List HttpHeader) → all_fit max hs ≡ true → all_fit max (erase_at i hs) ≡ true
all_fit-erase_at max i [] f = refl
all_fit-erase_at max zero (h ∷ hs) f = ground arith
all_fit-erase_at max (suc i) (h ∷ hs) f = ground (arith, all_fit-erase_at max i hs)

fits-get_elem? :
    (max i : ℕ) (hs : List HttpHeader) (h : HttpHeader)
    → all_fit max hs ≡ true
    → get_elem? hs i ≡ some h
    → ltb max (length h.key + length h.value + 5) ≡ false
fits-get_elem? max i [] h f e = cc
fits-get_elem? max zero (x ∷ hs) h f e =
    let same : ltb max (length x.key + length x.value + 5)
        ≡ ltb max (length h.key + length h.value + 5) =
      ap (λ o. elim o [ none ↦ true | some y ↦ ltb max (length y.key + length y.value + 5) ]) e in
    let fit : ltb max (length x.key + length x.value + 5) ≡ false = ground arith in sym same ∙ fit
fits-get_elem? max (suc i) (x ∷ hs) h f e = fits-get_elem? max i hs h (ground arith) e

length-erase_at :
    (hs : List HttpHeader) (i : ℕ) (h : HttpHeader)
    → get_elem? hs i ≡ some h
    → length (erase_at i hs) + 1 ≡ length hs
length-erase_at [] i h e = cc
length-erase_at (x ∷ hs) zero h e = omega arith
length-erase_at (x ∷ hs) (suc i) h e = omega (arith, length-erase_at hs i h e)

header_loop-lost :
    (fuel max i j : ℕ) (hs : List HttpHeader) (text : Text)
    → length hs + i ≡ j
    → 2 ≤ j
    → i < j
    → all_fit max hs ≡ true
    → j - i < fuel
    → header_loop fuel max i j hs text ≡ undefined
unfolding header_loop
header_loop-lost zero max i j hs text e t l f u = absurd (omega arith)
header_loop-lost (suc fuel) max i j hs text e t l f u =
    let n : (i == j) ≡ false = ground arith in
    elim (Option-cases (get_elem? hs i)) [
      | inl o ↦ rw (header_loop, n, o)
      | inr (h, o) ↦
          let less = get_elem?-lt hs i h o in
          let one = length-erase_at hs i h o in
          let big = fits-get_elem? max i hs h f o in
          let fit : ltb max (length h.key + length h.value + 3 + (if i + 1 == j then 2 else 0))
              ≡ false =
            ground arith in
          rw (header_loop, n, o, fit)
            (header_loop-lost fuel max (i + 1) j (erase_at i hs) _ (omega arith) t (omega arith)
              (all_fit-erase_at max i hs f) (omega arith))
    ]

-- With a start line that fits into the buffer, and two or more headers that each fit, write_headers
-- reads behind the end of the vector, which erasing a header has moved.
pub write_headers-lost :
    (m : HttpMessage) (c : ℕ) (cs : Text) (max : ℕ)
    → m.first ≡ c ∷ cs
    → start_line_size m + 4 ≤ max
    → 2 ≤ length m.headers
    → all_fit max m.headers ≡ true
    → write_headers m max ≡ undefined
unfolding write_headers write_start_line
write_headers-lost m c cs max e s t f =
    let some_line : ltb 0 (start_line_size m) ≡ true = rw e (ground arith) in
    let fits : ltb max (start_line_size m + 4) ≡ false = ground arith in
    let lost : (text : Text)
        → header_loop (length m.headers + 1) max 0 (length m.headers) m.headers text ≡ undefined =
      λ text.
        header_loop-lost (length m.headers + 1) max 0 (length m.headers) m.headers text
          (omega arith) t (omega arith) f (omega arith) in
    rw (
      write_headers,
      some_line,
      fits,
      e,
      lost ((c ∷ cs) ++ (b' ' ∷ m.second ++ (b' ' ∷ m.third ++ crlf))),
    )
