-- ===== src/Url/Parser/Tokens/Splits.antt =====
-- url/Parser.cpp: the loops that split the domain and the path into their components.
use mathlib.Core.List.{append_assoc, append-nil}
use oodles.Prelude.{
  ◌∙◌, ℕ, ◌+◌, ◌≡◌, refl, Bool, true, false, not, ◌&&◌, List, [], ◌∷◌, ◌++◌, leb, ◌==◌, length,
  replicate, get_or, set-append_length, arith, length-append,
}
use oodles.Url.Attributes.{Text}
use oodles.Url.Ids.{join, dot, slash}
use oodles.Url.Parser.Scan.{tolower, append_to}
use oodles.Url.Parser.Scan.Bounds.{all_of, lacks}
use oodles.Url.Parser.Tokens.{octet, domain_loop, path_loop}

-- What a component of a domain is made of: no delimiter, and nothing that tolower changes.
abbrev pub host_char : ℕ → Bool
host_char c =
    not (c == b'.')
    && (not (c == b'/') && (not (c == b':') && (not (c == b'@') && not (leb b'A' c && leb c b'Z'))))

abbrev pub all_hosts : List Text → Bool
all_hosts [] = true
all_hosts (x ∷ xs) = all_of host_char x && all_hosts xs

-- The components but the last that are numbers, counted in 16 bits.
abbrev pub octets_of : ℕ → Text → List Text → ℕ
octets_of octets x [] = octets
octets_of octets x (y ∷ ys) = octets_of (octet octets x) y ys

get_or-append_length :
    (ps : List Text) (x : Text) (qs : List Text) → get_or (ps ++ x ∷ qs) (length ps) [] ≡ x
get_or-append_length [] x qs = refl
get_or-append_length (p ∷ ps) x qs = get_or-append_length ps x qs

append_to_here :
    (ps : List Text) (x : Text) (qs : List Text) (c : ℕ)
    → append_to (ps ++ x ∷ qs) (length ps) c ≡ ps ++ (x ++ c ∷ []) ∷ qs
append_to_here ps x qs c =
    rw (get_or-append_length ps x qs) (set-append_length ps x (x ++ c ∷ []) qs)

domain_loop-text :
    (y r : Text) (o : ℕ) (ps : List Text) (x : Text) (qs : List Text)
    → all_of host_char y ≡ true
    → domain_loop (y ++ r) o (ps ++ x ∷ qs) (length ps)
      ≡ domain_loop r o (ps ++ (x ++ y) ∷ qs) (length ps)
unfolding domain_loop
domain_loop-text [] r o ps x qs h = rw (append-nil x) refl
domain_loop-text (c ∷ y) r o ps x qs h =
    let plain : (c == b'.') ≡ false = ground arith in
    let low : tolower c ≡ c = ground arith in
    let rest : all_of host_char y ≡ true = ground arith in
    let e = domain_loop-text y r o ps (x ++ c ∷ []) qs rest in
    rw (domain_loop, plain, low, append_to_here ps x qs c) (rw (append_assoc x (c ∷ []) y) at e)

domain_loop-dot :
    (r : Text) (o : ℕ) (ps : List Text) (x y : Text) (qs : List Text)
    → domain_loop (b'.' ∷ r) o (ps ++ x ∷ y ∷ qs) (length ps)
      ≡ domain_loop r (octet o x) ((ps ++ x ∷ []) ++ y ∷ qs) (length (ps ++ x ∷ []))
unfolding domain_loop
domain_loop-dot r o ps x y qs =
    let n : length (ps ++ x ∷ []) ≡ length ps + 1 = omega (arith, length-append ps (x ∷ [])) in
    rw (domain_loop, n, append_assoc ps (x ∷ []) (y ∷ qs), get_or-append_length ps x (y ∷ qs))

-- The loop over a host reads its components, and points to the last.
pub domain_loop-join :
    (x : Text) (xs : List Text) (o : ℕ) (ps : List Text)
    → all_of host_char x ≡ true
    → all_hosts xs ≡ true
    → domain_loop (join dot x xs) o (ps ++ [] ∷ replicate (length xs) []) (length ps)
      ≡ (ps ++ x ∷ xs, length ps + length xs, octets_of o x xs)
unfolding domain_loop join
domain_loop-join x [] o ps h g =
    let e = domain_loop-text x [] o ps [] [] h in
    let n : length ps + 0 ≡ length ps = omega arith in rw n (rw (append-nil x) at e)
domain_loop-join x (y ∷ ys) o ps h g =
    let e = domain_loop-text x (dot ++ join dot y ys) o ps [] ([] ∷ replicate (length ys) []) h in
    let d = domain_loop-dot (join dot y ys) o ps x [] (replicate (length ys) []) in
    let f = domain_loop-join y ys (octet o x) (ps ++ x ∷ []) (ground arith) (ground arith) in
    let n : length (ps ++ x ∷ []) + length ys ≡ length ps + length (y ∷ ys) =
      omega (arith, length-append ps (x ∷ [])) in
    e ∙ d ∙ (rw (append_assoc ps (x ∷ []) (y ∷ ys), n) at f)

path_loop-text :
    (y r : Text) (ps : List Text) (x : Text) (qs : List Text)
    → lacks b'/' y ≡ true
    → path_loop (y ++ r) (ps ++ x ∷ qs) (length ps) ≡ path_loop r (ps ++ (x ++ y) ∷ qs) (length ps)
unfolding path_loop
path_loop-text [] r ps x qs h = rw (append-nil x) refl
path_loop-text (c ∷ y) r ps x qs h =
    let plain : (c == b'/') ≡ false = ground arith in
    let e = path_loop-text y r ps (x ++ c ∷ []) qs (ground arith) in
    rw (path_loop, plain, append_to_here ps x qs c) (rw (append_assoc x (c ∷ []) y) at e)

path_loop-slash :
    (r : Text) (ps : List Text) (x y : Text) (qs : List Text)
    → path_loop (b'/' ∷ r) (ps ++ x ∷ y ∷ qs) (length ps)
      ≡ path_loop r ((ps ++ x ∷ []) ++ y ∷ qs) (length (ps ++ x ∷ []))
unfolding path_loop
path_loop-slash r ps x y qs =
    let n : length (ps ++ x ∷ []) ≡ length ps + 1 = omega (arith, length-append ps (x ∷ [])) in
    rw (path_loop, n, append_assoc ps (x ∷ []) (y ∷ qs))

abbrev pub all_lack : List Text → Bool
all_lack [] = true
all_lack (x ∷ xs) = lacks b'/' x && all_lack xs

-- The loop over a directory reads its components.
pub path_loop-join :
    (x : Text) (xs : List Text) (ps : List Text)
    → lacks b'/' x ≡ true
    → all_lack xs ≡ true
    → path_loop (join slash x xs) (ps ++ [] ∷ replicate (length xs) []) (length ps) ≡ ps ++ x ∷ xs
unfolding path_loop join
path_loop-join x [] ps h g = rw (append-nil x) at (path_loop-text x [] ps [] [] h)
path_loop-join x (y ∷ ys) ps h g =
    let e = path_loop-text x (slash ++ join slash y ys) ps [] ([] ∷ replicate (length ys) []) h in
    let d = path_loop-slash (join slash y ys) ps x [] (replicate (length ys) []) in
    let f = path_loop-join y ys (ps ++ x ∷ []) (ground arith) (ground arith) in
    e ∙ d ∙ f ∙ append_assoc ps (x ∷ []) (y ∷ ys)
