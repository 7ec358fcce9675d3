-- ===== src/Url/Parser/Machine/Phases.antt =====
-- url/Parser.cpp: how the loop of parse goes through one part of a URL.
use mathlib.Core.List.{append_assoc, append-nil}
use oodles.Prelude.{
  ap, ℕ, zero, suc, ◌+◌, ◌-◌, ◌<◌, ◌≤◌, ◌≡◌, true, false, ◌&&◌, ◌||◌, none, List, [], ◌∷◌, ◌++◌,
  ltb, leb, ◌==◌, if◌then◌else◌, length, drop, get_or, arith,
}
use oodles.Url.Attributes.{Attributes, Part, scheme_part, domain_part, path_part, page_part, Text}
use oodles.Url.Parser.Scan.{
  done, npos, char_at, find_first_of, find_last_of, tolower, count_chars, substr, resize, str2int,
}
use oodles.Url.Parser.Scan.Bounds.{all_of, lacks}
use oodles.Url.Parser.Tokens.{
  tokenise_scheme, tokenise_domain, tokenise_path, domain_end, domain_loop, path_loop,
}
use oodles.Url.Parser.Machine.{State, step_at, parse_loop, normalise}

-- The state in a part, before any query was read.
abbrev pub at_part : Part → Attributes → State
at_part part a = record { part = part; attributes = a; query_string = none }

-- From `i` on the loop comes to the end of the URL, and normalise then leaves the attributes `b`, given
-- the fuel `n` or more.
abbrev pub Leads : Text → ℕ → Part → Attributes → ℕ → Attributes → Type 0
Leads url i part a n b =
    (fuel : ℕ) → n ≤ fuel → normalise (parse_loop fuel url i (at_part part a)) ≡ done b

pub drop-head :
    (i : ℕ) (url : Text) (c : ℕ) (r : Text)
    → drop i url ≡ c ∷ r
    → (i < length url) × (char_at url i ≡ c) × (drop (suc i) url ≡ r)
drop-head zero [] c r h = cc
drop-head zero (x ∷ url) c r h = (omega arith, ap (λ l. get_or l 0 0) h, ap (drop 1) h)
drop-head (suc i) [] c r h = cc
drop-head (suc i) (x ∷ url) c r h = let (a, b, d) = drop-head i url c r h in (omega arith, b, d)

module _ (url : Text) (b : Attributes) where
  -- One turn.
  turn :
      (i i' : ℕ) (part part' : Part) (a a' : Attributes) (n m : ℕ)
      → i < length url
      → n < m
      → step_at part url i (at_part part a) ≡ done (i', at_part part' a')
      → Leads url (suc i') part' a' n b
      → Leads url i part a m b
  unfolding parse_loop
  turn i i' part part' a a' n m l g e k zero f = absurd (omega arith)
  turn i i' part part' a a' n m l g e k (suc fuel) f =
      let t : ltb i (length url) ≡ true = ground arith in
      let s : suc i' ≡ i' + 1 = omega arith in rw (parse_loop, t, e, ← s) (k fuel (omega arith))

  pub end_phase :
      (i : ℕ) (part : Part) (a : Attributes)
      → length url ≤ i
      → normalise (done (at_part part a)) ≡ done b
      → Leads url i part a 1 b
  unfolding parse_loop
  end_phase i part a h e zero f = absurd (omega arith)
  end_phase i part a h e (suc fuel) f =
      let t : ltb i (length url) ≡ false = ground arith in rw (parse_loop, t) e

  pub scheme_phase :
      (cs t r : Text) (i : ℕ) (a : Attributes) (n : ℕ)
      → all_of (λ c. leb b'a' c && leb c b'z') cs ≡ true
      → drop i url ≡ cs ++ r
      → Leads url (i + length cs) scheme_part (record a { scheme = t ++ cs }) n b
      → Leads url i scheme_part (record a { scheme = t }) (n + length cs) b
  unfolding step_at tokenise_scheme
  scheme_phase [] t r i a n h d k =
      let e : i + 0 ≡ i = omega arith in
      let e' : n + 0 ≡ n = omega arith in rw e' (rw (append-nil t, e) at k)
  scheme_phase (c ∷ cs) t r i a n h d k =
      let (l, x, d') = drop-head i url c (cs ++ r) d in
      let plain : (c == b':') ≡ false = ground arith in
      let low : tolower c ≡ c = ground arith in
      let e : i + length (c ∷ cs) ≡ suc i + length cs = omega arith in
      let k' = rw (e, ← append_assoc t (c ∷ []) cs) at k in
      let rest = scheme_phase cs (t ++ c ∷ []) r (suc i) a n (ground arith) d' k' in
      turn i i scheme_part scheme_part _ _ (n + length cs) (n + length (c ∷ cs)) l (omega arith)
        (rw (x, plain, low)) rest

  pub page_phase :
      (cs t : Text) (i : ℕ) (a : Attributes) (n : ℕ)
      → lacks b'?' cs ≡ true
      → drop i url ≡ cs
      → Leads url (i + length cs) page_part (record a { page = t ++ cs }) n b
      → Leads url i page_part (record a { page = t }) (n + length cs) b
  unfolding step_at
  page_phase [] t i a n h d k =
      let e : i + 0 ≡ i = omega arith in
      let e' : n + 0 ≡ n = omega arith in rw e' (rw (append-nil t, e) at k)
  page_phase (c ∷ cs) t i a n h d k =
      let (l, x, d') = drop-head i url c cs d in
      let plain : (c == b'?') ≡ false = ground arith in
      let e : i + length (c ∷ cs) ≡ suc i + length cs = omega arith in
      let k' = rw (e, ← append_assoc t (c ∷ []) cs) at k in
      let rest = page_phase cs (t ++ c ∷ []) (suc i) a n (ground arith) d' k' in
      turn i i page_part page_part _ _ (n + length cs) (n + length (c ∷ cs)) l (omega arith)
        (rw (x, plain)) rest

  -- The colon behind the scheme, when no '@' stands before the path.
  pub colon_phase :
      (r : Text) (i : ℕ) (a : Attributes) (n : ℕ)
      → drop i url ≡ b':' ∷ r
      → find_last_of url b'@' (find_first_of url b'/' (i + 2 + 1)) ≡ npos
      → Leads url (suc (i + 2)) domain_part a n b
      → Leads url i scheme_part a (n + 1) b
  unfolding step_at tokenise_scheme
  colon_phase r i a n d u k =
      let (l, x, d') = drop-head i url b':' r d in
      turn i (i + 2) scheme_part domain_part a a n (n + 1) l (omega arith) (rw (x, u)) k

  -- The domain, up to the path.
  pub domain_phase :
      (i j last octets : ℕ) (host : Text) (parts : List Text) (a : Attributes) (n : ℕ)
      → i < length url
      → domain_end url i ≡ j
      → char_at url j ≡ b'/'
      → substr url i (j - i) ≡ host
      → domain_loop host 0 (resize (count_chars url i j b'.' + 1) a.domain) 0
        ≡ (parts, last, octets)
      → Leads url
          (suc j)
          path_part
          (record a {
            domain = parts;
            ip = if str2int (get_or parts last []) then octets == 3 else a.ip;
          })
          n
          b
      → Leads url i domain_part a (n + 1) b
  unfolding step_at tokenise_domain
  domain_phase i j last octets host parts a n l e c t d k =
      turn i j domain_part path_part a _ n (n + 1) l (omega arith) (rw (e, t, d, c)) k

  -- A path without components.
  pub no_path_phase :
      (i : ℕ) (a : Attributes) (n : ℕ)
      → suc i < length url
      → find_last_of url b'/' npos ≡ i
      → Leads url (suc i) page_part a n b
      → Leads url (suc i) path_part a (n + 1) b
  unfolding step_at tokenise_path
  no_path_phase i a n l e k =
      let z : suc i - 1 ≡ i = omega arith in
      let q : (i == npos || i == i) ≡ true = ground arith in
      turn (suc i) i path_part page_part a a n (n + 1) l (omega arith) (rw (tokenise_path, e, z, q))
        k

  pub path_phase :
      (i j : ℕ) (directory : Text) (parts : List Text) (a : Attributes) (n : ℕ)
      → i < length url
      → 0 < i
      → i ≤ j
      → j < npos
      → find_last_of url b'/' npos ≡ j
      → substr url i (j - i) ≡ directory
      → path_loop directory (resize (count_chars url i j b'/') a.path) 0 ≡ parts
      → Leads url (suc j) page_part (record a { path = parts }) n b
      → Leads url i path_part a (n + 1) b
  unfolding step_at tokenise_path
  path_phase i j directory parts a n l o g m e t d k =
      let q : (j == npos || j == i - 1) ≡ false = ground arith in
      turn i j path_part page_part a _ n (n + 1) l (omega arith) (rw (tokenise_path, e, q, t, d)) k
