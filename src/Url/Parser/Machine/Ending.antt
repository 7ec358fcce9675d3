-- ===== src/Url/Parser/Machine/Ending.antt =====
-- url/Parser.cpp: Parser::parse ends.
use oodles.Prelude.{
  ap, sym, ℕ, zero, suc, ◌+◌, ◌-◌, ◌*◌, ◌<◌, ◌≤◌, ◌≡◌, ◌≢◌, refl, Bool, true, false, ◌||◌, none,
  List, [], ltb, ltb→lt, ◌==◌, if◌then◌else◌, length, arith, Bool-cases, Option-cases, inl, inr,
}
use oodles.Url.Attributes.{
  Attributes, Part, scheme_part, username_part, password_part, domain_part, port_part, path_part,
  page_part, query_part, no_part, Text,
}
use oodles.Url.Parser.Scan.{
  Outcome, done, aborted, undefined, exhausted, npos, find_last_of, char_at,
}
use oodles.Url.Parser.Scan.Bounds.{find_after}
use oodles.Url.Parser.Tokens.{
  tokenise_scheme, tokenise_domain, tokenise_path, domain_end, after_domain,
}
use oodles.Url.Parser.Query.Ends.{query_loop-ends, query_end_within}
use oodles.Url.Parser.Query.{query_end, tokenise_query}
use oodles.Url.Parser.Normalise.{normalise_path}
use oodles.Url.Parser.Normalise.Dots.{any_dotted, normalise_path_lem}
use oodles.Url.Parser.Machine.{State, step_at, parse_loop, parse, normalise, normalised, first_part}

domain_end_after : (url : Text) (i : ℕ) → i < length url → length url ≤ npos → i ≤ domain_end url i
unfolding domain_end
domain_end_after url i l h = ground (arith, find_after url b'/' i h)

-- How much the state still asks for, on top of the characters that are left.
abbrev pub cost : ℕ → Part → ℕ
cost size page_part = 0
cost size query_part = 0
cost size no_part = 0
cost size scheme_part = size + 1
cost size username_part = size + 1
cost size password_part = size + 1
cost size domain_part = size + 1
cost size port_part = size + 1
cost size path_part = size + 1

-- A turn of the loop that starts at `i`, in the part `part`, leaves less to do.
abbrev Advances : ℕ → ℕ → Part → Outcome (ℕ × State) → Type 0
Advances size i part (done (i', s)) = size - (i' + 1) + cost size s.part < size - i + cost size part
Advances size i part aborted = Unit
Advances size i part undefined = Unit
Advances size i part exhausted = ⊥

same_cost : (size : ℕ) (s : State) (part : Part) → s.part ≡ part → cost size s.part ≡ cost size part
same_cost size s part e = ap (cost size) e

abbrev ended {ℓ} : {A : Type ℓ} → Outcome A → Bool
ended (done a) = true
ended aborted = true
ended undefined = true
ended exhausted = false

cost_most : (size : ℕ) (part : Part) → cost size part ≤ size + 1
cost_most size scheme_part = omega arith
cost_most size username_part = omega arith
cost_most size password_part = omega arith
cost_most size domain_part = omega arith
cost_most size port_part = omega arith
cost_most size path_part = omega arith
cost_most size page_part = omega arith
cost_most size query_part = omega arith
cost_most size no_part = omega arith

scheme_after : (url : Text) (i : ℕ) (scheme : Text) → i ≤ (tokenise_scheme url i scheme).1
unfolding tokenise_scheme
scheme_after url i scheme = elim (Bool-cases (char_at url i == b':')) [
  | inl e ↦ rw e (omega arith)
  | inr e ↦ rw e (omega arith)
]

page-after_path : (url : Text) (i : ℕ) (path : List Text) → (tokenise_path url i path).0 ≡ page_part
unfolding tokenise_path
page-after_path url i path =
    elim (Bool-cases (find_last_of url b'/' npos == npos || find_last_of url b'/' npos == i - 1)) [
      | inl e ↦ rw e
      | inr e ↦ rw e
    ]

module _ (url : Text) (small : length url ≤ npos) where
  query-Advances :
      (i : ℕ) (s : State)
      → i < length url
      → s.part ≡ query_part
      → Advances (length url) i query_part (step_at query_part url i s)
  unfolding step_at tokenise_query
  query-Advances i s h p = elim (Option-cases s.query_string) [
    | inl e ↦
        let w = query_end_within url i h in
        let (j, after, q, g) =
          query_loop-ends (length url + 1) url (query_end url i) i [] (omega arith) small
            (omega arith) in
        let c = same_cost (length url) s query_part p in rw (e, q) (omega arith)
    | inr (pairs, e) ↦ rw e tt
  ]

  -- A part that is read one character at a time: it ends at its delimiter.
  one-Advances :
      (i delimiter : ℕ) (s t u : State) (part : Part)
      → i < length url
      → cost (length url) t.part ≤ cost (length url) part
      → cost (length url) u.part ≤ cost (length url) part
      → Advances
          (length url)
          i
          part
          (if char_at url i == delimiter then done (i, t) else done (i, u))
  one-Advances i delimiter s t u part h a b = elim (Bool-cases (char_at url i == delimiter)) [
    | inl e ↦ rw e (omega arith)
    | inr e ↦ rw e (omega arith)
  ]

  step-Advances :
      (part : Part) (i : ℕ) (s : State)
      → i < length url
      → s.part ≡ part
      → Advances (length url) i part (step_at part url i s)
  unfolding step_at tokenise_scheme tokenise_domain tokenise_path
  step-Advances scheme_part i s h p =
      let a = scheme_after url i s.attributes.scheme in
      omega (arith, cost_most (length url) (tokenise_scheme url i s.attributes.scheme).0)
  step-Advances username_part i s h p =
      let c = same_cost (length url) s username_part p in
      one-Advances i b':' s _ _ username_part h (omega arith) (omega arith)
  step-Advances password_part i s h p =
      let c = same_cost (length url) s password_part p in
      one-Advances i b'@' s _ _ password_part h (omega arith) (omega arith)
  step-Advances domain_part i s h p =
      let j = domain_end_after url i h small in
      omega (arith, cost_most (length url) (after_domain (char_at url (domain_end url i))))
  step-Advances port_part i s h p =
      let c = same_cost (length url) s port_part p in
      one-Advances i b'/' s _ _ port_part h (omega arith) (omega arith)
  step-Advances path_part i s h p = rw (page-after_path url i s.attributes.path) (omega arith)
  step-Advances page_part i s h p =
      let c = same_cost (length url) s page_part p in
      one-Advances i b'?' s _ _ page_part h (omega arith) (omega arith)
  step-Advances query_part i s h p = query-Advances i s h p
  step-Advances no_part i s h p = let c = same_cost (length url) s no_part p in omega arith

  -- The rest of the loop, after a turn with the outcome `o`.
  rest-ends :
      (fuel i : ℕ) (part : Part) (o : Outcome (ℕ × State))
      → Advances (length url) i part o
      → length url - i + cost (length url) part < fuel + 1
      → ((j : ℕ) (s : State)
          → length url - j + cost (length url) s.part < fuel
          → ended (parse_loop fuel url j s) ≡ true)
      → ended (elim o [
        | done (i', s') ↦ parse_loop fuel url (i' + 1) s'
        | aborted ↦ aborted
        | undefined ↦ undefined
        | exhausted ↦ exhausted
      ])
        ≡ true
  rest-ends fuel i part (done (i', s')) a f next = next (i' + 1) s' (omega arith)
  rest-ends fuel i part aborted a f next = refl
  rest-ends fuel i part undefined a f next = refl
  rest-ends fuel i part exhausted a f next = absurd a

  parse_loop-ends :
      (fuel i : ℕ) (s : State)
      → length url - i + cost (length url) s.part < fuel
      → ended (parse_loop fuel url i s) ≡ true
  unfolding parse_loop
  parse_loop-ends zero i s f = absurd (omega arith)
  parse_loop-ends (suc fuel) i s f = elim (Bool-cases (ltb i (length url))) [
    | inr e ↦ rw (parse_loop, e)
    | inl e ↦
        rw (parse_loop, e)
          (rest-ends fuel i s.part (step_at s.part url i s)
            (step-Advances s.part i s (ltb→lt i (length url) e) refl) (omega arith)
            (parse_loop-ends fuel))
  ]

ended-normalise_path : (path : List Text) → ended (normalise_path path) ≡ true
ended-normalise_path path =
    rw (normalise_path_lem path)
      (elim (Bool-cases (any_dotted 0 path)) [ inl e ↦ rw e | inr e ↦ rw e ])

ended-normalised :
    (a : Attributes) (page : Text) (o : Outcome (List Text))
    → ended o ≡ true
    → ended (normalised a page o) ≡ true
ended-normalised a page (done path) h = refl
ended-normalised a page aborted h = refl
ended-normalised a page undefined h = refl
ended-normalised a page exhausted h = h

ended-normalise : (o : Outcome State) → ended o ≡ true → ended (normalise o) ≡ true
ended-normalise (done s) h =
    ended-normalised s.attributes _ _ (ended-normalise_path s.attributes.path)
ended-normalise aborted h = refl
ended-normalise undefined h = refl
ended-normalise exhausted h = h

ended-parse : (url : Text) (a : Attributes) → length url ≤ npos → ended (parse url a) ≡ true
unfolding parse
ended-parse url a small = ended-normalise _ (
    parse_loop-ends url small (2 * length url + 2) 0
      (record { part = first_part url; attributes = a; query_string = none })
      (omega (arith, cost_most (length url) (first_part url))))

-- On every text that fits into a string the parser ends: its loop, that of the query and that of
-- normalise come to a result, a failed assertion or a use of an iterator that is not valid.
pub parse-exhausted : (url : Text) (a : Attributes) → length url ≤ npos → parse url a ≢ exhausted
parse-exhausted url a small e =
    let h : true ≡ ended (parse url a) = sym (ended-parse url a small) in
    let g : ended (parse url a) ≡ false = ap ended e in cc
