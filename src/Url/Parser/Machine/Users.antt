-- ===== src/Url/Parser/Machine/Users.antt =====
-- url/Parser.cpp: a user name without a password.
use mathlib.Core.List.{append_assoc, append-nil}
use oodles.Prelude.{
  ℕ, zero, suc, ◌+◌, ◌<◌, ◌≡◌, true, false, [], ◌∷◌, ◌++◌, ltb, ◌==◌, length, drop, arith,
}
use oodles.Url.Attributes.{Attributes, username_part, Text}
use oodles.Url.Parser.Scan.{done}
use oodles.Url.Parser.Scan.Bounds.{lacks, length-drop}
use oodles.Url.Parser.Machine.{step_at, parse_loop}
use oodles.Url.Parser.Machine.Phases.{at_part, drop-head}

username_rest : (url : Text) (i : ℕ) → drop i url ≡ [] → ltb i (length url) ≡ false
username_rest url i d = let z : length (drop i url) ≡ 0 = rw d in ground (arith, length-drop i url)

-- In the part of the user name only a ':' leads on: when none follows, the rest of the URL is added to
-- the user name, '@', domain and path included, given fuel for every character that is left.
pub parse_loop-username :
    (url rest : Text) (i fuel : ℕ) (a : Attributes)
    → drop i url ≡ rest
    → lacks b':' rest ≡ true
    → length rest < fuel
    → parse_loop fuel url i (at_part username_part a)
      ≡ done (at_part username_part (record a { username = a.username ++ rest }))
unfolding parse_loop step_at
parse_loop-username url rest i zero a d h f = absurd (omega arith)
parse_loop-username url [] i (suc fuel) a d h f =
    let t : ltb i (length url) ≡ false = username_rest url i d in
    rw (parse_loop, t, append-nil a.username)
parse_loop-username url (c ∷ rest) i (suc fuel) a d h f =
    let (l, x, d') = drop-head i url c rest d in
    let t : ltb i (length url) ≡ true = ground arith in
    let plain : (c == b':') ≡ false = ground arith in
    let z : suc i ≡ i + 1 = omega arith in
    let k =
      parse_loop-username url rest (i + 1) fuel (record a { username = a.username ++ c ∷ [] })
        (rw (← z) d') (ground arith) (omega arith) in
    rw (parse_loop, t, x, plain) (rw (append_assoc a.username (c ∷ []) rest) at k)
