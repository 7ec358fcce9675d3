-- ===== src/Url/Parser/Machine/Known.antt =====
-- url/Parser.cpp: the searches on a URL that to_string printed.
use mathlib.Core.List.{append_assoc}
use oodles.Prelude.{
  ◌∙◌, ℕ, ◌+◌, ◌<◌, ◌≡◌, Bool, true, false, not, ◌&&◌, List, [], ◌∷◌, ◌++◌, ltb, ◌==◌, length, drop,
  arith, length-append,
}
use oodles.Url.Attributes.{Text}
use oodles.Url.Ids.{join, dot, slash}
use oodles.Url.Parser.Scan.{npos, find_first_of, find_last_of, occurrences}
use oodles.Url.Parser.Scan.Bounds.{
  all_of, lacks, all_of-append, all_of_weaker, occurrences-append, occurrences-lacks,
}
use oodles.Url.Parser.Scan.Finds.{find_first_at, find_last_none, find_last_at}
use oodles.Url.Parser.Tokens.{domain_end}
use oodles.Url.Parser.Tokens.Splits.{host_char, all_hosts, all_lack}

pub all_of-join_hosts :
    (x : Text) (xs : List Text) (p : ℕ → Bool)
    → p b'.' ≡ true
    → ((c : ℕ) → host_char c ≡ true → p c ≡ true)
    → all_of host_char x ≡ true
    → all_hosts xs ≡ true
    → all_of p (join dot x xs) ≡ true
unfolding join
all_of-join_hosts x [] p d w h g = all_of_weaker host_char p x w h
all_of-join_hosts x (y ∷ ys) p d w h g =
    let a = all_of_weaker host_char p x w h in
    let b = all_of-join_hosts y ys p d w (ground arith) (ground arith) in
    rw (all_of-append p x (dot ++ join dot y ys), a, d, b)

pub occurrences-join-dot :
    (x : Text) (xs : List Text)
    → all_of host_char x ≡ true
    → all_hosts xs ≡ true
    → occurrences b'.' (join dot x xs) ≡ length xs
unfolding occurrences join
occurrences-join-dot x [] h g =
    occurrences-lacks b'.' x
      (all_of_weaker host_char (λ c. not (c == b'.')) x (λ c e. ground arith) h)
occurrences-join-dot x (y ∷ ys) h g =
    let a =
      occurrences-lacks b'.' x
        (all_of_weaker host_char (λ c. not (c == b'.')) x (λ c e. ground arith) h) in
    let b = occurrences-join-dot y ys (ground arith) (ground arith) in
    occurrences-append b'.' x (dot ++ join dot y ys) ∙ omega arith

pub occurrences-join-slash :
    (x : Text) (xs : List Text)
    → lacks b'/' x ≡ true
    → all_lack xs ≡ true
    → occurrences b'/' (join slash x xs) ≡ length xs
unfolding occurrences join
occurrences-join-slash x [] h g = occurrences-lacks b'/' x h
occurrences-join-slash x (y ∷ ys) h g =
    let a = occurrences-lacks b'/' x h in
    let b = occurrences-join-slash y ys (ground arith) (ground arith) in
    occurrences-append b'/' x (slash ++ join slash y ys) ∙ omega arith

-- The end of the domain, which begins behind `head`, the scheme and its delimiter.
pub domain_end-known :
    (url s h r : Text) (i j : ℕ)
    → url ≡ s ++ b':' ∷ b'/' ∷ b'/' ∷ (h ++ b'/' ∷ r)
    → i ≡ length s + 3
    → j ≡ i + length h
    → drop i url ≡ h ++ b'/' ∷ r
    → lacks b':' h ≡ true
    → lacks b'/' h ≡ true
    → length url < npos
    → domain_end url i ≡ j
unfolding domain_end
domain_end-known url s h r i j e k m d c l n =
    let u : url ≡ (s ++ b':' ∷ ((b'/' ∷ b'/' ∷ h) ++ b'/' ∷ [])) ++ r =
      e
      ∙ rw (
        append_assoc s (b':' ∷ ((b'/' ∷ b'/' ∷ h) ++ b'/' ∷ [])) r,
        append_assoc h (b'/' ∷ []) r,
      ) in
    let f : find_first_of url b'/' i ≡ j = find_first_at b'/' i url h r d l ∙ omega arith in
    let no : lacks b':' ((b'/' ∷ b'/' ∷ h) ++ b'/' ∷ []) ≡ true =
      all_of-append (λ x. not (x == b':')) (b'/' ∷ b'/' ∷ h) (b'/' ∷ []) ∙ rw c in
    let w : j + 1 ≡ length (s ++ b':' ∷ ((b'/' ∷ b'/' ∷ h) ++ b'/' ∷ [])) = omega (
      arith,
      length-append s (b':' ∷ ((b'/' ∷ b'/' ∷ h) ++ b'/' ∷ [])),
      length-append h (b'/' ∷ []),
    ) in
    let g : find_last_of url b':' j ≡ length s =
      find_last_at b':' j url s ((b'/' ∷ b'/' ∷ h) ++ b'/' ∷ []) r u w no in
    let z : length url ≡ length s + 3 + length h + 1 + length r = rw e (
      omega (
        arith,
        length-append s (b':' ∷ b'/' ∷ b'/' ∷ (h ++ b'/' ∷ r)),
        length-append h (b'/' ∷ r),
      )) in
    let a : (j == npos) ≡ false = ground arith in
    let b : (not (length s == npos) && ltb i (length s)) ≡ false = ground arith in rw (f, a, g, b)

pub no_user-known :
    (url s h r : Text) (i : ℕ)
    → url ≡ s ++ b':' ∷ b'/' ∷ b'/' ∷ (h ++ b'/' ∷ r)
    → i ≡ length s + 3
    → drop i url ≡ h ++ b'/' ∷ r
    → lacks b'@' s ≡ true
    → lacks b'@' h ≡ true
    → lacks b'/' h ≡ true
    → find_last_of url b'@' (find_first_of url b'/' i) ≡ npos
no_user-known url s h r i e k d a b l =
    let before = s ++ b':' ∷ ((b'/' ∷ b'/' ∷ h) ++ b'/' ∷ []) in
    let u : url ≡ before ++ r =
      e
      ∙ rw (
        append_assoc s (b':' ∷ ((b'/' ∷ b'/' ∷ h) ++ b'/' ∷ [])) r,
        append_assoc h (b'/' ∷ []) r,
      ) in
    let f : find_first_of url b'/' i ≡ i + length h = find_first_at b'/' i url h r d l in
    let w : i + length h + 1 ≡ length before = omega (
      arith,
      length-append s (b':' ∷ ((b'/' ∷ b'/' ∷ h) ++ b'/' ∷ [])),
      length-append h (b'/' ∷ []),
    ) in
    let no : lacks b'@' before ≡ true =
      all_of-append (λ x. not (x == b'@')) s (b':' ∷ ((b'/' ∷ b'/' ∷ h) ++ b'/' ∷ []))
      ∙ rw (a, all_of-append (λ x. not (x == b'@')) h (b'/' ∷ []), b) in
    rw f (find_last_none b'@' (i + length h) url before r u w no)
