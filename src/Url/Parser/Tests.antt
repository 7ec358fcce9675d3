-- ===== src/Url/Parser/Tests.antt =====
-- url/Parser.cpp: runs of the parser.
use oodles.Prelude.{◌≡◌, refl, false, none, [], ◌∷◌, bytes, arith, ◌≢◌, ◌++◌}
use oodles.Url.Attributes.{username_part}
use oodles.Url.Parser.Scan.{
  done, aborted, exhausted, find_first_of, find_last_of, count_chars, str2int, text_less,
}
use oodles.Url.Parser.Query.{tokenise_query, add_query, insert_pair}
use oodles.Url.Parser.Tokens.{tokenise_scheme, tokenise_domain, tokenise_path}
use oodles.Url.Parser.Query.Flags.{tokenise_query-flag}
use oodles.Url.Parser.Normalise.{normalise_path}
use oodles.Url.Parser.Machine.{parse, parse_loop}
use oodles.Url.Parser.Machine.Phases.{at_part}
use oodles.Url.Parser.Machine.Ending.{parse-exhausted}
use oodles.Url.Parser.Machine.Users.{parse_loop-username}
use oodles.Url.Parser.Machine.RoundTrip.{no_attributes}

-- Every part at once: the query is printed into the page again, in order.
whole_url :
    parse (bytes "HTTP://u:p@A.Com:80/a/b/c.html?y=1&x=2") no_attributes
    ≡ done (record {
      ip = false;
      port = bytes "80";
      page = bytes "c.html?x=2&y=1";
      scheme = bytes "http";
      username = bytes "u";
      password = bytes "p";
      path = bytes "a" ∷ bytes "b" ∷ [];
      domain = bytes "a" ∷ bytes "com" ∷ [];
    })
unfolding parse find_first_of tokenise_scheme find_last_of tokenise_domain tokenise_path
    tokenise_query normalise_path count_chars str2int add_query insert_pair text_less
whole_url = refl

-- After an anchor of two characters the query is read again, and the assertion fails.
anchor_aborts : parse (bytes "http://a.com/b?c=d#ef") no_attributes ≡ aborted
unfolding parse find_first_of tokenise_scheme find_last_of tokenise_domain tokenise_path
    tokenise_query
anchor_aborts = refl

parse-exhausted_example : parse (bytes "http://a.com/b?c=d#ef") no_attributes ≢ exhausted
parse-exhausted_example =
    parse-exhausted (bytes "http://a.com/b?c=d#ef") no_attributes (omega arith)

parse_loop-username_example :
    parse_loop 20 (bytes "http://u@a.com/b") 7 (at_part username_part no_attributes)
    ≡ done (at_part username_part (record no_attributes { username = [] ++ bytes "u@a.com/b" }))
parse_loop-username_example =
    parse_loop-username (bytes "http://u@a.com/b") (bytes "u@a.com/b") 7 20 no_attributes refl refl
      (omega arith)

tokenise_query-flag_example :
    tokenise_query (bytes "http://a/b?flag") 11 none
    ≡ done (17, (bytes "flag", bytes "http://a/b?flag") ∷ [])
tokenise_query-flag_example =
    tokenise_query-flag (bytes "http://a/b?flag") 11 (omega arith) (omega arith) refl refl
