-- ===== src/Net/Http/ResponseCodes.antt =====
-- net/http/ResponseCodes.cpp and ResponseCodes.hpp: the phrases of the HTTP response codes, in a
-- vector that a bit set indexes by rank.
pub mod Laws
mod Tests
use Prim.Native.String.{String}
use oodles.Prelude.{
  ℕ, ◌+◌, ◌-◌, ◌%◌, ◌^◌, Bool, true, false, List, [], ◌∷◌, ◌++◌, Option, none, some, ltb, ◌==◌,
  ◌||◌, if◌then◌else◌, length, get_elem?, set,
}
use oodles.Utility.BitSet.{BitSet, set_bits, index_of, minus_one, size_of_int32}
use oodles.Utility.BitSet

pub record ResponseCodes : Type 0 where
  pub index : BitSet
  pub messages : List String

-- What `operator[]` does: a phrase, a RangeError, or an undefined read behind the vector's end.
pub data Phrase : Type 0 where
  phrase : String → Phrase
  range_error : Phrase
  out_of_range : Phrase

abbrev pub phrase_at : Option String → Phrase
phrase_at (some s) = phrase s
phrase_at none = out_of_range

-- ResponseCodes::operator[]
unfoldable pub at : ResponseCodes → ℕ → Phrase
at r code =
    let i = index_of r.index (code % 2 ^ 32) in
    if i == minus_one || ltb (length r.messages) (size_of_int32 i)
    then range_error
    else phrase_at (get_elem? r.messages (size_of_int32 i))

-- ResponseCodes::add_message; `none` is the failed assertion.
unfoldable pub add_message : ResponseCodes → ℕ → String → Option ResponseCodes
add_message r code message =
    let (b, ok) = set_bits r.index code in
    let i = size_of_int32 (index_of b code) in
    let grown = if ltb i (length r.messages + 1) then r.messages ++ "" ∷ [] else r.messages in
    if ok then some (record { index = b; messages = set grown i message }) else none

-- The calls of add_message() in the constructor, in order.
abbrev pub phrases : List (ℕ × String)
phrases =
    (100, "Continue")
    ∷ (101, "Switching Protocols")
    ∷ (200, "OK")
    ∷ (201, "Created")
    ∷ (202, "Accepted")
    ∷ (203, "Non-Authoritative Information")
    ∷ (204, "No Content")
    ∷ (205, "Reset Content")
    ∷ (206, "Partial Content")
    ∷ (300, "Multiple Choices")
    ∷ (301, "Moved Permanently")
    ∷ (302, "Found")
    ∷ (303, "See Other")
    ∷ (304, "Not Modified")
    ∷ (305, "Use Proxy")
    ∷ (306, "(Unused)")
    ∷ (307, "Temporary Redirect")
    ∷ (400, "Bad Request")
    ∷ (401, "Unauthorized")
    ∷ (402, "Payment Required")
    ∷ (403, "Forbidden")
    ∷ (404, "Not Found")
    ∷ (405, "Method Not Allowed")
    ∷ (406, "Not Acceptable")
    ∷ (407, "Proxy Authentication Required")
    ∷ (408, "Request Timeout")
    ∷ (409, "Conflict")
    ∷ (410, "Gone")
    ∷ (411, "Length Required")
    ∷ (412, "Precondition Failed")
    ∷ (413, "Request Entity Too Large")
    ∷ (414, "Request URI Too Long")
    ∷ (415, "Unsupported Media Type")
    ∷ (416, "Requested Range Not Satisfiable")
    ∷ (417, "Expectation Failed")
    ∷ (500, "Internal Server Error")
    ∷ (501, "Not Implemented")
    ∷ (502, "Bad Gateway")
    ∷ (503, "Service Unavailable")
    ∷ (504, "Gateway Timeout")
    ∷ (505, "HTTP Version Not Supported")
    ∷ []

unfoldable pub add_messages : ResponseCodes → List (ℕ × String) → Option ResponseCodes
add_messages r [] = some r
add_messages r ((code, message) ∷ rest) = elim (add_message r code message) [
  | none ↦ none
  | some r' ↦ add_messages r' rest
]

-- ResponseCodes::ResponseCodes()
unfoldable pub create : Option ResponseCodes
create = add_messages (record { index = BitSet.create 505; messages = [] }) phrases
