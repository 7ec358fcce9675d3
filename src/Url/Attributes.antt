-- ===== src/Url/Attributes.antt =====
-- url/Parser.hpp, `Attributes`, and the states that URL.hpp names. A string is the list of its bytes.
use oodles.Prelude.{ℕ, ◌+◌, Bool, true, false, List, [], ◌∷◌, get_or}

abbrev pub Text : Type 0
Text = List ℕ

pub record Attributes : Type 0 where
  pub ip : Bool
  pub port : Text
  pub page : Text
  pub scheme : Text
  pub username : Text
  pub password : Text
  pub path : List Text
  pub domain : List Text

-- The enumeration of class URL, with -1 as `no_part`.
pub data Part : Type 0 where
  scheme_part username_part password_part domain_part port_part path_part page_part : Part
  query_part no_part : Part

-- The internal states of both iterators.
pub data Stage : Type 0 where
  invalid begin transient end : Stage

-- The string that an iterator's pointer points to, by its place in the attributes.
pub data Place : Type 0 where
  scheme_place username_place password_place port_place page_place : Place
  domain_place path_place : ℕ → Place

abbrev pub is_nil {ℓ} : {A : Type ℓ} → List A → Bool
is_nil [] = true
is_nil (x ∷ xs) = false

-- `operator*`.
unfoldable pub at : Attributes → Place → Text
at a scheme_place = a.scheme
at a username_place = a.username
at a password_place = a.password
at a port_place = a.port
at a page_place = a.page
at a (domain_place i) = get_or a.domain i []
at a (path_place i) = get_or a.path i []

-- The places of one vector, from element `i` on.
abbrev pub places {ℓ} : {A : Type ℓ} → (ℕ → Place) → ℕ → List A → List Place
places f i [] = []
places f i (x ∷ xs) = f i ∷ places f (i + 1) xs

abbrev pub page_places : Text → List Place
page_places [] = []
page_places (c ∷ cs) = page_place ∷ []
