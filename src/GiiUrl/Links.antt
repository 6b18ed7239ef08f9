-- ===== src/GiiUrl/Links.antt =====
-- internal/giiurl/giiurl.go: the address of a law's archive, and the slug in a link of the table of
-- contents.
use gesetzeswache.Prelude.{
  ◌≡◌, subst, String, true, not, Option, none, some, List, [], ◌∷◌, Bool-cases, inl, inr,
  if◌then◌else◌,
}
use gesetzeswache.Text.{trim_space, equal_fold, split_on}
use gesetzeswache.Text.Cut.{◌+++◌, trim_left_set, trim_right_set}
use gesetzeswache.GiiUrl.{valid_slug, at_path}

-- `XMLZip`, with net/url as for `IndexURL`.
unfoldable pub xml_zip :
    (parse_base : String → Option (String → String)) → (gii_base slug : String) → Option String
unfolding valid_slug
xml_zip parse_base gii_base slug =
    let built = at_path (parse_base gii_base) ("/" +++ slug +++ "/xml.zip") in
    if not (valid_slug slug) then none else built

abbrev if_valid : (candidate : String) → Option String → Option String
unfolding valid_slug
if_valid candidate rest = if valid_slug candidate then some candidate else rest

abbrev before_zip : Option String → Option String → Option String
unfolding valid_slug
before_zip none rest = rest
before_zip (some candidate) rest = if_valid candidate rest

-- The loop over the parts; `previous` is the part before.
unfoldable pub zip_slug : (previous : Option String) → List String → Option String
unfolding valid_slug equal_fold
zip_slug previous [] = none
zip_slug previous (p ∷ parts) =
    let rest = zip_slug (some p) parts in
    let found = before_zip previous rest in if equal_fold p "xml.zip" then found else rest

-- The first part, where no archive is named. The test for a single part before it answers the same.
abbrev first_part : List String → Option String
unfolding valid_slug
first_part [] = none
first_part (p ∷ parts) = if_valid p none

abbrev or_first : Option String → List String → Option String
unfolding valid_slug
or_first (some slug) parts = some slug
or_first none parts = first_part parts

abbrev of_path : Option String → Option String
unfolding zip_slug trim_left_set trim_right_set split_on valid_slug
of_path none = none
of_path (some path) =
    let parts = split_on b'/' (trim_right_set (trim_left_set path "/") "/") in
    or_first (zip_slug none parts) parts

-- `SlugFromTOCLink`; none stands for "". `path_of` is the path that net/url finds in a link.
unfoldable pub slug_from_toc_link :
    (path_of : String → Option String) (link : String) → Option String
unfolding zip_slug trim_left_set trim_right_set split_on valid_slug trim_space
slug_from_toc_link path_of link = of_path (path_of (trim_space link))

abbrev IsValid : Option String → Type 0
IsValid none = Unit
IsValid (some slug) = valid_slug slug ≡ true

if_valid-IsValid :
    (candidate : String) (rest : Option String) → IsValid rest → IsValid (if_valid candidate rest)
unfolding valid_slug
if_valid-IsValid candidate rest h = elim (Bool-cases (valid_slug candidate)) [
  | inl e ↦ rw e e
  | inr e ↦ rw e h
]

before_zip-IsValid :
    (previous rest : Option String) → IsValid rest → IsValid (before_zip previous rest)
unfolding valid_slug
before_zip-IsValid none rest h = h
before_zip-IsValid (some candidate) rest h = if_valid-IsValid candidate rest h

zip_slug-IsValid :
    (previous : Option String) (parts : List String) → IsValid (zip_slug previous parts)
unfolding zip_slug valid_slug
zip_slug-IsValid previous [] = tt
zip_slug-IsValid previous (p ∷ parts) = elim (Bool-cases (equal_fold p "xml.zip")) [
  | inl e ↦ rw e (before_zip-IsValid previous _ (zip_slug-IsValid (some p) parts))
  | inr e ↦ rw e (zip_slug-IsValid (some p) parts)
]

or_first-IsValid :
    (found : Option String) (parts : List String) → IsValid found → IsValid (or_first found parts)
unfolding valid_slug
or_first-IsValid (some slug) parts h = h
or_first-IsValid none [] h = tt
or_first-IsValid none (p ∷ parts) h = if_valid-IsValid p none tt

of_path-IsValid : (path : Option String) → IsValid (of_path path)
unfolding zip_slug trim_left_set trim_right_set split_on valid_slug
of_path-IsValid none = tt
of_path-IsValid (some path) =
    let parts = split_on b'/' (trim_right_set (trim_left_set path "/") "/") in
    or_first-IsValid (zip_slug none parts) parts (zip_slug-IsValid none parts)

-- A slug that `SlugFromTOCLink` answers is a valid one, whatever the link and its host are.
pub slug_from_toc_link-IsValid :
    (path_of : String → Option String) (link slug : String)
    → slug_from_toc_link path_of link ≡ some slug
    → valid_slug slug ≡ true
unfolding slug_from_toc_link
slug_from_toc_link-IsValid path_of link slug e =
    subst IsValid e (of_path-IsValid (path_of (trim_space link)))
