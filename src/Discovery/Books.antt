-- ===== src/Discovery/Books.antt =====
-- internal/discovery/parent_resolve.go: the names of laws that need no catalog: the books of the
-- Social Code by their ordinals, and three statutes. discovery/types.go: a reference to a statute.
use gesetzeswache.Prelude.{String, Bool, ◌==◌, List, [], ◌∷◌, ◌++◌, map, any, if◌then◌else◌}
use gesetzeswache.Text.{contains}
use gesetzeswache.Text.Cut.{◌+++◌}
use gesetzeswache.Normalize.{key}

pub record Ermaechtigung : Type 0 where
  pub section : String
  pub absatz : String
  pub satz : String
  pub law_title_phrase : String
  pub jurabk : String
  pub raw : String

-- `SectionHint`
unfoldable pub section_hint_of : Ermaechtigung → String
section_hint_of e = if e.section == "" then "" else "§ " +++ e.section

-- `sgbBookPhraseEntry`
pub record Book : Type 0 where
  pub jurabk : String
  pub tokens : List String
  pub full_titles : List String

abbrev book : (jurabk : String) → (tokens full_titles : List String) → Book
book j t f = record { jurabk = j; tokens = t; full_titles = f }

-- `sgbBookPhraseEntries`
abbrev pub sgb_book_phrase_entries : List Book
sgb_book_phrase_entries =
    book "SGB XII"
      ("zwölften buches" ∷ "zwoelften buches" ∷ "zwölftes buch" ∷ "zwoelftes buch" ∷ [])
      ("Zwölften Buches Sozialgesetzbuch" ∷ "Zwölftes Buch Sozialgesetzbuch" ∷ [])
    ∷ book "SGB XI" ("elften buches" ∷ "elftes buch" ∷ []) (
        "Elften Buches Sozialgesetzbuch" ∷ "Elftes Buch Sozialgesetzbuch" ∷ "Elften Buches"
        ∷ "Elftes Buch" ∷ [])
    ∷ book "SGB X" ("zehnten buches" ∷ "zehntes buch" ∷ [])
        ("Zehnten Buches Sozialgesetzbuch" ∷ "Zehntes Buch Sozialgesetzbuch" ∷ [])
    ∷ book "SGB IX" ("neunten buches" ∷ "neuntes buch" ∷ [])
        ("Neunten Buches Sozialgesetzbuch" ∷ "Neuntes Buch Sozialgesetzbuch" ∷ [])
    ∷ book "SGB VIII" ("achten buches" ∷ "achtes buch" ∷ [])
        ("Achten Buches Sozialgesetzbuch" ∷ "Achtes Buch Sozialgesetzbuch" ∷ [])
    ∷ book "SGB VII"
        ("siebenten buches" ∷ "siebten buches" ∷ "siebentes buch" ∷ "siebtes buch" ∷ [])
        ("Siebten Buches Sozialgesetzbuch" ∷ "Siebtes Buch Sozialgesetzbuch" ∷ [])
    ∷ book "SGB VI" ("sechsten buches" ∷ "sechstes buch" ∷ [])
        ("Sechsten Buches Sozialgesetzbuch" ∷ "Sechstes Buch Sozialgesetzbuch" ∷ [])
    ∷ book "SGB V" ("fünften buches" ∷ "fuenften buches" ∷ "fünftes buch" ∷ "fuenftes buch" ∷ [])
        ("Fünften Buches Sozialgesetzbuch" ∷ "Fünftes Buch Sozialgesetzbuch" ∷ [])
    ∷ book "SGB IV" ("vierten buches" ∷ "viertes buch" ∷ [])
        ("Vierten Buches Sozialgesetzbuch" ∷ "Viertes Buch Sozialgesetzbuch" ∷ [])
    ∷ book "SGB III" ("dritten buches" ∷ "drittes buch" ∷ [])
        ("Dritten Buches Sozialgesetzbuch" ∷ "Drittes Buch Sozialgesetzbuch" ∷ [])
    ∷ book "SGB II" ("zweiten buches" ∷ "zweites buch" ∷ [])
        ("Zweiten Buches Sozialgesetzbuch" ∷ "Zweites Buch Sozialgesetzbuch" ∷ [])
    ∷ book "SGB I" ("ersten buches" ∷ "erstes buch" ∷ [])
        ("Ersten Buches Sozialgesetzbuch" ∷ "Erstes Buch Sozialgesetzbuch" ∷ [])
    ∷ []

-- `builtinParentName`
pub record Builtin : Type 0 where
  pub names : List String
  pub mapped : String

-- `builtinParentNames`
abbrev pub builtin_parent_names : List Builtin
builtin_parent_names =
    record { names = "Mindestlohngesetz" ∷ "Mindestlohngesetzes" ∷ []; mapped = "milog" }
    ∷ record { names = "Lastenausgleichsgesetz" ∷ "Lastenausgleichsgesetzes" ∷ []; mapped = "lag" }
    ∷ record {
      names = "Arbeitnehmer-Entsendegesetz" ∷ "Arbeitnehmer-Entsendegesetzes" ∷ [];
      mapped = "aentg2009";
    }
    ∷ []

-- What `init` writes into `builtInTitleParents`, in its order, the last write of a key first.
abbrev named : (mapped : String) → List String → List (String × String)
named mapped names = map (λ name. (name, mapped)) names

abbrev named_builtins : List Builtin → List (String × String)
named_builtins [] = []
named_builtins (e ∷ more) = named_builtins more ++ named e.mapped e.names

abbrev named_books : List Book → List (String × String)
named_books [] = []
named_books (e ∷ more) =
    named_books more ++ (named e.jurabk e.full_titles ++ named e.jurabk e.tokens)

abbrev named_parents : List (String × String)
named_parents = named_books sgb_book_phrase_entries ++ named_builtins builtin_parent_names

abbrev mapped_of : (phrase_key : String) → List (String × String) → String
mapped_of k [] = ""
mapped_of k ((name, mapped) ∷ more) = if key name == k then mapped else mapped_of k more

-- `builtInTitleParents[k]`, which is "" for a key that is not there.
unfoldable pub built_in_title_parent : (phrase_key : String) → String
unfolding key
built_in_title_parent k = mapped_of k named_parents

-- `builtinDirectParentIDs[key]`
unfoldable pub is_direct_parent : (id_key : String) → Bool
unfolding key
is_direct_parent k = any (λ e. key e.mapped == k) builtin_parent_names

-- Does the lowered phrase hold one of the tokens of a book?
abbrev pub names_book : (lower : String) → Book → Bool
unfolding contains
names_book lower e = any (λ token. contains lower token) e.tokens

abbrev pub first_book : (lower : String) → List Book → String
unfolding contains
first_book lower [] = ""
first_book lower (e ∷ more) = if names_book lower e then e.jurabk else first_book lower more
