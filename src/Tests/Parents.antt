-- ===== src/Tests/Parents.antt =====
-- Parents of an ordinance.
use gesetzeswache.Prelude.{
  ◌<◌, ◌≡◌, ◌⊎◌, refl, String, true, false, ◌||◌, ◌==◌, none, some, [], ◌∷◌, Memᴰ, All, arith,
  if◌then◌else◌,
}
use gesetzeswache.Text.{itoa, has_prefix}
use gesetzeswache.Text.Cut.{◌+++◌, rune_len}
use gesetzeswache.Normalize.{key}
use gesetzeswache.Normalize.Sgb.{int_to_roman, roman_to_int, parse_sgb_book_query}
use gesetzeswache.Normalize.Sgb.Roman.{roman_to_int-int_to_roman, parse_sgb_book_query-same_book}
use gesetzeswache.Domain.{Law}
use gesetzeswache.Discovery.Books.{Ermaechtigung}
use gesetzeswache.Discovery.Parents.{
  ParentLookup, unique_from, resolve_parent, precise_parent_candidates, title_parent_candidates,
}
use gesetzeswache.Discovery.Parents.Unique.{IsOnlyKey, resolve_parent-IsOnlyKey}
use gesetzeswache.Discovery.Preamble.{segment_start_indexes}
use gesetzeswache.Discovery.Preamble.Starts.{IsRising, segment_start_indexes-IsRising}
use gesetzeswache.Discovery.Lookup.{
  CatalogLookup, by_title_phrase, looks_like_verordnung, is_strong, is_weak,
}
use gesetzeswache.Discovery.Lookup.Found.{by_title_phrase-IsOf}

roman_to_int-int_example :
    (roman : String) × (int_to_roman 14 ≡ some roman) × (roman_to_int roman ≡ some 14)
roman_to_int-int_example = roman_to_int-int_to_roman 14 (omega arith) (omega arith)

roman_14 : int_to_roman 14 ≡ some "XIV"
unfolding int_to_roman
roman_14 = refl

parse_sgb_book_query-same_example :
    (parse_sgb_book_query ("SGB " +++ "XIV") ≡ some 14)
    × (parse_sgb_book_query ("sgb_" +++ itoa 14) ≡ some 14)
parse_sgb_book_query-same_example =
    parse_sgb_book_query-same_book 14 "XIV" (omega arith) (omega arith) roman_14

abbrev lookup : ParentLookup
lookup = record {
  by_jurabk = λ j. if j == "SGB XI" then "SGB 11" ∷ [] else [];
  by_title_phrase = λ p. "bgb" ∷ "sgb_11" ∷ [];
}

abbrev care : Ermaechtigung
care = record {
  section = "55";
  absatz = "3";
  satz = "";
  law_title_phrase = "Elften Buches Sozialgesetzbuch";
  jurabk = "SGB XI";
  raw = "";
}

care_resolved : resolve_parent lookup care ≡ some "sgb11"
unfolding resolve_parent
care_resolved = refl

resolve_parent-IsOnlyKey_example :
    IsOnlyKey "sgb11" (precise_parent_candidates lookup care)
    ⊎ ((unique_from (precise_parent_candidates lookup care) ≡ none)
        × IsOnlyKey "sgb11" (title_parent_candidates lookup care))
resolve_parent-IsOnlyKey_example = resolve_parent-IsOnlyKey lookup care "sgb11" care_resolved

abbrev preamble : String
preamble = "Auf Grund des § 69 des Sechsten Buches und – des § 6 des Fünften Buches"

segment_start_indexes-IsRising_example :
    IsRising (segment_start_indexes preamble)
    × All (λ p. p < rune_len preamble) (segment_start_indexes preamble)
segment_start_indexes-IsRising_example = segment_start_indexes-IsRising preamble

two_starts : segment_start_indexes preamble ≡ 10 ∷ 45 ∷ []
unfolding segment_start_indexes
two_starts = refl

abbrev milog : Law
milog = record {
  id = "MiLoG";
  abbreviation = "MiLoG";
  title = "Mindestlohngesetz";
  gii_path = "milog";
  gii_url = "";
}

abbrev milov : Law
milov = record {
  id = "milov5";
  abbreviation = "MiLoV5";
  title = "Verordnung nach dem Mindestlohngesetz";
  gii_path = "milov5";
  gii_url = "";
}

abbrev catalog : CatalogLookup
catalog = record { laws = milov ∷ milog ∷ []; variants = [] }

only_statute : by_title_phrase catalog "Mindestlohngesetzes" ≡ "milog" ∷ []
unfolding by_title_phrase has_prefix
only_statute = refl

by_title_phrase-IsOf_example :
    (law : Law) × Memᴰ law catalog.laws
    × (key law.id ≡ "milog")
    × (looks_like_verordnung law ≡ false)
    × ((is_strong "Mindestlohngesetzes" law || is_weak "Mindestlohngesetzes" law) ≡ true)
by_title_phrase-IsOf_example =
    by_title_phrase-IsOf catalog "Mindestlohngesetzes" "milog" (rw only_statute (Memᴰ.head refl))
