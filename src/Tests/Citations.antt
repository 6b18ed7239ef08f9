-- ===== src/Tests/Citations.antt =====
-- Citations and keys at concrete texts.
use gesetzeswache.Prelude.{◌≡◌, ◌↔◌, refl, String, List, [], ◌∷◌, arith, eq_iff}
use gesetzeswache.Text.{trim_space, atoi, to_upper, has_prefix, trim_suffix}
use gesetzeswache.Normalize.{key}
use gesetzeswache.Normalize.Idempotent.{key-key}
use gesetzeswache.Citation.{compare, older, parse_issue_num}
use gesetzeswache.Citation.Order.{
  flip, IsNumbered, Precedes, compare-flip, compare-older_iff, compare_trans,
}
use gesetzeswache.Citation.Instruments.{re_linked_instrument, teil_from}
use gesetzeswache.Citation.Parse.{parse}
use gesetzeswache.Citation.Parse.Fields.{IsComparable, parse-IsComparable}
use gesetzeswache.Domain.{StandCitation}
use gesetzeswache.Tests.Data.{stand_of, parent_stand, child_stand}

abbrev latest_stand : StandCitation
latest_stand = stand_of "xg" 2026 "3" ""

parent-IsNumbered : IsNumbered parent_stand
unfolding parse_issue_num
parent-IsNumbered = record {
  dated = omega arith;
  placed = omega arith;
  given = ground (arith, eq_iff "12" "");
  number = 12;
  parsed = refl;
}

child-IsNumbered : IsNumbered child_stand
unfolding parse_issue_num
child-IsNumbered = record {
  dated = omega arith;
  placed = omega arith;
  given = ground (arith, eq_iff "268" "");
  number = 268;
  parsed = refl;
}

latest-IsNumbered : IsNumbered latest_stand
unfolding parse_issue_num
latest-IsNumbered = record {
  dated = omega arith;
  placed = omega arith;
  given = ground (arith, eq_iff "3" "");
  number = 3;
  parsed = refl;
}

compare-flip_example : compare child_stand parent_stand ≡ flip (compare parent_stand child_stand)
compare-flip_example = compare-flip parent_stand child_stand

compare-older_example :
    (compare parent_stand child_stand ≡ older)
    ↔ Precedes 1 2023 parent-IsNumbered.number 1 2025 child-IsNumbered.number
compare-older_example =
    compare-older_iff parent_stand child_stand parent-IsNumbered child-IsNumbered

compare_trans_example : compare parent_stand latest_stand ≡ older
unfolding compare parse_issue_num
compare_trans_example =
    compare_trans parent_stand child_stand latest_stand parent-IsNumbered child-IsNumbered
      latest-IsNumbered refl refl

parse-IsComparable_example : IsComparable (parse "xg" "BGBl. 2024 I Nr. 12")
unfolding parse trim_space re_linked_instrument atoi teil_from to_upper has_prefix trim_suffix
parse-IsComparable_example = parse-IsComparable "xg" "BGBl. 2024 I Nr. 12" refl

key-key_example : key (key "Straßenverkehrs-Ordnung") ≡ key "Straßenverkehrs-Ordnung"
key-key_example = key-key "Straßenverkehrs-Ordnung"

abbrev id_a : String
id_a = "a"

abbrev ids : List String
ids = "a" ∷ "" ∷ "a" ∷ "b" ∷ []
