-- ===== src/Citation/Parse/Examples.antt =====
-- Stands as they stand in the comments of the source.
use gesetzeswache.Prelude.{◌≡◌, refl, String, ℕ, Bool, true}
use gesetzeswache.Text.{trim_space, atoi, to_upper, has_prefix, trim_suffix}
use gesetzeswache.Citation.Instruments.{re_linked_instrument, teil_from}
use gesetzeswache.Domain.{StandCitation}
use gesetzeswache.Citation.Parse.{parse}

abbrev fields : StandCitation → ℕ × ℕ × String × String × String × Bool
fields s = (s.year, s.teil, s.number, s.page, s.instrument_kind, s.parse_ok)

paged :
    fields (parse "x" "Zuletzt geändert durch Art. 1 G v. 16.8.2023 I 2174")
    ≡ (2023, 1, "", "2174", "", true)
unfolding parse trim_space re_linked_instrument atoi teil_from to_upper has_prefix trim_suffix
paged = refl

numbered : fields (parse "x" "BGBl. 2024 I Nr. 12") ≡ (2024, 1, "12", "", "", true)
unfolding parse trim_space re_linked_instrument atoi teil_from to_upper has_prefix trim_suffix
numbered = refl

kinded : fields (parse "x" " V v. 5.11.2025 II Nr. 268a ") ≡ (2025, 2, "268a", "", "V", true)
unfolding parse trim_space re_linked_instrument atoi teil_from to_upper has_prefix trim_suffix
kinded = refl
