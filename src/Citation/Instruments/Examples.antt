-- ===== src/Citation/Instruments/Examples.antt =====
-- Citations as they stand in the tests of the source.
use gesetzeswache.Prelude.{◌≡◌, refl, [], ◌∷◌, map, String, ℕ}
use gesetzeswache.Domain.{InstrumentRef}
use gesetzeswache.Citation.Instruments.{parse_linked_instruments}

abbrev identity : InstrumentRef → String × ℕ × ℕ × String × String
identity ref = (ref.kind, ref.teil, ref.year, ref.number, ref.section_hint)

linked :
    map identity (parse_linked_instruments "§ 1 V v. 5.11.2025 I Nr. 268")
    ≡ ("V", 1, 2025, "268", "§ 1") ∷ []
unfolding parse_linked_instruments
linked = refl

stand_style :
    map identity (parse_linked_instruments "geändert v. 12.5.2026 II Nr. 137a; BGBl. 2024 I Nr. 12")
    ≡ ("", 1, 2024, "12", "") ∷ ("", 2, 2026, "137a", "") ∷ []
unfolding parse_linked_instruments
stand_style = refl
