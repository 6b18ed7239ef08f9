-- ===== src/Text/Laws.antt =====
-- Texts at work.
use gesetzeswache.Prelude.{◌≡◌, refl, true, negsuc}
use gesetzeswache.Text.{
  to_upper, trim_space, equal_fold, itoa, atoi, has_prefix, has_suffix, contains,
}

text_tests :
    (to_upper (trim_space "  bek \n") ≡ "BEK")
    × (itoa 2026 ≡ "2026")
    × (atoi "-12" ≡ record { value = negsuc 11; ok = true })
    × (equal_fold "GeſetZ" "gesetz" ≡ true)
    × (has_suffix "abgabengesetz" "gesetz" ≡ true)
    × (contains "a b" " b" ≡ true)
unfolding to_upper trim_space itoa atoi equal_fold has_suffix contains has_prefix
text_tests = (refl, refl, refl, refl, refl, refl)
