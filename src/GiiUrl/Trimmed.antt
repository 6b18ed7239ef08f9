-- ===== src/GiiUrl/Trimmed.antt =====
-- A valid slug has no space round it.
use Prim.Native.Char.{Char, code}
use Prim.Native.String.{String, [], ◌∷◌}
use gesetzeswache.Prelude.{
  ℕ, ◌≡◌, ◌≢◌, refl, ap, ◌∙◌, Bool, true, false, ◌&&◌, eq_iff, arith, if◌then◌else◌,
}
use gesetzeswache.Text.{trim_space, trim_left, trim_right, is_empty}
use gesetzeswache.Text.Runes.{is_space}
use gesetzeswache.GiiUrl.{valid_slug, slug_re, all_slug_runes, is_slug_rune}

slug_rune-not_space : (c : ℕ) → is_slug_rune c ≡ true → is_space c ≡ false
unfolding is_space
slug_rune-not_space c h = ground arith

trim_left-slug : (s : String) → all_slug_runes s ≡ true → trim_left s ≡ s
unfolding trim_left
trim_left-slug [] h = refl
trim_left-slug (c ∷ s) h = rw (slug_rune-not_space (code c) (ground arith)) refl

keep_first : (c : Char) (s : String) (b : Bool) → (if b && false then [] else c ∷ s) ≡ c ∷ s
keep_first c s true = refl
keep_first c s false = refl

trim_right-slug : (s : String) → all_slug_runes s ≡ true → trim_right s ≡ s
unfolding trim_right
trim_right-slug [] h = refl
trim_right-slug (c ∷ s) h =
    let here = slug_rune-not_space (code c) (ground arith) in
    rw (trim_right-slug s (ground arith), here) (keep_first c s (is_empty s))

slug_re-runes : (s : String) → slug_re s ≡ true → all_slug_runes s ≡ true
unfolding slug_re
slug_re-runes [] h = refl
slug_re-runes (c ∷ s) h = ground arith

valid_slug-parts : (s : String) → valid_slug s ≡ true → (s ≢ "") × (slug_re s ≡ true)
unfolding valid_slug
valid_slug-parts s h = (ground (arith, eq_iff s ""), ground arith)

pub trim_space-slug : (s : String) → valid_slug s ≡ true → trim_space s ≡ s
unfolding trim_space
trim_space-slug s h =
    let runes = slug_re-runes s (valid_slug-parts s h).1 in
    ap trim_right (trim_left-slug s runes) ∙ trim_right-slug s runes

pub valid_slug-ne : (s : String) → valid_slug s ≡ true → s ≢ ""
valid_slug-ne s h = (valid_slug-parts s h).0
