-- ===== src/GiiUrl.antt =====
-- internal/giiurl/giiurl.go: slugs that are safe as a path segment.
pub mod Trimmed
pub mod Links
use Prim.Native.Char.{code}
use Prim.Native.String
use gesetzeswache.Prelude.{
  ℕ, suc, String, Bool, true, false, not, ◌&&◌, ◌||◌, ◌==◌, eqb, leb, Option, none, some,
  if◌then◌else◌,
}
use Prim.Native.String.{[], ◌∷◌}
use gesetzeswache.Text.{contains}

abbrev pub max_slug_len : ℕ
max_slug_len = 128

abbrev pub is_slug_start : ℕ → Bool
is_slug_start c =
    leb b'a' c && leb c b'z' || leb b'A' c && leb c b'Z' || leb b'0' c && leb c b'9' || eqb c b'_'

abbrev pub is_slug_rune : ℕ → Bool
is_slug_rune c = is_slug_start c || eqb c b'.' || eqb c b'-'

abbrev pub all_slug_runes : String → Bool
all_slug_runes [] = true
all_slug_runes (c ∷ s) = is_slug_rune (code c) && all_slug_runes s

-- `slugRe`: `^[a-zA-Z0-9_][a-zA-Z0-9._-]*$`
unfoldable pub slug_re : String → Bool
slug_re [] = false
slug_re (c ∷ s) = is_slug_start (code c) && all_slug_runes s

-- `len(s)` for a text that `slug_re` accepts, whose runes are bytes.
abbrev pub size : String → ℕ
size [] = 0
size (c ∷ s) = suc (size s)

unfoldable pub valid_slug : String → Bool
unfolding slug_re
valid_slug slug =
    not (slug == "") && leb (size slug) max_slug_len && slug_re slug && not (contains slug "..")

infixl 65 ◌+++◌
abbrev ◌+++◌ : String → String → String
◌+++◌ = Prim.Native.String.◌++◌

abbrev at_path : Option (String → String) → String → Option String
at_path none path = none
at_path (some url) path = some (url path)

-- `IndexURL`. `net/url` is a parameter: it answers the text of the parsed base with the scheme https
-- and another path, or none if the base does not parse or has no host.
unfoldable pub index_url :
    (parse_base : String → Option (String → String)) → (gii_base slug : String) → Option String
unfolding valid_slug
index_url parse_base gii_base slug =
    let built = at_path (parse_base gii_base) ("/" +++ slug +++ "/") in
    if not (valid_slug slug) then none else built
