-- ===== src/Export/Ausfertigung.antt =====
-- internal/export/ausfertigung_xml.go: the date of a law's making.
use gesetzeswache.Prelude.{
  String, Bool, false, ◌||◌, Option, none, some, List, [], ◌∷◌, if◌then◌else◌,
}
use gesetzeswache.Text.{trim_space, equal_fold}
use gesetzeswache.Text.Runes.{fold_rune}
use gesetzeswache.Text.Cut.{◌+++◌}
use gesetzeswache.Regex.{Regex, seq, at_start, at_end, times, literal, digit, Match, find_from}
use gesetzeswache.Xml.{Token, start, end_of, char_data, Decoded, is_unsafe_xml}

-- `reYYYYMMDD`: `^\d{4}-\d{2}-\d{2}$`
unfoldable pub re_yyyymmdd : Regex
unfolding fold_rune
re_yyyymmdd = seq at_start (
    seq (times 4 digit)
      (seq (literal "-") (seq (times 2 digit) (seq (literal "-") (seq (times 2 digit) at_end)))))

abbrev dated : (raw : String) → Option Match → String
dated raw none = ""
dated raw (some m) = raw

-- The loop of `ExtractAusfertigungDatum`.
unfoldable pub datum_from : (inside : Bool) → (buf : String) → List Token → String
unfolding equal_fold trim_space find_from re_yyyymmdd
datum_from inside buf [] = ""
datum_from inside buf (start name ∷ more) =
    let here = equal_fold name "ausfertigung-datum" in
    datum_from (here || inside) (if here then "" else buf) more
datum_from inside buf (char_data text ∷ more) =
    datum_from inside (if inside then buf +++ text else buf) more
datum_from inside buf (end_of name ∷ more) =
    let raw = trim_space buf in
    let rest = datum_from inside buf more in
    if equal_fold name "ausfertigung-datum"
    then dated raw (find_from re_yyyymmdd none raw)
    else rest

unfoldable pub extract_ausfertigung_datum : (decode : String → Decoded) → (xml : String) → String
unfolding is_unsafe_xml datum_from
extract_ausfertigung_datum decode xml =
    let doc = decode xml in if is_unsafe_xml xml then "" else datum_from false "" doc.tokens
