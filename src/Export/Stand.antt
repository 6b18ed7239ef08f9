-- ===== src/Export/Stand.antt =====
-- internal/export/stand_xml.go: the raw Stand of a law.
use Prim.Native.Char.{code}
use gesetzeswache.Prelude.{
  String, Bool, true, false, ◌&&◌, ◌||◌, ◌==◌, Option, none, some, List, [], ◌∷◌, if◌then◌else◌,
}
use gesetzeswache.Text.{trim_space, to_lower, to_upper, equal_fold, push}
use gesetzeswache.Text.Runes.{is_space, fold_rune}
use gesetzeswache.Text.Cut.{◌+++◌, replace_all}
use gesetzeswache.Regex.{
  Regex, seq, star, group, opt, plus, times, literal, digit, letter, space, Match, group_of,
  find_from,
}
use gesetzeswache.Xml.{Token, start, end_of, char_data, Decoded, is_unsafe_xml}

-- What the loop of `extractStandangabe` keeps.
pub record InStand : Type 0 where
  pub in_angabe : Bool
  pub in_typ : Bool
  pub in_kommentar : Bool
  pub typ : String
  pub kommentar : String

unfoldable pub open_stand : (name : String) → InStand → InStand
open_stand name st =
    if name == "standangabe"
    then record st { in_angabe = true; typ = ""; kommentar = "" }
    else if name == "standtyp"
    then record st { in_typ = st.in_angabe || st.in_typ }
    else if name == "standkommentar"
    then record st { in_kommentar = st.in_angabe || st.in_kommentar }
    else st

unfoldable pub close_stand : (name : String) → InStand → InStand
close_stand name st =
    if name == "standtyp"
    then record st { in_typ = false }
    else if name == "standkommentar"
    then record st { in_kommentar = false }
    else if name == "standangabe"
    then record st { in_angabe = false }
    else st

abbrev read_stand : (text : String) → InStand → InStand
read_stand text st = record st {
  typ = if st.in_typ then st.typ +++ text else st.typ;
  kommentar = if st.in_kommentar then st.kommentar +++ text else st.kommentar;
}

-- The comment of a Stand that ends here, or "" where the loop goes on.
abbrev ended_stand : (name : String) → InStand → String
unfolding equal_fold trim_space
ended_stand name st =
    if name == "standangabe" && equal_fold (trim_space st.typ) "Stand"
    then trim_space st.kommentar
    else ""

unfoldable pub stand_from : InStand → List Token → String
unfolding open_stand close_stand to_lower equal_fold trim_space
stand_from st [] = ""
stand_from st (start name ∷ more) = stand_from (open_stand (to_lower name) st) more
stand_from st (char_data text ∷ more) = stand_from (read_stand text st) more
stand_from st (end_of name ∷ more) =
    let raw = ended_stand (to_lower name) st in
    let rest = stand_from (close_stand (to_lower name) st) more in if raw == "" then rest else raw

abbrev no_stand : InStand
no_stand = record {
  in_angabe = false;
  in_typ = false;
  in_kommentar = false;
  typ = "";
  kommentar = "";
}

-- `extractStandangabe`. A decoder that fails does so behind its tokens, and nothing is found then.
unfoldable pub extract_standangabe : Decoded → String
unfolding stand_from
extract_standangabe doc = stand_from no_stand doc.tokens

-- `reFundstelleNr`: `(?i)(\d{4})\s*,?\s*(?:Nr\.?\s*)?([0-9]+[a-zA-Z]?)`
unfoldable pub re_fundstelle_nr : Regex
unfolding fold_rune
re_fundstelle_nr = seq (group 1 (times 4 digit)) (
    seq (star space) (
      seq (opt (literal ",")) (
        seq (star space) (
          seq (opt (seq (literal "Nr") (seq (opt (literal ".")) (star space))))
            (group 2 (seq (plus digit) (opt letter)))))))

-- `reFundstellePage`: `(?i)(\d{4})\s+S\.?\s*([0-9]+)`
unfoldable pub re_fundstelle_page : Regex
unfolding fold_rune
re_fundstelle_page = seq (group 1 (times 4 digit)) (
    seq (plus space)
      (seq (literal "S") (seq (opt (literal ".")) (seq (star space) (group 2 (plus digit))))))

-- `strings.Fields`; `open` says whether the word goes on.
abbrev pub words : (inside : Bool) → String → List String
unfolding is_space
words inside String.[] = if inside then "" ∷ [] else []
words inside (String.◌∷◌ c s) =
    let between = words false s in
    let within = push c (words true s) in
    if is_space (code c) then if inside then "" ∷ between else between else within

abbrev part_word : String → String
part_word f = if f == "II" || f == "2" then "II" else if f == "I" || f == "1" then "I" else ""

abbrev part_of_next : List String → String
part_of_next [] = ""
part_of_next (f ∷ fields) = part_word f

abbrev teil_in : List String → String
teil_in [] = ""
teil_in (f ∷ fields) =
    let here = if f == "TEIL" then part_of_next fields else part_word f in
    let rest = teil_in fields in if here == "" then rest else here

-- `fundstelleTeil`
unfoldable pub fundstelle_teil : String → String
unfolding to_upper trim_space replace_all is_space
fundstelle_teil periodikum =
    teil_in (words false (replace_all (to_upper (trim_space periodikum)) "." " "))

abbrev cited : (teil mark : String) → Match → String
cited teil mark m =
    "BGBl. " +++ group_of 1 m.groups +++ " " +++ teil +++ mark +++ group_of 2 m.groups

abbrev stand_by : (teil : String) → (page number : Option Match) → String
stand_by teil (some m) number = cited teil " S. " m
stand_by teil none (some m) = cited teil " Nr. " m
stand_by teil none none = ""

-- `formatFundstelleStand`
unfoldable pub format_fundstelle_stand : (periodikum zit : String) → String
unfolding trim_space fundstelle_teil find_from re_fundstelle_page re_fundstelle_nr
format_fundstelle_stand periodikum zit =
    let z = trim_space zit in
    let teil = fundstelle_teil (trim_space periodikum) in
    if trim_space periodikum == "" || z == "" || teil == ""
    then ""
    else stand_by teil (find_from re_fundstelle_page none z) (find_from re_fundstelle_nr none z)

-- What the loop of `extractFundstelleAsStand` keeps.
pub record InFundstelle : Type 0 where
  pub in_fundstelle : Bool
  pub in_periodikum : Bool
  pub in_zit : Bool
  pub periodikum : String
  pub zit : String

abbrev is_zit : String → Bool
is_zit name = name == "zit" || name == "zitstelle"

unfoldable pub open_fundstelle : (name : String) → InFundstelle → InFundstelle
open_fundstelle name st =
    if name == "fundstelle"
    then record st { in_fundstelle = true; periodikum = ""; zit = "" }
    else if name == "periodikum"
    then record st { in_periodikum = st.in_fundstelle || st.in_periodikum }
    else if is_zit name
    then record st { in_zit = st.in_fundstelle || st.in_zit }
    else st

unfoldable pub close_fundstelle : (name : String) → InFundstelle → InFundstelle
close_fundstelle name st =
    if name == "periodikum"
    then record st { in_periodikum = false }
    else if is_zit name
    then record st { in_zit = false }
    else if name == "fundstelle"
    then record st { in_fundstelle = false }
    else st

abbrev read_fundstelle : (text : String) → InFundstelle → InFundstelle
read_fundstelle text st = record st {
  periodikum = if st.in_periodikum then st.periodikum +++ text else st.periodikum;
  zit = if st.in_zit then st.zit +++ text else st.zit;
}

abbrev ended_fundstelle : (name : String) → InFundstelle → String
unfolding format_fundstelle_stand
ended_fundstelle name st =
    if name == "fundstelle" then format_fundstelle_stand st.periodikum st.zit else ""

unfoldable pub fundstelle_from : InFundstelle → List Token → String
unfolding open_fundstelle close_fundstelle to_lower format_fundstelle_stand
fundstelle_from st [] = ""
fundstelle_from st (start name ∷ more) = fundstelle_from (open_fundstelle (to_lower name) st) more
fundstelle_from st (char_data text ∷ more) = fundstelle_from (read_fundstelle text st) more
fundstelle_from st (end_of name ∷ more) =
    let raw = ended_fundstelle (to_lower name) st in
    let rest = fundstelle_from (close_fundstelle (to_lower name) st) more in
    if raw == "" then rest else raw

abbrev no_fundstelle : InFundstelle
no_fundstelle = record {
  in_fundstelle = false;
  in_periodikum = false;
  in_zit = false;
  periodikum = "";
  zit = "";
}

-- `extractFundstelleAsStand`
unfoldable pub extract_fundstelle_as_stand : Decoded → String
unfolding fundstelle_from
extract_fundstelle_as_stand doc = fundstelle_from no_fundstelle doc.tokens

-- `ExtractStandRaw`, given the decoder.
unfoldable pub extract_stand_raw : (decode : String → Decoded) → (xml : String) → String
unfolding is_unsafe_xml extract_standangabe extract_fundstelle_as_stand
extract_stand_raw decode xml =
    let raw = extract_standangabe (decode xml) in
    if is_unsafe_xml xml
    then ""
    else if raw == ""
    then extract_fundstelle_as_stand (decode xml)
    else raw
