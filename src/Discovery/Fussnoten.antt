-- ===== src/Discovery/Fussnoten.antt =====
-- internal/discovery/ingest.go: `ExtractPreambleText`, the part of a norm that names its basis.
use Prim.Native.String.{String, [], ◌∷◌}
use Prim.Native.Char.{code}
use gesetzeswache.Prelude.{
  ℕ, zero, suc, ◌-◌, Bool, true, false, not, ◌||◌, ◌==◌, leb, List, if◌then◌else◌,
}
use gesetzeswache.Text.{trim_space, to_lower, contains}
use gesetzeswache.Text.Cut.{◌+++◌, byte_len, utf8_len}
use gesetzeswache.Xml.{Token, start, end_of, char_data, Decoded, is_unsafe_xml}

abbrev pub preamble_scan_limit : ℕ
preamble_scan_limit = 8192

-- `isErmaechtigungMarker`
unfoldable pub is_ermaechtigung_marker : String → Bool
unfolding to_lower contains
is_ermaechtigung_marker s = contains (to_lower s) "auf grund" || contains (to_lower s) "aufgrund"

-- The bytes of a rune that is cut in two are read as U+FFFD each.
abbrev broken_rune : (bytes : ℕ) → String
broken_rune zero = []
broken_rune (suc n) = "�" +++ broken_rune n

-- `chunk[:remain]`
unfoldable pub take_bytes : (remain : ℕ) → String → String
take_bytes remain [] = []
take_bytes remain (c ∷ s) =
    let rest = c ∷ take_bytes (remain - utf8_len (code c)) s in
    if leb (utf8_len (code c)) remain then rest else broken_rune remain

-- `appendChunk`
unfoldable pub append_chunk : (buf s : String) → String
unfolding byte_len take_bytes
append_chunk buf s =
    let chunk = take_bytes (preamble_scan_limit - byte_len buf) s in
    if leb preamble_scan_limit (byte_len buf) then buf else buf +++ chunk +++ " "

pub record Scan : Type 0 where
  pub in_norm : Bool
  pub in_text : Bool
  pub in_fussnoten : Bool
  pub text_buf : String
  pub fussnoten_buf : String
  pub collected : String
  pub text_marker : Bool
  pub fussnoten_marker : Bool

unfoldable pub open_tag : (name : String) → Scan → Scan
open_tag name st =
    if name == "norm"
    then record st { in_norm = true }
    else if name == "text"
    then record st { in_text = st.in_norm || st.in_text }
    else if name == "fussnoten"
    then record st { in_fussnoten = st.in_norm || st.in_fussnoten }
    else st

unfoldable pub close_tag : (name : String) → Scan → Scan
close_tag name st =
    if name == "text"
    then record st { in_text = false }
    else if name == "fussnoten"
    then record st { in_fussnoten = false }
    else if name == "norm"
    then record st { in_norm = false }
    else st

abbrev read_fussnoten : (s : String) → Scan → Scan
unfolding is_ermaechtigung_marker append_chunk
read_fussnoten s st =
    let marked = st.fussnoten_marker || is_ermaechtigung_marker s in
    record st {
      fussnoten_marker = marked;
      fussnoten_buf = if marked then append_chunk st.fussnoten_buf s else st.fussnoten_buf;
    }

-- `appendChunk` makes the test of the limit once more.
abbrev read_text : (s : String) → Scan → Scan
unfolding is_ermaechtigung_marker append_chunk
read_text s st =
    let marked = st.text_marker || is_ermaechtigung_marker s in
    record st {
      collected = append_chunk st.collected s;
      text_marker = marked;
      text_buf = if marked then append_chunk st.text_buf s else st.text_buf;
    }

unfoldable pub read_chars : (text : String) → Scan → Scan
unfolding is_ermaechtigung_marker append_chunk trim_space
read_chars text st =
    let s = trim_space text in
    if not st.in_norm || s == ""
    then st
    else if st.in_fussnoten
    then read_fussnoten s st
    else if st.in_text
    then read_text s st
    else st

unfoldable pub scan_token : Token → Scan → Scan
unfolding open_tag close_tag read_chars to_lower
scan_token (start name) st = open_tag (to_lower name) st
scan_token (end_of name) st = close_tag (to_lower name) st
scan_token (char_data text) st = read_chars text st

unfoldable pub scan_from : Scan → List Token → Scan
unfolding scan_token
scan_from st List.[] = st
scan_from st (List.◌∷◌ token more) = scan_from (scan_token token st) more

abbrev pub no_scan : Scan
no_scan = record {
  in_norm = false;
  in_text = false;
  in_fussnoten = false;
  text_buf = "";
  fussnoten_buf = "";
  collected = "";
  text_marker = false;
  fussnoten_marker = false;
}

abbrev chosen : Scan → String
unfolding trim_space
chosen st =
    if st.fussnoten_marker
    then trim_space st.fussnoten_buf
    else if st.text_marker
    then trim_space st.text_buf
    else trim_space st.collected

-- `ExtractPreambleText`, given the decoder.
unfoldable pub extract_preamble_text : (decode : String → Decoded) → (xml : String) → String
unfolding is_unsafe_xml scan_from trim_space
extract_preamble_text decode xml =
    let doc = decode xml in
    if is_unsafe_xml xml || doc.failed then "" else chosen (scan_from no_scan doc.tokens)
