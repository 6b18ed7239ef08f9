-- ===== src/Xml.antt =====
-- The XML that the program reads: the tokens of `encoding/xml`'s decoder, and the guard of
-- internal/xmlsafe/xmlsafe.go against entity declarations. Names come with their local part only.
use Prim.Native.Char.{code}
use Prim.Native.String.{String, [], ◌∷◌}
use gesetzeswache.Prelude.{Bool, false, ◌&&◌, ◌||◌, eqb, List, if◌then◌else◌}
use gesetzeswache.Text.{has_prefix, to_lower}
use gesetzeswache.Text.Cut.{drop_text}

pub data Token : Type 0 where
  start end_of char_data : String → Token

-- What a decoder gives for a document: its tokens, and whether it then failed.
pub record Decoded : Type 0 where
  pub tokens : List Token
  pub failed : Bool

-- `isXMLSpace` and the skip over such bytes
abbrev skip_space : String → String
skip_space [] = []
skip_space (c ∷ s) =
    if eqb (code c) b' ' || eqb (code c) 9 || eqb (code c) 10 || eqb (code c) 13
    then skip_space s
    else c ∷ s

abbrev declares_entity : String → Bool
unfolding has_prefix drop_text
declares_entity [] = false
declares_entity (c ∷ s) =
    has_prefix (c ∷ s) "<!" && has_prefix (skip_space (drop_text 2 (c ∷ s))) "entity"

abbrev any_entity : String → Bool
unfolding has_prefix drop_text
any_entity [] = false
any_entity (c ∷ s) = declares_entity (c ∷ s) || any_entity s

-- `RejectUnsafeXML`: is there an error?
unfoldable pub is_unsafe_xml : String → Bool
unfolding has_prefix to_lower drop_text
is_unsafe_xml doc = any_entity (to_lower doc)
