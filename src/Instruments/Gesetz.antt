-- ===== src/Instruments/Gesetz.antt =====
-- internal/instruments/gesetz.go: statutes that discovery attached as ordinances are dropped.
use gesetzeswache.Prelude.{
  String, Bool, true, false, not, ◌==◌, Option, none, some, List, keep, if◌then◌else◌,
}
use gesetzeswache.Text.{to_lower, trim_space, has_prefix, has_suffix, equal_fold}
use gesetzeswache.Normalize.{key}
use gesetzeswache.Domain.{Law, LinkedInstrument}

-- `LawTitleLookup`: `GetLaw`, whose errors the callers read as a missing law; `none` is nil.
abbrev pub LawTitleLookup : Type 0
LawTitleLookup = Option (String → Option Law)

unfoldable pub is_gesetz_child : String → Bool
is_gesetz_child title =
    let t = trim_space title in
    let lower = to_lower t in
    if t == ""
    then false
    else if has_prefix lower "verordnung"
    then false
    else if has_prefix lower "gesetz"
    then true
    else has_suffix lower "gesetz"

unfoldable pub child_law_id : LinkedInstrument → String
child_law_id li =
    if not (trim_space li.law_id == "") then key (trim_space li.law_id) else key li.gii_slug

abbrev title_of : Option Law → String
title_of none = ""
title_of (some law) = trim_space law.title

unfoldable pub child_title : LawTitleLookup → LinkedInstrument → String
child_title none li = ""
child_title (some get_law) li =
    let title = title_of (get_law (child_law_id li)) in if child_law_id li == "" then "" else title

unfoldable pub is_soft_gesetz_fp : LawTitleLookup → LinkedInstrument → Bool
is_soft_gesetz_fp st li =
    if equal_fold (trim_space li.kind) "gesetz"
    then true
    else if child_title st li == ""
    then false
    else is_gesetz_child (child_title st li)

unfoldable pub filter_operative_linked :
    LawTitleLookup → List LinkedInstrument → List LinkedInstrument
filter_operative_linked st = keep (λ li. not (is_soft_gesetz_fp st li))
