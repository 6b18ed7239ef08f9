-- ===== src/Instruments/VrefResolve.antt =====
-- internal/instruments/vref_resolve.go: matching operative citations to linked children.
pub mod Laws
pub mod Stands
pub mod Found
use gesetzeswache.Prelude.{
  ℕ, String, Bool, true, false, not, ◌&&◌, ◌||◌, ◌==◌, Option, none, some, List, [], ◌∷◌, ◌++◌, eqb,
  ltb, any, keep, find_first, if◌then◌else◌,
}
use gesetzeswache.Text.{to_upper, trim_space}
use gesetzeswache.Normalize.{key}
use gesetzeswache.Domain.{InstrumentRef, LinkedInstrument, StandCitation, VRefResolution}
use gesetzeswache.Citation.Instruments.{parse_linked_instruments}
use gesetzeswache.Freshness.Refs.{kind_of, hint_of, lacks_identity}
use gesetzeswache.Instruments.Chain.{status_past, status_current, normalize_section_hint}
use gesetzeswache.Instruments.Evidence.{MetaStandIssueStore}

-- `BGBlIndexLookup`, `none` if it is nil: the slug and the law id of a citation.
abbrev pub BgblIndexLookup : Type 0
BgblIndexLookup = Option (ℕ → ℕ → String → Option (String × String))

-- A map from law keys to Stands.
abbrev pub ChildStands : Type 0
ChildStands = List (String × StandCitation)

unfoldable pub lookup_stand : ChildStands → String → Option StandCitation
lookup_stand [] k = none
lookup_stand ((j, stand) ∷ stands) k = if j == k then some stand else lookup_stand stands k

unfoldable pub is_operative_ref_for_resolve : InstrumentRef → Bool → Bool
is_operative_ref_for_resolve ref has_linked =
    if kind_of ref == "G"
    then false
    else if kind_of ref == "V"
    then true
    else if kind_of ref == "BEK"
    then not (hint_of ref == "")
    else has_linked && kind_of ref == ""

unfoldable pub is_kind_v : InstrumentRef → Bool
is_kind_v ref = kind_of ref == "V"

-- The copy of `standReflectsRef` in this package.
unfoldable pub stand_reflects_ref : StandCitation → InstrumentRef → Bool
stand_reflects_ref stand ref =
    stand.parse_ok
    && eqb stand.year ref.year
    && eqb stand.teil ref.teil
    && stand.number == ref.number

unfoldable pub ref_identity_matches : InstrumentRef → InstrumentRef → Bool
ref_identity_matches ref other =
    if not (eqb ref.year other.year) || not (ref.number == other.number)
    then false
    else if not (eqb ref.teil 0) && not (eqb other.teil 0) && not (eqb ref.teil other.teil)
    then false
    else true

abbrev pub key_list : String → List String
key_list k = if k == "" then [] else k ∷ []

unfoldable pub child_lookup_keys : LinkedInstrument → List String
child_lookup_keys child = key_list (key child.law_id) ++ key_list (key child.gii_slug)

abbrev pub stand_identity : StandCitation → InstrumentRef
stand_identity stand = record {
  kind = "";
  teil = stand.teil;
  year = stand.year;
  number = stand.number;
  section_hint = "";
  raw = "";
}

-- One round over the lookup keys.
unfoldable pub stand_matches_ref : InstrumentRef → Option StandCitation → Bool
unfolding ref_identity_matches
stand_matches_ref ref none = false
stand_matches_ref ref (some stand) =
    let by_raw = any (ref_identity_matches ref) (parse_linked_instruments stand.raw) in
    (ltb 0 stand.year
      && not (stand.number == "")
      && ref_identity_matches ref (stand_identity stand))
    || by_raw

unfoldable pub child_matches_ref : InstrumentRef → LinkedInstrument → ChildStands → Bool
unfolding stand_matches_ref child_lookup_keys lookup_stand ref_identity_matches
child_matches_ref ref child stands =
    any (ref_identity_matches ref) (parse_linked_instruments child.notes)
    || any (λ k. stand_matches_ref ref (lookup_stand stands k)) (child_lookup_keys child)

unfoldable pub match_children_by_identity :
    InstrumentRef → List LinkedInstrument → ChildStands → List LinkedInstrument
match_children_by_identity ref children stands =
    keep (λ child. child_matches_ref ref child stands) children

unfoldable pub filter_children_by_section_hint :
    List LinkedInstrument → String → List LinkedInstrument
filter_children_by_section_hint children hint =
    let norm = normalize_section_hint hint in
    let out = keep (λ child. normalize_section_hint child.section_hint == norm) children in
    if norm == "*" then [] else out

unfoldable pub find_child_by_slug_or_law_id :
    List LinkedInstrument → (slug law_id : String) → Option LinkedInstrument
find_child_by_slug_or_law_id children slug law_id =
    find_first
      (λ child.
        (not (key slug == "") && key child.gii_slug == key slug)
        || (not (key law_id == "") && key child.law_id == key law_id))
      children

-- The current match candidates and the past children of an annotated chain.
abbrev pub is_current_candidate : LinkedInstrument → Bool
is_current_candidate li = li.status == status_current || li.status == ""

abbrev pub is_past : LinkedInstrument → Bool
is_past li = li.status == status_past

-- What the matches among the current children decide: one child, several, or none.
pub data CurrentMatch : Type 0 where
  one_child : LinkedInstrument → CurrentMatch
  ambiguous : CurrentMatch
  no_child : CurrentMatch

abbrev by_section : List LinkedInstrument → CurrentMatch
by_section (child ∷ []) = one_child child
by_section _ = ambiguous

unfoldable pub current_match : List LinkedInstrument → String → CurrentMatch
current_match [] hint = no_child
current_match (child ∷ []) hint = one_child child
current_match (child ∷ other ∷ more) hint =
    by_section (filter_children_by_section_hint (child ∷ other ∷ more) hint)

abbrev found_entry : List LinkedInstrument → Option (String × String) → Option LinkedInstrument
found_entry current none = none
found_entry current (some (slug, law_id)) = find_child_by_slug_or_law_id current slug law_id

unfoldable pub index_match :
    BgblIndexLookup → List LinkedInstrument → InstrumentRef → Option LinkedInstrument
unfolding find_child_by_slug_or_law_id
index_match none current ref = none
index_match (some lookup) current ref = found_entry current (lookup ref.teil ref.year ref.number)

-- A resolution before the child's proof; the flags that the caller sets are false.
abbrev pub bare_resolution : InstrumentRef → VRefResolution
bare_resolution ref = record {
  ref = ref;
  matched_gii_slug = "";
  match_method = "";
  child_confirmed = false;
  resolved = false;
  historical = false;
  superseded_by = "";
}

abbrev matched_by : String → LinkedInstrument → VRefResolution → VRefResolution
matched_by method child res = record res {
  matched_gii_slug = child.gii_slug;
  match_method = method;
}

abbrev is_nil : List LinkedInstrument → Bool
is_nil [] = true
is_nil (x ∷ xs) = false

-- The last step: a past match makes a citation historical, unless it is of kind V.
unfoldable pub past_step :
    List LinkedInstrument → ChildStands → InstrumentRef → VRefResolution → VRefResolution
past_step past stands ref res =
    let matches = match_children_by_identity ref past stands in
    if res.matched_gii_slug == "" && not (is_kind_v ref)
    then if is_nil matches
      then res
      else record res { historical = true; match_method = "notes_identity" }
    else res

abbrev index_step : Option LinkedInstrument → VRefResolution → VRefResolution
index_step none res = res
index_step (some child) res = matched_by "bgbl_index" child res

-- The index is asked where no slug was matched yet.
unfoldable pub fall_through :
    BgblIndexLookup
    → (current past : List LinkedInstrument) → ChildStands
    → InstrumentRef
    → VRefResolution
    → VRefResolution
unfolding past_step
fall_through index current past stands ref res =
    let indexed = index_step (index_match index current ref) res in
    past_step past stands ref (if res.matched_gii_slug == "" then indexed else res)

unfoldable pub resolve_ref :
    BgblIndexLookup
    → (current past : List LinkedInstrument) → ChildStands
    → InstrumentRef
    → CurrentMatch
    → VRefResolution
unfolding fall_through
resolve_ref index current past stands ref ambiguous = bare_resolution ref
resolve_ref index current past stands ref (one_child child) =
    fall_through index current past stands ref
      (matched_by "notes_identity" child (bare_resolution ref))
resolve_ref index current past stands ref no_child =
    fall_through index current past stands ref (bare_resolution ref)

unfoldable pub is_resolvable : StandCitation → Bool → InstrumentRef → Bool
unfolding is_operative_ref_for_resolve stand_reflects_ref
is_resolvable parent_stand has_linked ref =
    if lacks_identity ref
    then false
    else if stand_reflects_ref parent_stand ref
    then false
    else is_operative_ref_for_resolve ref has_linked

pub resolve_loop :
    BgblIndexLookup
    → (current past : List LinkedInstrument) → ChildStands
    → StandCitation
    → Bool
    → List InstrumentRef
    → List VRefResolution
resolve_loop index current past stands parent_stand has_linked [] = []
resolve_loop index current past stands parent_stand has_linked (ref ∷ refs) =
    let rest = resolve_loop index current past stands parent_stand has_linked refs in
    let res =
      resolve_ref index current past stands ref
        (current_match (match_children_by_identity ref current stands) ref.section_hint) in
    if is_resolvable parent_stand has_linked ref then res ∷ rest else rest

unfoldable pub resolve_operative_vrefs :
    List InstrumentRef
    → List LinkedInstrument
    → ChildStands
    → BgblIndexLookup
    → StandCitation
    → List VRefResolution
unfolding resolve_loop resolve_ref current_match is_resolvable
resolve_operative_vrefs refs annotated stands index parent_stand =
    resolve_loop index (keep is_current_candidate annotated) (keep is_past annotated) stands
      parent_stand (not (is_nil annotated)) refs

abbrev pub add_stand : String → Option StandCitation → ChildStands → ChildStands
add_stand k none stands = stands
add_stand k (some stand) stands = (k, stand) ∷ stands

abbrev pub has_stand : Option StandCitation → Bool
has_stand none = false
has_stand (some stand) = true

pub load_keys : MetaStandIssueStore → List String → ChildStands → ChildStands
load_keys st [] stands = stands
load_keys st (k ∷ ks) stands =
    load_keys st ks
      (if has_stand (lookup_stand stands k) then stands else add_stand k (st.get_stand k) stands)

pub load_children : MetaStandIssueStore → List LinkedInstrument → ChildStands → ChildStands
load_children st [] stands = stands
load_children st (li ∷ more) stands =
    load_children st more (load_keys st (child_lookup_keys li) stands)

-- `BuildChildStands`, with a store that is not nil
unfoldable pub build_child_stands : List LinkedInstrument → MetaStandIssueStore → ChildStands
unfolding load_children load_keys lookup_stand
build_child_stands annotated st = load_children st annotated []
