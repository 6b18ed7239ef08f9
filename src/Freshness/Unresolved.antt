-- ===== src/Freshness/Unresolved.antt =====
-- internal/freshness/unresolved.go: the operator's view of citations that the state depends on.
pub mod Agree
use gesetzeswache.Prelude.{
  String, not, ◌&&◌, ◌==◌, Option, none, some, List, [], ◌∷◌, if◌then◌else◌,
}
use gesetzeswache.Domain.{InstrumentRef, VRefResolution}
use gesetzeswache.Freshness.Refs.{
  kind_of, hint_of, lacks_identity, stand_reflects_ref, is_operative_instrument_ref,
  find_vref_resolution,
}
use gesetzeswache.Freshness.Eval.{Input}

pub record UnresolvedInstrumentRef : Type 0 where
  pub ref : InstrumentRef
  pub classification : String

-- `missing_seed` or `unmatched`, as the loop repeats it.
abbrev unseeded : Input → InstrumentRef → String
unseeded in_ ref =
    if kind_of ref == "" && not in_.has_seeded_linked_instruments
    then "missing_seed"
    else "unmatched"

unfoldable pub classify_resolution : Input → InstrumentRef → Option VRefResolution → Option String
classify_resolution in_ ref none = some (unseeded in_ ref)
classify_resolution in_ ref (some res) =
    if res.historical
    then some "historical"
    else if res.resolved && res.child_confirmed
    then none
    else if not (res.matched_gii_slug == "")
    then some "child_not_current"
    else some (unseeded in_ ref)

abbrev classify_operative : Input → InstrumentRef → Option (List VRefResolution) → Option String
classify_operative in_ ref none = some "unmatched"
classify_operative in_ ref (some resolutions) =
    classify_resolution in_ ref (find_vref_resolution resolutions ref)

-- One round of the loop: the classification that is appended, if any.
unfoldable pub classify : Input → InstrumentRef → Option String
unfolding classify_resolution
classify in_ ref =
    if lacks_identity ref
    then none
    else if stand_reflects_ref in_.stand ref
    then none
    else if kind_of ref == "BEK" && hint_of ref == ""
    then some "ignored_bare_bek"
    else if kind_of ref == "G"
    then none
    else if kind_of ref == "" && not in_.has_seeded_linked_instruments
    then some "missing_seed"
    else if not (is_operative_instrument_ref ref in_.has_seeded_linked_instruments)
    then none
    else classify_operative in_ ref in_.vref_resolutions

abbrev append_classified :
    InstrumentRef → Option String → List UnresolvedInstrumentRef → List UnresolvedInstrumentRef
append_classified ref none rest = rest
append_classified ref (some c) rest = record { ref = ref; classification = c } ∷ rest

pub collect_from : Input → List InstrumentRef → List UnresolvedInstrumentRef
collect_from in_ [] = []
collect_from in_ (ref ∷ refs) = append_classified ref (classify in_ ref) (collect_from in_ refs)

unfoldable pub collect_unresolved_refs : Input → List UnresolvedInstrumentRef
unfolding collect_from classify
collect_unresolved_refs in_ = collect_from in_ in_.instrument_refs
