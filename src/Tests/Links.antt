-- ===== src/Tests/Links.antt =====
-- The links of the law "xg".
use gesetzeswache.Prelude.{
  ◌≡◌, ◌↔◌, ◌⊎◌, refl, String, true, ◌||◌, ◌==◌, none, some, List, [], ◌∷◌, Memᴰ, arith, eq_iff,
  any, keep, map,
}
use gesetzeswache.Domain.{Law, InstrumentRef, LinkedInstrument}
use gesetzeswache.Normalize.{key}
use gesetzeswache.Discovery.Merge.{merge, link_key, key_of}
use gesetzeswache.Discovery.Merge.Keys.{enters}
use gesetzeswache.Discovery.Merge.Rows.{IsFrom, merge-IsFrom, merge-key}
use gesetzeswache.Instruments.Family.{latest_slug_by_prefix, law_year}
use gesetzeswache.Instruments.Family.Latest.{IsLatest, latest_slug_by_prefix-cases}
use gesetzeswache.Instruments.VrefResolve.{resolve_operative_vrefs, is_resolvable}
use gesetzeswache.Instruments.VrefResolve.Laws.{IsAsking, resolve_operative_vrefs-refs}
use gesetzeswache.Tests.Data.{parent_stand, child_stand, ref_v, child}

abbrev found_child : LinkedInstrument
found_child = record child { gii_slug = "xw"; source = ""; confidence = "high" }

merge-key_example :
    any (λ li. key_of li == "xg|xw") (merge (child ∷ []) (found_child ∷ []))
    ≡ (any (enters "xg|xw") (found_child ∷ []) || any (λ li. key_of li == "xg|xw") (child ∷ []))
merge-key_example = merge-key (child ∷ []) (found_child ∷ []) "xg|xw"

merge-IsFrom_example : IsFrom (child ∷ []) (found_child ∷ []) child
unfolding merge link_key key
merge-IsFrom_example = merge-IsFrom (child ∷ []) (found_child ∷ []) child (Memᴰ.head refl)

abbrev law_of : String → Law
law_of path = record { id = path; abbreviation = ""; title = ""; gii_path = path; gii_url = "" }

abbrev laws : List Law
laws = law_of "svbezgrv_2024" ∷ law_of "svbezgrv_2025" ∷ []

abbrev family : String
family = "svbezgrv"

latest_slug_by_prefix-cases_example :
    ((latest_slug_by_prefix laws family ≡ none)
      × ((law : Law) → Memᴰ law laws → law_year family law ≡ none))
    ⊎ ((slug : String) × (latest_slug_by_prefix laws family ≡ some slug)
        × IsLatest laws family slug)
latest_slug_by_prefix-cases_example =
    latest_slug_by_prefix-cases laws family (ground (arith, eq_iff family ""))

resolve_operative_vrefs-refs_example :
    (map
        (λ res. res.ref)
        (resolve_operative_vrefs
          (ref_v ∷ [])
          (child ∷ [])
          (("xv", child_stand) ∷ [])
          none
          parent_stand)
      ≡ keep (is_resolvable parent_stand true) (ref_v ∷ []))
    × ((ref : InstrumentRef)
        → (is_resolvable parent_stand true ref ≡ true) ↔ IsAsking parent_stand true ref)
resolve_operative_vrefs-refs_example =
    resolve_operative_vrefs-refs (ref_v ∷ []) (child ∷ []) (("xv", child_stand) ∷ []) none
      parent_stand
