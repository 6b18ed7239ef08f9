-- ===== src/Instruments/VrefResolve/Stands.antt =====
-- The Stands of the children are those that the store has.
use gesetzeswache.Prelude.{
  ◌≡◌, refl, inl, inr, sym, ◌∙◌, ap, String, ◌==◌, Option, none, some, List, [], ◌∷◌, Bool-cases,
  eq_iff, if_either,
}
use gesetzeswache.Domain.{LinkedInstrument, StandCitation}
use gesetzeswache.Instruments.Evidence.{MetaStandIssueStore}
use gesetzeswache.Instruments.VrefResolve.{
  ChildStands, lookup_stand, child_lookup_keys, add_stand, has_stand, load_keys, load_children,
  build_child_stands,
}

module _ (st : MetaStandIssueStore) where
  -- Each Stand of the map is the store's under its key.
  abbrev IsStored : ChildStands → Type 0
  IsStored stands =
      (k : String) (stand : StandCitation)
      → lookup_stand stands k ≡ some stand
      → st.get_stand k ≡ some stand

  no_stands : IsStored []
  unfolding lookup_stand
  no_stands k stand h = cc h

  add_stand-IsStored :
      (k : String) (o : Option StandCitation) (stands : ChildStands)
      → st.get_stand k ≡ o
      → IsStored stands
      → IsStored (add_stand k o stands)
  unfolding lookup_stand
  add_stand-IsStored k none stands e i j found h = i j found h
  add_stand-IsStored k (some stand) stands e i j found h = elim (Bool-cases (k == j)) [
    | inl same ↦ ap st.get_stand (sym ((eq_iff k j).0 same)) ∙ e ∙ rw same at h
    | inr other ↦ i j found (rw other at h)
  ]

  load_keys-IsStored :
      (ks : List String) (stands : ChildStands)
      → IsStored stands
      → IsStored (load_keys st ks stands)
  unfolding load_keys
  load_keys-IsStored [] stands i = i
  load_keys-IsStored (k ∷ ks) stands i = load_keys-IsStored ks _ (
      if_either IsStored (has_stand (lookup_stand stands k)) i
        (add_stand-IsStored k (st.get_stand k) stands refl i))

  load_children-IsStored :
      (children : List LinkedInstrument) (stands : ChildStands)
      → IsStored stands
      → IsStored (load_children st children stands)
  unfolding load_children
  load_children-IsStored [] stands i = i
  load_children-IsStored (li ∷ more) stands i =
      load_children-IsStored more _ (load_keys-IsStored (child_lookup_keys li) stands i)

  pub build_child_stands-IsStored :
      (annotated : List LinkedInstrument) (k : String) (stand : StandCitation)
      → lookup_stand (build_child_stands annotated st) k ≡ some stand
      → st.get_stand k ≡ some stand
  unfolding build_child_stands
  build_child_stands-IsStored annotated = load_children-IsStored annotated [] no_stands
