-- ===== src/Discovery/Ingest/Edges.antt =====
-- The edges that an ingest makes.
use mathlib.Core.List.Memᴰ
use gesetzeswache.Prelude.{
  ◌≡◌, ◌≢◌, refl, sym, subst, String, Bool, true, false, ◌==◌, eq_iff, [], ◌∷◌, Memᴰ, Bool-cases,
  Option, inl, inr,
}
use gesetzeswache.Text.Cut.{join}
use gesetzeswache.Xml.{Decoded}
use gesetzeswache.Domain.{Law, DiscoveredEdge, StandCitation}
use gesetzeswache.Discovery.Merge.{confidence_high}
use gesetzeswache.Discovery.Parents.{ParentLookup, score_confidence}
use gesetzeswache.Discovery.Parents.Unique.{score_confidence-high_iff}
use gesetzeswache.Discovery.Ingest.{
  ByParent, edges_of, edge_of, law_edges, law_parents, is_some, fund_notes,
}

-- An edge that may be kept: from the law, with a section and of high confidence.
pub record IsConfirmed (law : Law) (found : Bool) (e : DiscoveredEdge) : Type 0 where
  pub from_slug : e.gii_slug ≡ law.gii_path
  pub from_law : e.child_law_id ≡ law.id
  pub high : e.confidence ≡ confidence_high
  pub has_section : e.section_hint ≢ ""
  pub confirmed : found ≡ true

pub edges_of-IsConfirmed :
    (law : Law) (found : Bool) (notes : String) (m : ByParent) (e : DiscoveredEdge)
    → Memᴰ e (edges_of law found notes m)
    → IsConfirmed law found e
unfolding edges_of
edges_of-IsConfirmed law found notes [] e m = elim m [ ]
edges_of-IsConfirmed law found notes (entry ∷ more) e m =
    let hint = join entry.1.hints "; " in
    let score = score_confidence true hint found false in
    elim (Bool-cases (score == confidence_high)) [
      | inl h ↦
          let high = (eq_iff score confidence_high).0 h in
          let (u, filled, ok) = (score_confidence-high_iff true hint found false).0 high in
          elim (Memᴰ.cases_cons (rw h at m)) [
            | inl q ↦
                let sound : IsConfirmed law found (edge_of law notes hint score entry) = record {
                  from_slug = refl;
                  from_law = refl;
                  high = high;
                  has_section = filled;
                  confirmed = ok;
                } in
                subst (IsConfirmed law found) (sym q) sound
            | inr n ↦ edges_of-IsConfirmed law found notes more e n
          ]
      | inr h ↦ edges_of-IsConfirmed law found notes more e (rw h at m)
    ]

-- Each edge that an ingest makes of a law comes from its slug, is of high confidence and has a
-- section; and there is one only if a Stand of the law was parsed.
pub law_edges-IsConfirmed :
    (decode : String → Decoded) (lookup : ParentLookup) (range : ByParent → ByParent) (law : Law)
    (xml : String) (found : Option StandCitation) (e : DiscoveredEdge)
    → Memᴰ e (law_edges decode lookup range law xml found)
    → IsConfirmed law (is_some found) e
unfolding law_edges
law_edges-IsConfirmed decode lookup range law xml found e m =
    edges_of-IsConfirmed law (is_some found) (fund_notes found)
      (range (law_parents decode lookup law xml)) e m
