-- ===== src/Service/Bundle/Members.antt =====
-- The members of a bundle: its parent and its ordinances with their own verdicts.
use mathlib.Core.List.Memᴰ
use gesetzeswache.Prelude.{
  ◌≡◌, ◌≢◌, ◌↔◌, refl, String, ◌==◌, List, [], ◌∷◌, Memᴰ, Option, none, some, if◌then◌else◌,
}
use gesetzeswache.Prelude.{inl, inr, subst, map, map-mem}
use gesetzeswache.Domain.{Law, confirmed_stale, uncertain}
use gesetzeswache.Service.Freshness.{FreshnessMeta}
use gesetzeswache.Service.Bundle.{
  BundleMemberExport, OperativeMemberExport, BundleMemberFreshness, parent_member, operative_member,
  state_or_uncertain, id_or_empty,
}

-- What a member counts as: the state of its own verdict, or uncertain without one.
abbrev pub counted_as : Option FreshnessMeta → String
counted_as none = uncertain
counted_as (some meta) = meta.state

abbrev law_named : Option Law → String
law_named none = ""
law_named (some law) = law.id

-- The members that a parent and its ordinances make.
abbrev pub parent_row : BundleMemberExport → BundleMemberFreshness
parent_row parent = record {
  role = "parent";
  law_id = law_named parent.law;
  state = counted_as parent.freshness;
  section_hint = "";
}

abbrev pub ordinance_row : OperativeMemberExport → BundleMemberFreshness
ordinance_row op = record {
  role = "operative";
  law_id = if op.link.law_id == "" then law_named op.law else op.link.law_id;
  state = counted_as op.freshness;
  section_hint = op.link.section_hint;
}

abbrev pub members_of :
    Option BundleMemberExport → List OperativeMemberExport → List BundleMemberFreshness
members_of none ops = map ordinance_row ops
members_of (some parent) ops = parent_row parent ∷ map ordinance_row ops

state-counted : (meta : Option FreshnessMeta) → state_or_uncertain meta ≡ counted_as meta
state-counted none = refl
state-counted (some meta) = refl

id-named : (law : Option Law) → id_or_empty law ≡ law_named law
id-named none = refl
id-named (some law) = refl

pub parent_member-row : (parent : BundleMemberExport) → parent_member parent ≡ parent_row parent
unfolding parent_member
parent_member-row parent = rw (id-named parent.law, state-counted parent.freshness) refl

operative_member-row : (op : OperativeMemberExport) → operative_member op ≡ ordinance_row op
unfolding operative_member
operative_member-row op = rw (id-named op.law, state-counted op.freshness) refl

pub operative_members-rows :
    (ops : List OperativeMemberExport) → map operative_member ops ≡ map ordinance_row ops
operative_members-rows [] = refl
operative_members-rows (op ∷ ops) = rw (operative_member-row op, operative_members-rows ops) refl

-- There is a verdict, and it is neither stale nor uncertain.
abbrev pub IsCurrent : Option FreshnessMeta → Type 0
IsCurrent meta =
    (m : FreshnessMeta) × (meta ≡ some m) × (m.state ≢ confirmed_stale) × (m.state ≢ uncertain)

counted_as-IsCurrent_iff :
    (meta : Option FreshnessMeta)
    → ((counted_as meta ≢ confirmed_stale) × (counted_as meta ≢ uncertain)) ↔ IsCurrent meta
counted_as-IsCurrent_iff none = (λ (s, u). absurd (u refl), λ (m, e, s, u). cc e)
counted_as-IsCurrent_iff (some meta) =
    (λ (s, u). (meta, refl, s, u), λ (m, e, s, u). let q : meta ≡ m = cc e in rw q (s, u))

pub members_of-IsCurrent_iff :
    (parent : Option BundleMemberExport) (ops : List OperativeMemberExport)
    → ((m : BundleMemberFreshness)
        → Memᴰ m (members_of parent ops)
        → (m.state ≢ confirmed_stale) × (m.state ≢ uncertain))
      ↔ (((p : BundleMemberExport) → parent ≡ some p → IsCurrent p.freshness)
          × ((op : OperativeMemberExport) → Memᴰ op ops → IsCurrent op.freshness))
members_of-IsCurrent_iff none ops = (
  λ all. (
    λ p e. cc e,
    λ op k.
        (counted_as-IsCurrent_iff op.freshness).0
          (all (ordinance_row op) (Memᴰ.map ordinance_row k)),
  ),
  λ (of_parent, of_ops) m k.
      let (op, k', e) = map-mem ordinance_row ops m k in
      rw e ((counted_as-IsCurrent_iff op.freshness).1 (of_ops op k')),
)
members_of-IsCurrent_iff (some parent) ops = (
  λ all. (
    λ p e.
        let q : parent ≡ p = cc e in
        subst (λ x. IsCurrent x.freshness) q
          ((counted_as-IsCurrent_iff parent.freshness).0
            (all (parent_row parent) (Memᴰ.head refl))),
    λ op k.
        (counted_as-IsCurrent_iff op.freshness).0
          (all (ordinance_row op) (Memᴰ.tail (Memᴰ.map ordinance_row k))),
  ),
  λ (of_parent, of_ops) m k. elim (Memᴰ.cases_cons k) [
    | inl e ↦ rw e ((counted_as-IsCurrent_iff parent.freshness).1 (of_parent parent refl))
    | inr n ↦
        let (op, k', e) = map-mem ordinance_row ops m n in
        rw e ((counted_as-IsCurrent_iff op.freshness).1 (of_ops op k'))
  ],
)
