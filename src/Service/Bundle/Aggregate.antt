-- ===== src/Service/Bundle/Aggregate.antt =====
-- The verdict on a bundle is the worst of its members'.
use mathlib.Core.List.{append-nil, append_assoc}
use gesetzeswache.Prelude.{
  ◌≡◌, ◌≢◌, ◌↔◌, refl, sym, ◌∙◌, String, Bool, true, false, ◌&&◌, ◌||◌, ◌==◌, List, [], ◌∷◌, ◌++◌,
  Memᴰ, Option, none, some, arith, eq_iff, Bool-cases, any, any-false, if◌then◌else◌,
}
use gesetzeswache.Prelude.{inl, inr, any_witness, ap, map}
use gesetzeswache.Domain.{confirmed_current, confirmed_stale, uncertain}
use gesetzeswache.Freshness.Eval.Verdict.{stale-ne-current, uncertain-ne-current}
use gesetzeswache.Service.Bundle.{
  BundleMemberExport, OperativeMemberExport, BundleMemberFreshness, Tally, no_members, add,
  parent_member, operative_member, add_operative, add_parent, rationale_of,
  aggregate_bundle_freshness,
}
use gesetzeswache.Service.Bundle.Members.{
  members_of, IsCurrent, parent_member-row, operative_members-rows, members_of-IsCurrent_iff,
}

abbrev is_stale : BundleMemberFreshness → Bool
is_stale m = m.state == confirmed_stale

abbrev is_uncertain : BundleMemberFreshness → Bool
is_uncertain m = m.state == uncertain

abbrev is_uncertain_parent : BundleMemberFreshness → Bool
is_uncertain_parent m = m.role == "parent" && is_uncertain m

-- The worst of a list of members: stale before uncertain before current.
abbrev pub worst_of : List BundleMemberFreshness → String
worst_of ms =
    if any is_stale ms
    then confirmed_stale
    else if any is_uncertain ms
    then uncertain
    else confirmed_current

-- The flags say what the members are.
record IsTally (t : Tally) : Type 0 where
  stale : t.any_stale ≡ any is_stale t.members
  unsure : t.any_uncertain ≡ any is_uncertain t.members
  parent : t.parent_uncertain ≡ any is_uncertain_parent t.members
  worst : t.worst ≡ worst_of t.members

any-snoc :
    (p : BundleMemberFreshness → Bool) (ms : List BundleMemberFreshness) (m : BundleMemberFreshness)
    → any p (ms ++ m ∷ []) ≡ (p m || any p ms)
any-snoc p [] m = refl
any-snoc p (x ∷ ms) m = rw (any-snoc p ms m) (swap (p x) (p m) (any p ms))
  where
    swap : (a b r : Bool) → (a || (b || r)) ≡ (b || (a || r))
    swap a b r = ground arith

stale-certain : (m : BundleMemberFreshness) → is_stale m ≡ true → is_uncertain m ≡ false
stale-certain m e = let q : m.state ≡ confirmed_stale = (eq_iff _ _).0 e in rw q refl

module _ (t : Tally) (m : BundleMemberFreshness) (i : IsTally t) where
  snoc : (p : BundleMemberFreshness → Bool) → any p (t.members ++ m ∷ []) ≡ (p m || any p t.members)
  snoc p = any-snoc p t.members m

  add-stale : is_stale m ≡ true → IsTally (add t m)
  add-stale e =
      let u = stale-certain m e in
      let s1 = snoc is_stale in
      let s2 = snoc is_uncertain in
      let s3 = snoc is_uncertain_parent in
      unfold add in
      rw e (record {
        stale = rw (s1, e) refl;
        unsure = rw (s2, u) i.unsure;
        parent = rw (s3, u) (and_false (m.role == "parent") _ i.parent);
        worst = rw (s1, e) refl;
      })
    where
      and_false : {b : Bool} (r o : Bool) → b ≡ o → b ≡ ((r && false) || o)
      and_false r o h = ground arith

  kept_worst :
      (if worst_of t.members == confirmed_stale then worst_of t.members else uncertain)
      ≡ (if any is_stale t.members then confirmed_stale else uncertain)
  kept_worst = elim (Bool-cases (any is_stale t.members)) [
    | inl e ↦ rw e refl
    | inr e ↦ elim (Bool-cases (any is_uncertain t.members)) [
      | inl u ↦ rw (e, u) refl
      | inr u ↦ rw (e, u) refl
    ]
  ]

  add-unsure : is_stale m ≡ false → is_uncertain m ≡ true → IsTally (add t m)
  add-unsure e u =
      let s1 = snoc is_stale in
      let s2 = snoc is_uncertain in
      let s3 = snoc is_uncertain_parent in
      unfold add in
      rw (e, u)
        (record {
          stale = rw (s1, e) i.stale;
          unsure = rw (s2, u) refl;
          parent = rw (s3, u, i.parent) (and_true (m.role == "parent") _);
          worst = rw (s1, s2, e, u, i.worst) kept_worst;
        })
    where
      and_true : (r o : Bool) → (r || o) ≡ ((r && true) || o)
      and_true r o = ground arith

  add-other : is_stale m ≡ false → is_uncertain m ≡ false → IsTally (add t m)
  add-other e u =
      let s1 = snoc is_stale in
      let s2 = snoc is_uncertain in
      let s3 = snoc is_uncertain_parent in
      unfold add in
      rw (e, u)
        (record {
          stale = rw (s1, e) i.stale;
          unsure = rw (s2, u) i.unsure;
          parent = rw (s3, u) (and_false (m.role == "parent") _ i.parent);
          worst = rw (s1, s2, e, u) i.worst;
        })
    where
      and_false : {b : Bool} (r o : Bool) → b ≡ o → b ≡ ((r && false) || o)
      and_false r o h = ground arith

  add-IsTally : IsTally (add t m)
  add-IsTally = elim (Bool-cases (is_stale m)) [
    | inl e ↦ add-stale e
    | inr e ↦ elim (Bool-cases (is_uncertain m)) [ inl u ↦ add-unsure e u | inr u ↦ add-other e u ]
  ]

add_operative-IsTally :
    (t : Tally) (ops : List OperativeMemberExport) → IsTally t → IsTally (add_operative t ops)
unfolding add_operative
add_operative-IsTally t [] i = i
add_operative-IsTally t (op ∷ ops) i =
    add_operative-IsTally (add t (operative_member op)) ops (add-IsTally t (operative_member op) i)

add-members : (t : Tally) (m : BundleMemberFreshness) → (add t m).members ≡ t.members ++ m ∷ []
unfolding add
add-members t m = ground arith

add_operative-members :
    (t : Tally) (ops : List OperativeMemberExport)
    → (add_operative t ops).members ≡ t.members ++ map operative_member ops
unfolding add_operative
add_operative-members t [] = sym (append-nil t.members)
add_operative-members t (op ∷ ops) =
    add_operative-members (add t (operative_member op)) ops
    ∙ rw (add-members t (operative_member op))
        (append_assoc t.members (operative_member op ∷ []) (map operative_member ops))

no_members-IsTally : IsTally no_members
no_members-IsTally = record { stale = refl; unsure = refl; parent = refl; worst = refl }

add_parent-IsTally : (parent : Option BundleMemberExport) → IsTally (add_parent no_members parent)
add_parent-IsTally none = no_members-IsTally
add_parent-IsTally (some parent) = add-IsTally no_members (parent_member parent) no_members-IsTally

abbrev tally_of : Option BundleMemberExport → List OperativeMemberExport → Tally
tally_of parent ops = add_operative (add_parent no_members parent) ops

tally_of-IsTally :
    (parent : Option BundleMemberExport) (ops : List OperativeMemberExport)
    → IsTally (tally_of parent ops)
tally_of-IsTally parent ops =
    add_operative-IsTally (add_parent no_members parent) ops (add_parent-IsTally parent)

abbrev pub rationale_for : List BundleMemberFreshness → String
rationale_for ms =
    if any is_stale ms
    then "member_confirmed_stale"
    else if any is_uncertain_parent ms
    then "parent_uncertain"
    else if any is_uncertain ms
    then "member_uncertain"
    else ""

worst-current_iff :
    (ms : List BundleMemberFreshness)
    → (worst_of ms ≡ confirmed_current) ↔ (
        (m : BundleMemberFreshness)
        → Memᴰ m ms
        → (m.state ≢ confirmed_stale) × (m.state ≢ uncertain))
worst-current_iff ms = elim (Bool-cases (any is_stale ms)) [
  | inl e ↦
      let (m, k, h) = any_witness is_stale ms e in
      (λ q. absurd (stale-ne-current (rw e at q)), λ all. absurd ((all m k).0 ((eq_iff _ _).0 h)))
  | inr e ↦ elim (Bool-cases (any is_uncertain ms)) [
    | inl u ↦
        let (m, k, h) = any_witness is_uncertain ms u in
        (
          λ q. absurd (uncertain-ne-current (rw (e, u) at q)),
          λ all. absurd ((all m k).1 ((eq_iff _ _).0 h)),
        )
    | inr u ↦ (
      λ q m k.
          (none_is is_stale m confirmed_stale e k refl, none_is is_uncertain m uncertain u k refl),
      λ all. rw (e, u) refl,
    )
  ]
]
  where
    none_is :
        (p : BundleMemberFreshness → Bool) (m : BundleMemberFreshness) (s : String)
        → any p ms ≡ false
        → Memᴰ m ms
        → p m ≡ (m.state == s)
        → m.state ≢ s
    none_is p m s e k q h = cc (any-false p ms m e k, q, (eq_iff m.state s).1 h)

tally_of-members :
    (parent : Option BundleMemberExport) (ops : List OperativeMemberExport)
    → (tally_of parent ops).members ≡ members_of parent ops
tally_of-members none ops = add_operative-members no_members ops ∙ operative_members-rows ops
tally_of-members (some parent) ops =
    add_operative-members (add no_members (parent_member parent)) ops
    ∙ rw
        (
          add-members no_members (parent_member parent),
          parent_member-row parent,
          operative_members-rows ops,
        )
        refl

-- The members of a bundle are its parent, where there is one, and all its ordinances, in their order,
-- each with the state of its own verdict, or uncertain without one. The state of the bundle is the
-- worst of theirs, stale before uncertain before current, and the rationale names the first of: a
-- stale member, an uncertain parent, an uncertain member.
pub aggregate-worst :
    (parent : Option BundleMemberExport) (ops : List OperativeMemberExport)
    → ((aggregate_bundle_freshness parent ops).members ≡ members_of parent ops)
      × ((aggregate_bundle_freshness parent ops).state ≡ worst_of (members_of parent ops))
      × ((aggregate_bundle_freshness parent ops).rationale ≡ rationale_for (members_of parent ops))
unfolding aggregate_bundle_freshness rationale_of
aggregate-worst parent ops =
    let i = tally_of-IsTally parent ops in
    let same = tally_of-members parent ops in
    (same, i.worst ∙ ap worst_of same, rw (i.stale, i.parent, i.unsure) (ap rationale_for same))

-- A bundle is safe to serve exactly if neither its parent, where there is one, nor any of its
-- ordinances is stale, uncertain or without a verdict.
pub aggregate-safe_iff :
    (parent : Option BundleMemberExport) (ops : List OperativeMemberExport)
    → ((aggregate_bundle_freshness parent ops).safe_to_serve ≡ true) ↔ (
        ((p : BundleMemberExport) → parent ≡ some p → IsCurrent p.freshness)
        × ((op : OperativeMemberExport) → Memᴰ op ops → IsCurrent op.freshness))
aggregate-safe_iff parent ops =
    let step : (aggregate_bundle_freshness parent ops).safe_to_serve
        ≡ ((aggregate_bundle_freshness parent ops).state == confirmed_current) =
      unfold aggregate_bundle_freshness in refl in
    let worst = (aggregate-worst parent ops).1 in
    let by_worst = worst-current_iff (members_of parent ops) in
    let by_parts = members_of-IsCurrent_iff parent ops in
    (
      λ h. by_parts.0 (by_worst.0 (sym worst ∙ (eq_iff _ _).0 (sym step ∙ h))),
      λ all. step ∙ (eq_iff _ _).1 (worst ∙ by_worst.1 (by_parts.1 all)),
    )
