-- ===== src/Discovery/Parents/Unique.antt =====
-- When a parent is unique.
use mathlib.Core.List.Memᴰ
use gesetzeswache.Prelude.{
  ◌≡◌, ◌≢◌, ◌↔◌, ◌⊎◌, refl, ◌∙◌, sym, ap, subst, String, Bool, true, false, ◌==◌, eq_iff, eq_refl,
  none, some, List, [], ◌∷◌, Memᴰ, any, any_witness, any-true_of_mem, Distinct, Bool-cases,
  Option-cases, inl, inr, arith,
}
use gesetzeswache.Normalize.{key}
use gesetzeswache.Normalize.Sgb.{keys_from}
use gesetzeswache.Discovery.Books.{Ermaechtigung}
use gesetzeswache.Discovery.Parents.{
  ParentLookup, unique_ids, only_one, unique_from, precise_parent_candidates,
  title_parent_candidates, resolve_parent, score_confidence,
}

-- One round: the text has no key or an old one, or its key is put out.
keys_from-cons :
    (seen : List String) (x : String) (xs : List String)
    → (((key x ≡ "") ⊎ Memᴰ (key x) seen) × (keys_from seen (x ∷ xs) ≡ keys_from seen xs))
      ⊎ ((key x ≢ "")
          × (¬ Memᴰ (key x) seen)
          × (keys_from seen (x ∷ xs) ≡ key x ∷ keys_from (key x ∷ seen) xs))
unfolding keys_from
keys_from-cons seen x xs = elim (Bool-cases (key x == "")) [
  | inl e ↦ inl (inl ((eq_iff (key x) "").0 e), rw e refl)
  | inr e ↦
      let filled : key x ≢ "" = λ q. cc ((eq_iff (key x) "").1 q, e) in
      elim (Bool-cases (any (λ t. t == key x) seen)) [
        | inl old ↦
            let (t, m, same) = any_witness (λ t. t == key x) seen old in
            inl (inr (subst (λ z. Memᴰ z seen) ((eq_iff t (key x)).0 same) m), rw (e, old) refl)
        | inr new ↦
            let fresh : ¬ Memᴰ (key x) seen =
              λ m. cc (any-true_of_mem (λ t. t == key x) seen (key x) m (eq_refl (key x)), new) in
            inr (filled, fresh, rw (e, new) refl)
      ]
]

keys_from-nil : (seen : List String) → keys_from seen [] ≡ []
unfolding keys_from
keys_from-nil seen = refl

-- A text of the list with a key that is not empty.
abbrev HasKey : List String → String → Type 0
HasKey xs k = (k ≢ "") × ((x : String) × Memᴰ x xs × (key x ≡ k))

HasKey-tail : (x : String) (xs : List String) (k : String) → HasKey xs k → HasKey (x ∷ xs) k
HasKey-tail x xs k (ne, (y, m, e)) = (ne, (y, Memᴰ.tail m, e))

pub keys_from_sound :
    (seen xs : List String) (k : String)
    → Memᴰ k (keys_from seen xs)
    → HasKey xs k × (¬ Memᴰ k seen)
keys_from_sound seen [] k m = elim (rw (keys_from-nil seen) at m) [ ]
keys_from_sound seen (x ∷ xs) k m = elim (keys_from-cons seen x xs) [
  | inl (why, e) ↦
      let (has, new) = keys_from_sound seen xs k (rw e at m) in (HasKey-tail x xs k has, new)
  | inr (filled, fresh, e) ↦ elim (Memᴰ.cases_cons (rw e at m)) [
    | inl q ↦ ((rw q filled, (x, Memᴰ.head refl, sym q)), rw q fresh)
    | inr n ↦
        let (has, new) = keys_from_sound (key x ∷ seen) xs k n in
        (HasKey-tail x xs k has, λ old. new (Memᴰ.tail old))
  ]
]

pub keys_from_complete :
    (seen xs : List String) (x : String)
    → Memᴰ x xs
    → key x ≢ ""
    → ¬ Memᴰ (key x) seen
    → Memᴰ (key x) (keys_from seen xs)
keys_from_complete seen [] x m ne new = elim m [ ]
keys_from_complete seen (y ∷ xs) x (Memᴰ.head q) ne new = elim (keys_from-cons seen y xs) [
  | inl (inl empty, e) ↦ absurd (ne (ap key q ∙ empty))
  | inl (inr old, e) ↦ absurd (new (rw (ap key q) old))
  | inr (filled, fresh, e) ↦ rw e (Memᴰ.head (ap key q))
]
keys_from_complete seen (y ∷ xs) x (Memᴰ.tail m) ne new = elim (keys_from-cons seen y xs) [
  | inl (why, e) ↦ rw e (keys_from_complete seen xs x m ne new)
  | inr (filled, fresh, e) ↦ elim (Bool-cases (key x == key y)) [
    | inl same ↦ rw e (Memᴰ.head ((eq_iff (key x) (key y)).0 same))
    | inr other ↦
        let apart : ¬ Memᴰ (key x) (key y ∷ seen) = λ old. elim (Memᴰ.cases_cons old) [
          | inl q ↦ cc ((eq_iff (key x) (key y)).1 q, other)
          | inr o ↦ new o
        ] in
        rw e (Memᴰ.tail (keys_from_complete (key y ∷ seen) xs x m ne apart))
  ]
]

pub keys_from-Distinct : (seen xs : List String) → Distinct (keys_from seen xs)
keys_from-Distinct seen [] = rw (keys_from-nil seen) tt
keys_from-Distinct seen (x ∷ xs) = elim (keys_from-cons seen x xs) [
  | inl (why, e) ↦ rw e (keys_from-Distinct seen xs)
  | inr (filled, fresh, e) ↦ rw e (
    λ m. (keys_from_sound (key x ∷ seen) xs (key x) m).1 (Memᴰ.head refl),
    keys_from-Distinct (key x ∷ seen) xs,
  )
]

-- Some text of the list has the key, and all that have a key have this one.
pub record IsOnlyKey (k : String) (ids : List String) : Type 0 where
  pub has_key : HasKey ids k
  pub no_other : (x : String) → Memᴰ x ids → key x ≢ "" → key x ≡ k

only_one-some : (ids : List String) (id : String) → only_one ids ≡ some id → ids ≡ id ∷ []
only_one-some [] id e = cc e
only_one-some (x ∷ []) id e = let q : x ≡ id = cc e in ap (λ y. y ∷ []) q
only_one-some (x ∷ y ∷ xs) id e = cc e

one-of_same :
    (ids : List String) (k : String)
    → Distinct ids
    → Memᴰ k ids
    → ((j : String) → Memᴰ j ids → j ≡ k)
    → ids ≡ k ∷ []
one-of_same [] k d m same = elim m [ ]
one-of_same (x ∷ []) k d m same = ap (λ y. y ∷ []) (same x (Memᴰ.head refl))
one-of_same (x ∷ y ∷ xs) k d m same =
    let q = same y (Memᴰ.tail (Memᴰ.head refl)) ∙ sym (same x (Memᴰ.head refl)) in
    absurd (d.0 (Memᴰ.head (sym q)))

-- `uniqueFrom` answers an id exactly when it is the key of some candidate, is not empty, and each
-- candidate that has a key has this one.
pub unique_from-some_iff :
    (ids : List String) (k : String) → (unique_from ids ≡ some k) ↔ IsOnlyKey k ids
unfolding unique_from unique_ids
unique_from-some_iff ids k = (
  λ e.
      let one = only_one-some (keys_from [] ids) k e in
      let mine : Memᴰ k (keys_from [] ids) = rw one (Memᴰ.head refl) in
      record {
        has_key = (keys_from_sound [] ids k mine).0;
        no_other = λ x m ne.
            let found = keys_from_complete [] ids x m ne (λ o. elim o [ ]) in
            elim (Memᴰ.cases_cons (rw one at found)) [ inl q ↦ q | inr n ↦ elim n [ ] ];
      },
  λ h.
      let (ne, (x, m, q)) = h.has_key in
      let mine : Memᴰ k (keys_from [] ids) =
        subst (λ j. Memᴰ j (keys_from [] ids)) q
          (keys_from_complete [] ids x m (rw q ne) (λ o. elim o [ ])) in
      let same : (j : String) → Memᴰ j (keys_from [] ids) → j ≡ k = λ j n.
        let (nj, (y, my, qy)) = (keys_from_sound [] ids j n).0 in
        sym qy ∙ h.no_other y my (rw qy nj) in
      ap only_one (one-of_same (keys_from [] ids) k (keys_from-Distinct [] ids) mine same),
)

-- A parent that `ResolveParent` answers is the only key among the precise candidates, or these
-- leave it open and it is the only key among those of the title.
pub resolve_parent-IsOnlyKey :
    (lookup : ParentLookup) (e : Ermaechtigung) (id : String)
    → resolve_parent lookup e ≡ some id
    → IsOnlyKey id (precise_parent_candidates lookup e)
      ⊎ ((unique_from (precise_parent_candidates lookup e) ≡ none)
          × IsOnlyKey id (title_parent_candidates lookup e))
unfolding resolve_parent
resolve_parent-IsOnlyKey lookup e id h =
    elim (Option-cases (unique_from (precise_parent_candidates lookup e))) [
      | inl n ↦ inr (
        n,
        (unique_from-some_iff (title_parent_candidates lookup e) id).0
            (rw (resolve_parent, n) at h),
      )
      | inr (p, n) ↦
          let q : p ≡ id = cc (rw (resolve_parent, n) at h) in
          inl ((unique_from-some_iff (precise_parent_candidates lookup e) id).0 (n ∙ ap some q))
    ]

not-medium : ◌≡◌ {A = String} "medium" "high" → ⊥
not-medium h = cc ((eq_iff "medium" "high").1 h)

not-low : ◌≡◌ {A = String} "low" "high" → ⊥
not-low h = cc ((eq_iff "low" "high").1 h)

high_signs :
    (unique found agrees empty : Bool) (hint : String)
    → (hint == "") ≡ empty
    → score_confidence unique hint found agrees ≡ "high"
    → (unique ≡ true) × (empty ≡ false) × (found ≡ true)
unfolding score_confidence
high_signs false false agrees true hint e h = absurd (not-low (rw e at h))
high_signs false false agrees false hint e h = absurd (not-medium (rw e at h))
high_signs false true agrees true hint e h = absurd (not-medium (rw e at h))
high_signs false true agrees false hint e h = absurd (not-medium (rw e at h))
high_signs true false false true hint e h = absurd (not-low (rw e at h))
high_signs true false true true hint e h = absurd (not-low (rw e at h))
high_signs true false false false hint e h = absurd (not-medium (rw e at h))
high_signs true false true false hint e h = absurd (not-medium (rw e at h))
high_signs true true false true hint e h = absurd (not-medium (rw e at h))
high_signs true true true true hint e h = absurd (not-medium (rw e at h))
high_signs true true agrees false hint e h = (refl, refl, refl)

high_score :
    (agrees : Bool) (hint : String)
    → (hint == "") ≡ false
    → score_confidence true hint true agrees ≡ "high"
unfolding score_confidence
high_score false hint e = rw e refl
high_score true hint e = rw e refl

-- The confidence is high exactly for a unique parent with a section and a confirmed citation,
-- whether or not the editors agree.
pub score_confidence-high_iff :
    (parent_unique : Bool) (hint : String) (found agrees : Bool)
    → (score_confidence parent_unique hint found agrees ≡ "high")
      ↔ ((parent_unique ≡ true) × (hint ≢ "") × (found ≡ true))
score_confidence-high_iff unique hint found agrees = elim (Bool-cases (hint == "")) [
  | inl e ↦ (
    λ h. absurd (ground (arith, high_signs unique found agrees true hint e h)),
    λ w. absurd (w.1 ((eq_iff hint "").0 e)),
  )
  | inr e ↦
      let filled : hint ≢ "" = λ q. cc ((eq_iff hint "").1 q, e) in
      (
        λ h. let (u, empty, f) = high_signs unique found agrees false hint e h in (u, filled, f),
        λ w. rw (w.0, w.2) (high_score agrees hint e),
      )
]
