-- ===== src/Instruments/Evidence/Dedupe.antt =====
-- `dedupeRefs`: one citation of each kind, part, year and number.
use mathlib.Core.List.Memᴰ
use gesetzeswache.Prelude.{
  ◌≡◌, ◌⊎◌, inl, inr, refl, String, Bool, true, false, ◌||◌, ◌==◌, List, [], ◌∷◌, Memᴰ, arith,
  eq_iff, Bool-cases, map, map-mem, any, Distinct,
}
use gesetzeswache.Domain.{InstrumentRef}
use gesetzeswache.Instruments.Evidence.{dedupe_key, dedupe_from, dedupe_refs}

abbrev is_old : List String → InstrumentRef → Bool
is_old seen r = any (λ k. k == dedupe_key r) seen

later_false : (a b : Bool) → (a || b) ≡ false → b ≡ false
later_false a b h = ground arith

dedupe_from-nil : (seen : List String) → dedupe_from seen [] ≡ []
unfolding dedupe_from
dedupe_from-nil seen = refl

dedupe_from-step :
    (seen : List String) (r : InstrumentRef) (rs : List InstrumentRef)
    → ((is_old seen r ≡ true) × (dedupe_from seen (r ∷ rs) ≡ dedupe_from seen rs))
      ⊎ ((is_old seen r ≡ false)
          × (dedupe_from seen (r ∷ rs) ≡ r ∷ dedupe_from (dedupe_key r ∷ seen) rs))
unfolding dedupe_from
dedupe_from-step seen r rs = elim (Bool-cases (is_old seen r)) [
  | inl e ↦ inl (e, rw e refl)
  | inr e ↦ inr (e, rw e refl)
]

dedupe_from-mem :
    (seen : List String) (rs : List InstrumentRef) (x : InstrumentRef)
    → Memᴰ x (dedupe_from seen rs)
    → Memᴰ x rs × (is_old seen x ≡ false)
dedupe_from-mem seen [] x m = elim (rw (dedupe_from-nil seen) at m) [ ]
dedupe_from-mem seen (r ∷ rs) x m = elim (dedupe_from-step seen r rs) [
  | inl (old, e) ↦ let (k, new) = dedupe_from-mem seen rs x (rw e at m) in (Memᴰ.tail k, new)
  | inr (fresh, e) ↦ elim (Memᴰ.cases_cons (rw e at m)) [
    | inl q ↦ (Memᴰ.head q, rw q fresh)
    | inr k ↦
        let (k', new) = dedupe_from-mem (dedupe_key r ∷ seen) rs x k in
        (Memᴰ.tail k', later_false (dedupe_key r == dedupe_key x) (is_old seen x) new)
  ]
]

dedupe_from-Distinct :
    (seen : List String) (rs : List InstrumentRef) → Distinct (map dedupe_key (dedupe_from seen rs))
dedupe_from-Distinct seen [] = rw (dedupe_from-nil seen) tt
dedupe_from-Distinct seen (r ∷ rs) = elim (dedupe_from-step seen r rs) [
  | inl (old, e) ↦ rw e (dedupe_from-Distinct seen rs)
  | inr (fresh, e) ↦ rw e (
    λ m.
        let (x, k, q) =
          map-mem dedupe_key (dedupe_from (dedupe_key r ∷ seen) rs) (dedupe_key r) m in
        let (_, new) = dedupe_from-mem (dedupe_key r ∷ seen) rs x k in
        absurd (same_key (dedupe_key r) (dedupe_key x) (is_old seen x) q new),
    dedupe_from-Distinct (dedupe_key r ∷ seen) rs,
  )
]
  where
    same_key : (a b : String) (o : Bool) → a ≡ b → (a == b || o) ≡ false → ⊥
    same_key a b o q h = ground (arith, eq_iff a b)

-- A citation of the list is seen, or one with its key is kept.
dedupe_from_complete :
    (seen : List String) (rs : List InstrumentRef) (x : InstrumentRef)
    → Memᴰ x rs
    → (is_old seen x ≡ true)
      ⊎ (any (λ y. dedupe_key y == dedupe_key x) (dedupe_from seen rs) ≡ true)
dedupe_from_complete seen [] x m = elim m [ ]
dedupe_from_complete seen (r ∷ rs) x m = elim (dedupe_from-step seen r rs) [
  | inl (old, e) ↦ elim (Memᴰ.cases_cons m) [
    | inl q ↦ inl (rw q old)
    | inr k ↦ rw e (dedupe_from_complete seen rs x k)
  ]
  | inr (fresh, e) ↦ elim (Memᴰ.cases_cons m) [
    | inl q ↦ inr (rw (e, q) (own_key (dedupe_key r) _))
    | inr k ↦ rw e (
        carried (dedupe_key r == dedupe_key x) (is_old seen x) _
          (dedupe_from_complete (dedupe_key r ∷ seen) rs x k))
  ]
]
  where
    own_key : (a : String) (o : Bool) → (a == a || o) ≡ true
    own_key a o = ground (arith, eq_iff a a)

    carried : (a b o : Bool) → ((a || b) ≡ true) ⊎ (o ≡ true) → (b ≡ true) ⊎ ((a || o) ≡ true)
    carried true b o h = inr refl
    carried false b o h = h

-- No two citations that `dedupeRefs` keeps agree in kind, part, year and number, as its key writes
-- them.
pub dedupe_refs-Distinct : (rs : List InstrumentRef) → Distinct (map dedupe_key (dedupe_refs rs))
unfolding dedupe_refs
dedupe_refs-Distinct rs = dedupe_from-Distinct [] rs

-- For each citation of a list, `dedupeRefs` keeps one with the same key.
pub dedupe_refs_complete :
    (rs : List InstrumentRef) (x : InstrumentRef)
    → Memᴰ x rs
    → any (λ y. dedupe_key y == dedupe_key x) (dedupe_refs rs) ≡ true
unfolding dedupe_refs
dedupe_refs_complete rs x m = elim (dedupe_from_complete [] rs x m) [ inl h ↦ cc h | inr h ↦ h ]
