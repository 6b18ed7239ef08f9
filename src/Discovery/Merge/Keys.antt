-- ===== src/Discovery/Merge/Keys.antt =====
-- The keys of the map that a merge builds.
use gesetzeswache.Prelude.{
  ◌≡◌, inl, inr, refl, sym, ◌∙◌, ap, String, Bool, ◌&&◌, ◌||◌, ◌==◌, List, [], ◌∷◌, arith, eq_iff,
  Bool-cases, any,
}
use gesetzeswache.Domain.{LinkedInstrument}
use gesetzeswache.Discovery.Merge.{
  ByKey, key_of, has_key, put, mark_seeded, mark_discovered, add_seeded, add_one, add_discovered,
  insert_entry, sort_entries, text_before, confidence_high,
}

or_twice : (a r : Bool) → (a || r) ≡ (a || (a || r))
or_twice a r = ground arith

or_swap : (a b r : Bool) → (b || (a || r)) ≡ (a || (b || r))
or_swap a b r = ground arith

-- Whether a map has a key, after each step.
pub has_key-put :
    (j k : String) (v : LinkedInstrument) (entries : ByKey)
    → has_key j (put k v entries) ≡ ((k == j) || has_key j entries)
unfolding has_key put
has_key-put j k v [] = refl
has_key-put j k v ((i, w) ∷ entries) =
    let ih = has_key-put j k v entries in
    elim (Bool-cases (i == k)) [
      | inl h ↦
          let same : i ≡ k = (eq_iff i k).0 h in
          rw (h, same) (or_twice (k == j) (any (λ e. e.0 == j) entries))
      | inr h ↦ rw (h, ih) (or_swap (k == j) (i == j) (any (λ e. e.0 == j) entries))
    ]

pub has_key-add_seeded :
    (j : String) (seeded : List LinkedInstrument) (entries : ByKey)
    → has_key j (add_seeded seeded entries)
      ≡ (any (λ li. key_of li == j) seeded || has_key j entries)
unfolding add_seeded
has_key-add_seeded j [] entries = refl
has_key-add_seeded j (li ∷ more) entries =
    has_key-add_seeded j more (put (key_of li) (mark_seeded li) entries)
    ∙ ap (λ b. any (λ x. key_of x == j) more || b)
        (has_key-put j (key_of li) (mark_seeded li) entries)
    ∙ regroup (key_of li == j) (any (λ x. key_of x == j) more) (has_key j entries)
  where
    regroup : (a m r : Bool) → (m || (a || r)) ≡ ((a || m) || r)
    regroup a m r = ground arith

-- A discovered row that may enter under a key.
abbrev pub enters : String → LinkedInstrument → Bool
enters j li = li.confidence == confidence_high && key_of li == j

pub has_key-add_one :
    (j : String) (li : LinkedInstrument) (entries : ByKey)
    → has_key j (add_one li entries) ≡ (enters j li || has_key j entries)
unfolding add_one
has_key-add_one j li entries =
    let written = has_key-put j (key_of li) (mark_discovered li) entries in
    elim (Bool-cases (li.confidence == confidence_high)) [
      | inr e ↦ rw e refl
      | inl e ↦ elim (Bool-cases (has_key (key_of li) entries)) [
        | inr h ↦ rw (e, h) written
        | inl h ↦ elim (Bool-cases (key_of li == j)) [
          | inr q ↦ rw (e, h, q) refl
          | inl q ↦
              let same : key_of li ≡ j = (eq_iff (key_of li) j).0 q in
              rw (e, h, q) (ap (λ k. has_key k entries) (sym same) ∙ h)
        ]
      ]
    ]

pub has_key-add_discovered :
    (j : String) (discovered : List LinkedInstrument) (entries : ByKey)
    → has_key j (add_discovered discovered entries)
      ≡ (any (enters j) discovered || has_key j entries)
unfolding add_discovered
has_key-add_discovered j [] entries = refl
has_key-add_discovered j (li ∷ more) entries =
    has_key-add_discovered j more (add_one li entries)
    ∙ ap (λ b. any (enters j) more || b) (has_key-add_one j li entries)
    ∙ regroup (enters j li) (any (enters j) more) (has_key j entries)
  where
    regroup : (a m r : Bool) → (m || (a || r)) ≡ ((a || m) || r)
    regroup a m r = ground arith

pub has_key-insert_entry :
    (j : String) (e : String × LinkedInstrument) (entries : ByKey)
    → has_key j (insert_entry e entries) ≡ ((e.0 == j) || has_key j entries)
unfolding insert_entry has_key
has_key-insert_entry j e [] = refl
has_key-insert_entry j e (x ∷ entries) =
    let ih = has_key-insert_entry j e entries in
    elim (Bool-cases (text_before x.0 e.0)) [
      | inl h ↦ rw (h, ih) (or_swap (e.0 == j) (x.0 == j) (any (λ y. y.0 == j) entries))
      | inr h ↦ rw h refl
    ]

pub has_key-sort_entries :
    (j : String) (entries : ByKey) → has_key j (sort_entries entries) ≡ has_key j entries
unfolding sort_entries
has_key-sort_entries j [] = refl
has_key-sort_entries j (e ∷ entries) =
    let step = has_key-insert_entry j e (sort_entries entries) in
    let ih = has_key-sort_entries j entries in
    step ∙ ap (λ b. (e.0 == j) || b) ih ∙ unfold has_key in refl
