-- ===== src/Discovery/Merge/Rows.antt =====
-- Where the rows of a merge come from.
use mathlib.Core.List.Memᴰ
use gesetzeswache.Prelude.{
  ◌≡◌, ◌⊎◌, inl, inr, refl, sym, ◌∙◌, ap, String, Bool, false, ◌||◌, ◌==◌, List, [], ◌∷◌, Memᴰ,
  arith, eq_iff, Bool-cases, map, any, map-mem, if_either,
}
use gesetzeswache.Domain.{LinkedInstrument}
use gesetzeswache.Discovery.Merge.{
  ByKey, key_of, has_key, put, mark_seeded, mark_discovered, add_seeded, add_one, add_discovered,
  insert_entry, sort_entries, merge, text_before, confidence_high, source_discovered,
}
use gesetzeswache.Discovery.Merge.Keys.{
  enters, has_key-add_seeded, has_key-add_one, has_key-add_discovered, has_key-sort_entries,
}

put-mem :
    (k : String) (v : LinkedInstrument) (entries : ByKey) (e : String × LinkedInstrument)
    → Memᴰ e (put k v entries)
    → (e ≡ (k, v)) ⊎ Memᴰ e entries
unfolding put
put-mem k v [] e m = elim (Memᴰ.cases_cons m) [ inl q ↦ inl q | inr n ↦ elim n [ ] ]
put-mem k v ((j, w) ∷ entries) e m = elim (Bool-cases (j == k)) [
  | inl h ↦ elim (Memᴰ.cases_cons (rw h at m)) [ inl q ↦ inl q | inr n ↦ inr (Memᴰ.tail n) ]
  | inr h ↦ elim (Memᴰ.cases_cons (rw h at m)) [
    | inl q ↦ inr (Memᴰ.head q)
    | inr n ↦ elim (put-mem k v entries e n) [ inl q ↦ inl q | inr o ↦ inr (Memᴰ.tail o) ]
  ]
]

insert_entry-mem :
    (x : String × LinkedInstrument) (entries : ByKey) (e : String × LinkedInstrument)
    → Memᴰ e (insert_entry x entries)
    → (e ≡ x) ⊎ Memᴰ e entries
unfolding insert_entry
insert_entry-mem x [] e m = elim (Memᴰ.cases_cons m) [ inl q ↦ inl q | inr n ↦ elim n [ ] ]
insert_entry-mem x (y ∷ entries) e m = elim (Bool-cases (text_before y.0 x.0)) [
  | inl h ↦ elim (Memᴰ.cases_cons (rw h at m)) [
    | inl q ↦ inr (Memᴰ.head q)
    | inr n ↦ elim (insert_entry-mem x entries e n) [ inl q ↦ inl q | inr o ↦ inr (Memᴰ.tail o) ]
  ]
  | inr h ↦ Memᴰ.cases_cons (rw h at m)
]

sort_entries-mem :
    (entries : ByKey) (e : String × LinkedInstrument)
    → Memᴰ e (sort_entries entries)
    → Memᴰ e entries
unfolding sort_entries
sort_entries-mem [] e m = m
sort_entries-mem (x ∷ entries) e m = elim (insert_entry-mem x (sort_entries entries) e m) [
  | inl q ↦ Memᴰ.head q
  | inr n ↦ Memᴰ.tail (sort_entries-mem entries e n)
]

add_seeded-mem :
    (seeded : List LinkedInstrument) (entries : ByKey) (e : String × LinkedInstrument)
    → Memᴰ e (add_seeded seeded entries)
    → Memᴰ e entries
      ⊎ ((li : LinkedInstrument) × Memᴰ li seeded × (e ≡ (key_of li, mark_seeded li)))
unfolding add_seeded
add_seeded-mem [] entries e m = inl m
add_seeded-mem (li ∷ more) entries e m =
    elim (add_seeded-mem more (put (key_of li) (mark_seeded li) entries) e m) [
      | inr (s, k, q) ↦ inr (s, Memᴰ.tail k, q)
      | inl n ↦ elim (put-mem (key_of li) (mark_seeded li) entries e n) [
        | inl q ↦ inr (li, Memᴰ.head refl, q)
        | inr o ↦ inl o
      ]
    ]

add_one-mem :
    (li : LinkedInstrument) (entries : ByKey) (e : String × LinkedInstrument)
    → Memᴰ e (add_one li entries)
    → Memᴰ e entries
      ⊎ ((li.confidence ≡ confidence_high)
          × (has_key (key_of li) entries ≡ false)
          × (e ≡ (key_of li, mark_discovered li)))
unfolding add_one
add_one-mem li entries e m = elim (Bool-cases (li.confidence == confidence_high)) [
  | inr h ↦ inl (rw h at m)
  | inl h ↦ elim (Bool-cases (has_key (key_of li) entries)) [
    | inl k ↦ inl (rw (h, k) at m)
    | inr k ↦ elim (put-mem (key_of li) (mark_discovered li) entries e (rw (h, k) at m)) [
      | inl q ↦ inr ((eq_iff li.confidence confidence_high).0 h, k, q)
      | inr o ↦ inl o
    ]
  ]
]

-- A row from the discovered ones: it is of high confidence and its key is new.
abbrev IsDiscovered : List LinkedInstrument → ByKey → String × LinkedInstrument → Type 0
IsDiscovered discovered entries e =
    (li : LinkedInstrument) × Memᴰ li discovered
    × (li.confidence ≡ confidence_high)
    × (has_key (key_of li) entries ≡ false)
    × (e ≡ (key_of li, mark_discovered li))

add_discovered-mem :
    (discovered : List LinkedInstrument) (entries : ByKey) (e : String × LinkedInstrument)
    → Memᴰ e (add_discovered discovered entries)
    → Memᴰ e entries ⊎ IsDiscovered discovered entries e
unfolding add_discovered
add_discovered-mem [] entries e m = inl m
add_discovered-mem (li ∷ more) entries e m =
    elim (add_discovered-mem more (add_one li entries) e m) [
      | inr (d, k, h, new, q) ↦
          let still =
            later-new (enters (key_of d) li) (has_key (key_of d) entries)
              (sym (has_key-add_one (key_of d) li entries) ∙ new) in
          inr (d, Memᴰ.tail k, h, still, q)
      | inl n ↦ elim (add_one-mem li entries e n) [
        | inl o ↦ inl o
        | inr (h, new, q) ↦ inr (li, Memᴰ.head refl, h, new, q)
      ]
    ]
  where
    later-new : (a b : Bool) → (a || b) ≡ false → b ≡ false
    later-new a b h = ground arith

-- An entry stands under its row's key.
abbrev IsKeyed : String × LinkedInstrument → Type 0
IsKeyed e = e.0 ≡ key_of e.1

key_of-mark_discovered : (li : LinkedInstrument) → key_of (mark_discovered li) ≡ key_of li
key_of-mark_discovered li =
    if_either {on = record li { source = source_discovered }} {off = li} (λ x. key_of x ≡ key_of li)
      (li.source == "") refl refl

has_key-rows :
    (j : String) (entries : ByKey)
    → ((e : String × LinkedInstrument) → Memᴰ e entries → IsKeyed e)
    → any (λ li. key_of li == j) (map (λ e. e.1) entries) ≡ has_key j entries
unfolding has_key
has_key-rows j [] keyed = refl
has_key-rows j (e ∷ entries) keyed =
    let here = keyed e (Memᴰ.head refl) in
    let ih = has_key-rows j entries (λ x m. keyed x (Memᴰ.tail m)) in rw (← here, ih) refl

-- Where a row of the merge comes from: a seeded row, or a discovered one of high confidence
-- whose key no seeded row has.
abbrev pub IsFrom : (seeded discovered : List LinkedInstrument) → LinkedInstrument → Type 0
IsFrom seeded discovered row =
    ((li : LinkedInstrument) × Memᴰ li seeded × (row ≡ mark_seeded li))
    ⊎ ((li : LinkedInstrument) × Memᴰ li discovered
        × (li.confidence ≡ confidence_high)
        × (any (λ x. key_of x == key_of li) seeded ≡ false)
        × (row ≡ mark_discovered li))

abbrev entries_of : (seeded discovered : List LinkedInstrument) → ByKey
entries_of seeded discovered = add_discovered discovered (add_seeded seeded [])

or_false : (a : Bool) → (a || false) ≡ a
or_false a = ground arith

seeded-key :
    (j : String) (seeded : List LinkedInstrument)
    → has_key j (add_seeded seeded []) ≡ any (λ x. key_of x == j) seeded
seeded-key j seeded =
    has_key-add_seeded j seeded [] ∙ unfold has_key in or_false (any (λ x. key_of x == j) seeded)

entry-cases :
    (seeded discovered : List LinkedInstrument) (e : String × LinkedInstrument)
    → Memᴰ e (entries_of seeded discovered)
    → IsKeyed e × IsFrom seeded discovered e.1
entry-cases seeded discovered e m =
    elim (add_discovered-mem discovered (add_seeded seeded []) e m) [
      | inr (li, k, h, new, q) ↦ (
        ap (λ x. x.0) q ∙ sym (key_of-mark_discovered li) ∙ sym (ap (λ x. key_of x.1) q),
        inr (li, k, h, sym (seeded-key (key_of li) seeded) ∙ new, ap (λ x. x.1) q),
      )
      | inl n ↦ elim (add_seeded-mem seeded [] e n) [
        | inl o ↦ elim o [ ]
        | inr (li, k, q) ↦
            (ap (λ x. x.0) q ∙ sym (ap (λ x. key_of x.1) q), inl (li, k, ap (λ x. x.1) q))
      ]
    ]

-- Each row of the merge is a seeded row, marked as seeded, or a discovered row of high confidence
-- whose key no seeded row has, marked as discovered if it has no source.
pub merge-IsFrom :
    (seeded discovered : List LinkedInstrument) (row : LinkedInstrument)
    → Memᴰ row (merge seeded discovered)
    → IsFrom seeded discovered row
unfolding merge
merge-IsFrom seeded discovered row m =
    let entries = entries_of seeded discovered in
    let (e, k, q) = map-mem (λ e. e.1) (sort_entries entries) row m in
    rw q ((entry-cases seeded discovered e (sort_entries-mem entries e k)).1)

-- A key has a row in the merge exactly if a discovered row of high confidence or a seeded row has
-- it.
pub merge-key :
    (seeded discovered : List LinkedInstrument) (j : String)
    → any (λ li. key_of li == j) (merge seeded discovered)
      ≡ (any (enters j) discovered || any (λ li. key_of li == j) seeded)
unfolding merge
merge-key seeded discovered j =
    let entries = entries_of seeded discovered in
    has_key-rows j (sort_entries entries)
      (λ e m. (entry-cases seeded discovered e (sort_entries-mem entries e m)).0)
    ∙ has_key-sort_entries j entries
    ∙ has_key-add_discovered j discovered (add_seeded seeded [])
    ∙ ap (λ b. any (enters j) discovered || b) (seeded-key j seeded)
