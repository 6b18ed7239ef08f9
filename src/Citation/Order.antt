-- ===== src/Citation/Order.antt =====
-- `Compare` as an order on the citations that it can compare.
use native.Mathlib.Decide.{dec_lt}
use gesetzeswache.Prelude.{
  ℕ, ◌≡◌, refl, ◌≢◌, ◌↔◌, ◌<◌, ◌⊎◌, inl, inr, Option, none, some, arith, String, eq_iff, not, ◌||◌,
  eqb, ltb, if◌then◌else◌,
}
use gesetzeswache.Domain.{StandCitation}
use gesetzeswache.Citation.{
  Comparison, older, equal, newer, incomparable, parse_issue_num, compare_pages, compare_numbers,
  compare_same_year, order, compare,
}

abbrev pub flip : Comparison → Comparison
flip older = newer
flip equal = equal
flip newer = older
flip incomparable = incomparable

compare_pages-flip : (p q : String) → compare_pages q p ≡ flip (compare_pages p q)
unfolding compare_pages
compare_pages-flip p q = ground arith

compare_numbers-flip :
    (m n : Option ℕ) (c d : Comparison)
    → d ≡ flip c
    → compare_numbers n m d ≡ flip (compare_numbers m n c)
unfolding compare_numbers
compare_numbers-flip (some m) (some n) c d h = ground arith
compare_numbers-flip (some m) none c d h = h
compare_numbers-flip none (some n) c d h = h
compare_numbers-flip none none c d h = h

compare_same_year-flip :
    (a b : StandCitation) → compare_same_year b a ≡ flip (compare_same_year a b)
compare_same_year-flip a b =
    let numbers =
      compare_numbers-flip (parse_issue_num a.number) (parse_issue_num b.number)
        (compare_pages a.page b.page) (compare_pages b.page a.page)
        (compare_pages-flip a.page b.page) in
    let pages = compare_pages-flip a.page b.page in
    unfold compare_same_year in ground (arith, numbers, pages)

-- Exchanging the two citations exchanges older and newer, and keeps equal and incomparable.
pub compare-flip : (a b : StandCitation) → compare b a ≡ flip (compare a b)
compare-flip a b = let rest = compare_same_year-flip a b in unfold compare in ground (arith, rest)

-- A citation with a year, a part and an issue number that `parseIssueNum` reads.
pub record IsNumbered (a : StandCitation) : Type 0 where
  pub dated : a.year ≢ 0
  pub placed : a.teil ≢ 0
  pub given : a.number ≢ ""
  pub number : ℕ
  pub parsed : parse_issue_num a.number ≡ some number

compare_same_year-numbered :
    (a b : StandCitation) (ha : IsNumbered a) (hb : IsNumbered b)
    → compare_same_year a b ≡ order ha.number hb.number
unfolding compare_same_year compare_numbers
compare_same_year-numbered a b ha hb =
    rw (ha.parsed, hb.parsed) (ground (arith, eq_iff a.number "", eq_iff b.number ""))

-- What makes a numbered citation older: the same part, and a smaller pair of year and number.
abbrev pub Precedes : (teil year number teil' year' number' : ℕ) → Type 0
Precedes t y n t' y' n' = (t ≡ t') × ((y < y') ⊎ ((y ≡ y') × (n < n')))

-- `Compare` over years, parts and issue numbers.
abbrev key_order : (y y' t t' n n' : ℕ) → Comparison
key_order y y' t t' n n' =
    if eqb y 0 || eqb y' 0 || eqb t 0 || eqb t' 0
    then incomparable
    else if not (eqb t t')
    then incomparable
    else if not (eqb y y')
    then if ltb y y' then older else newer
    else order n n'

module _ (y y' t t' n n' : ℕ) (p : y ≢ 0) (p' : y' ≢ 0) (q : t ≢ 0) (q' : t' ≢ 0) where
  key_order-older : key_order y y' t t' n n' ≡ older → Precedes t y n t' y' n'
  key_order-older h = (
    ground arith,
    elim (dec_lt y y') [ yes lt ↦ inl lt | no ge ↦ inr (ground arith, ground arith) ],
  )

  older_of_Precedes : Precedes t y n t' y' n' → key_order y y' t t' n n' ≡ older
  older_of_Precedes (e, inl lt) = ground arith
  older_of_Precedes (e, inr (same, lt)) = ground arith

  key_order-equal_iff : (key_order y y' t t' n n' ≡ equal) ↔ ((t ≡ t') × (y ≡ y') × (n ≡ n'))
  key_order-equal_iff = (λ h. (ground arith, ground arith, ground arith), λ (e, f, g). ground arith)

compare-key_order :
    (a b : StandCitation) (ha : IsNumbered a) (hb : IsNumbered b)
    → compare a b ≡ key_order a.year b.year a.teil b.teil ha.number hb.number
compare-key_order a b ha hb =
    let ab = compare_same_year-numbered a b ha hb in unfold compare in rw ab refl

-- A citation with a year, a part and an issue number that is read is older than another such one
-- exactly when both are of the same part of the gazette and its year, or in the same year its issue
-- number, is smaller.
pub compare-older_iff :
    (a b : StandCitation) (ha : IsNumbered a) (hb : IsNumbered b)
    → (compare a b ≡ older) ↔ Precedes a.teil a.year ha.number b.teil b.year hb.number
compare-older_iff a b ha hb = rw (compare-key_order a b ha hb) (
  key_order-older _ _ _ _ _ _ ha.dated hb.dated ha.placed hb.placed,
  older_of_Precedes _ _ _ _ _ _ ha.dated hb.dated ha.placed hb.placed,
)

-- Among citations with a year, a part and an issue number that is read, older is transitive.
pub compare_trans :
    (a b c : StandCitation)
    → IsNumbered a
    → IsNumbered b
    → IsNumbered c
    → compare a b ≡ older
    → compare b c ≡ older
    → compare a c ≡ older
compare_trans a b c ha hb hc h k =
    let p = (compare-older_iff a b ha hb).0 h in
    let q = (compare-older_iff b c hb hc).0 k in
    (compare-older_iff a c ha hc).1 (ground arith, chain p.1 q.1)
  where
    chain :
        (a.year < b.year) ⊎ ((a.year ≡ b.year) × (ha.number < hb.number))
        → (b.year < c.year) ⊎ ((b.year ≡ c.year) × (hb.number < hc.number))
        → (a.year < c.year) ⊎ ((a.year ≡ c.year) × (ha.number < hc.number))
    chain (inl m) (inl n) = inl (omega arith)
    chain (inl m) (inr n) = inl (omega arith)
    chain (inr m) (inl n) = inl (omega arith)
    chain (inr m) (inr n) = inr (omega arith)

-- Citations with a year, a part and an issue number that is read are equal exactly when part, year
-- and issue number agree.
pub compare-equal_iff :
    (a b : StandCitation) (ha : IsNumbered a) (hb : IsNumbered b)
    → (compare a b ≡ equal) ↔ ((a.teil ≡ b.teil) × (a.year ≡ b.year) × (ha.number ≡ hb.number))
compare-equal_iff a b ha hb =
    rw (compare-key_order a b ha hb)
      (key_order-equal_iff _ _ _ _ _ _ ha.dated hb.dated ha.placed hb.placed)
