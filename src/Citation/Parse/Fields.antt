-- ===== src/Citation/Parse/Fields.antt =====
-- What a parsed Stand always has.
use gesetzeswache.Prelude.{
  ℕ, ◌≡◌, ◌≢◌, ◌⊎◌, ◌<◌, inl, inr, refl, sym, ◌∙◌, String, true, false, Bool, not, ◌&&◌, ◌||◌, ◌==◌,
  Option, none, some, arith, eq_iff, Bool-cases, eqb, ltb,
}
use gesetzeswache.Text.{trim_space}
use gesetzeswache.Regex.{Match}
use gesetzeswache.Citation.Instruments.{re_linked_instrument}
use gesetzeswache.Domain.{StandCitation}
use gesetzeswache.Citation.Parse.{
  is_numbered, with_year_num, with_full, with_page, attach_date, with_number, with_kind, judged,
  parse_loose, parse_text, parse, blank, found, kind_from, with_date, re_date,
}

-- A Stand that can be compared: a year, a part, and a number or a page.
pub record IsComparable (stand : StandCitation) : Type 0 where
  pub has_year : 0 < stand.year
  pub has_teil : 0 < stand.teil
  pub has_place : (stand.number ≢ "") ⊎ (stand.page ≢ "")

not-blank : (s : String) → not (s == "") ≡ true → s ≢ ""
not-blank s h e = ground (arith, eq_iff s "")

place :
    (number page : String)
    → (not (number == "") || not (page == "")) ≡ true
    → (number ≢ "") ⊎ (page ≢ "")
place number page h = elim (Bool-cases (number == "")) [
  | inr e ↦ inl (not-blank number (rw e refl))
  | inl e ↦ inr (not-blank page (rw e at h))
]

judged-IsComparable :
    (out : StandCitation) → (judged out).parse_ok ≡ true → IsComparable (judged out)
judged-IsComparable out h =
    let (y, t, p) =
      parts out.year out.teil (not (out.number == "") || not (out.page == ""))
        (unfold judged in let k : (judged out).parse_ok ≡ true = h in k) in
    unfold judged in record { has_year = y; has_teil = t; has_place = place out.number out.page p }
  where
    parts : (y t : ℕ) (b : Bool) → (ltb 0 y && ltb 0 t && b) ≡ true → (0 < y) × (0 < t) × (b ≡ true)
    parts y t b h = ground arith

-- The steps that follow a numbered citation keep its number.
abbrev SameNumber : StandCitation → StandCitation → Type 0
SameNumber a b = (a.year ≡ b.year) × (a.teil ≡ b.teil) × (a.number ≡ b.number)

with_kind-SameNumber : (out : StandCitation) (raw : String) → SameNumber (with_kind out raw) out
with_kind-SameNumber out raw = unfold with_kind in by_match (found re_linked_instrument raw)
  where
    by_match : (m : Option Match) → SameNumber (kind_from out m) out
    by_match none = (refl, refl, refl)
    by_match (some m) = (refl, refl, refl)

attach_date-SameNumber :
    (out : StandCitation) (raw : String)
    → eqb out.year 0 ≡ false
    → SameNumber (attach_date out raw) out
attach_date-SameNumber out raw e = unfold attach_date in by_match (found re_date raw)
  where
    by_match : (m : Option Match) → SameNumber (with_date out m) out
    by_match none = (refl, refl, refl)
    by_match (some m) = (rw e refl, refl, refl)

numbered-parts :
    (out : StandCitation)
    → is_numbered out ≡ true
    → (0 < out.year) × (0 < out.teil) × (out.number ≢ "")
unfolding is_numbered
numbered-parts out h =
    let (y, t, n) = parts out.year out.teil (not (out.number == "")) h in
    (y, t, not-blank out.number n)
  where
    parts : (y t : ℕ) (b : Bool) → (ltb 0 y && ltb 0 t && b) ≡ true → (0 < y) × (0 < t) × (b ≡ true)
    parts y t b h = ground arith

abbrev strict : StandCitation → (raw : String) → StandCitation
strict out raw = with_kind (attach_date (record out { parse_ok = true }) raw) raw

strict-IsComparable :
    (out : StandCitation) (raw : String) → is_numbered out ≡ true → IsComparable (strict out raw)
strict-IsComparable out raw h =
    let (y, t, n) = numbered-parts out h in
    let marked : StandCitation = record out { parse_ok = true } in
    let (ky, kt, kn) = with_kind-SameNumber (attach_date marked raw) raw in
    let (dy, dt, dn) = attach_date-SameNumber marked raw (later out.year y) in
    record {
      has_year = rw (ky ∙ dy) y;
      has_teil = rw (kt ∙ dt) t;
      has_place = inl (λ e. n (sym (kn ∙ dn) ∙ e));
    }
  where
    later : (y : ℕ) → 0 < y → eqb y 0 ≡ false
    later y h = ground arith

parse_loose-IsComparable :
    (out : StandCitation) (raw : String)
    → (parse_loose out raw).parse_ok ≡ true
    → IsComparable (parse_loose out raw)
unfolding parse_loose
parse_loose-IsComparable out raw =
    judged-IsComparable
      (with_kind (with_number (attach_date (with_page (with_full out raw) raw) raw) raw) raw)

-- What `Parse` reports as parsed can be compared: it has a year, a part, and a number or a page.
pub parse-IsComparable :
    (law_id raw : String) → (parse law_id raw).parse_ok ≡ true → IsComparable (parse law_id raw)
parse-IsComparable law_id raw =
    let text = trim_space raw in
    let out = with_year_num (blank law_id text) text in
    let by_strict = strict-IsComparable out text in
    let by_loose = parse_loose-IsComparable out text in
    elim (Bool-cases (text == "")) [
      | inl e ↦ unfold parse in rw e (λ h. cc h)
      | inr e ↦ elim (Bool-cases (is_numbered out)) [
        | inl n ↦ unfold parse parse_text in rw (e, n) (λ h. by_strict n)
        | inr n ↦ unfold parse parse_text in rw (e, n) by_loose
      ]
    ]
