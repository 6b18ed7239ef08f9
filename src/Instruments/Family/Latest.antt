-- ===== src/Instruments/Family/Latest.antt =====
-- The slug of a family's latest ordinance.
use mathlib.Core.List.Memᴰ
use mathlib.Core.Option.{some-injective}
use gesetzeswache.Prelude.{
  ℕ, ◌≡◌, ◌≢◌, ◌⊎◌, ◌≤◌, ◌<◌, inl, inr, refl, sym, ◌∙◌, ap, String, true, false, ◌==◌, List, [],
  ◌∷◌, Memᴰ, Option, none, some, arith, eq_iff, Bool-cases, Option-cases, eqb, not, if_either, leb,
  leb→le, ℤ, pos, negsuc, Bool, ◌&&◌,
}
use gesetzeswache.Text.{Atoi, atoi, trim_space, has_prefix, after_prefix}
use gesetzeswache.Regex.{Match, find_from, group_of}
use gesetzeswache.GiiUrl.{size}
use gesetzeswache.Domain.{Law}
use gesetzeswache.Instruments.Family.{
  Best, better, law_year, latest_loop, latest_slug_by_prefix, year_value, year_of, suffix_year,
  or_else, year_from_prefix_path, re_year_suffix,
}

-- The years of a list of laws stay below a bound.
abbrev pub NoneLater : (prefix : String) → List Law → ℕ → Type 0
NoneLater prefix laws top =
    (law : Law) (y : ℕ) → Memᴰ law laws → law_year prefix law ≡ some y → y ≤ top

-- The loop keeps the best it began with, or it ends with a law of a later year.
abbrev Improves : (prefix : String) → List Law → Best → Best → Type 0
Improves prefix laws before after =
    ((after ≡ before) × NoneLater prefix laws before.year)
    ⊎ ((law : Law) × (y : ℕ) × Memᴰ law laws
        × (law_year prefix law ≡ some y)
        × (before.year < y)
        × (after ≡ record { year = y; slug = some (trim_space law.gii_path) })
        × NoneLater prefix laws y)

better-cases :
    (best : Best) (path : String) (y : ℕ)
    → ((y ≤ best.year) × (better best path (some y) ≡ best))
      ⊎ ((best.year < y) × (better best path (some y) ≡ record { year = y; slug = some path }))
unfolding better
better-cases best path y = elim (Bool-cases (leb y best.year)) [
  | inl e ↦ inl (leb→le y best.year e, rw e refl)
  | inr e ↦ inr (ground arith, rw e refl)
]

NoneLater-cons :
    (prefix : String) (law : Law) (laws : List Law) (top : ℕ)
    → ((y : ℕ) → law_year prefix law ≡ some y → y ≤ top)
    → NoneLater prefix laws top
    → NoneLater prefix (law ∷ laws) top
NoneLater-cons prefix law laws top here later other y m e = elim (Memᴰ.cases_cons m) [
  | inl q ↦ here y (sym (ap (law_year prefix) q) ∙ e)
  | inr n ↦ later other y n e
]

some-le : (o : Option ℕ) (z top : ℕ) → o ≡ some z → z ≤ top → (y : ℕ) → o ≡ some y → y ≤ top
some-le o z top e h y q = let k : z ≡ y = some-injective _ _ (sym e ∙ q) in rw (← k) h

module _ (prefix : String) (best : Best) (law : Law) (laws : List Law) where
  -- The round over `law` left the best unchanged.
  Improves-kept :
      (after : Best)
      → ((y : ℕ) → law_year prefix law ≡ some y → y ≤ best.year)
      → Improves prefix laws best after
      → Improves prefix (law ∷ laws) best after
  Improves-kept after here (inl (e, none_later)) =
      inl (e, NoneLater-cons prefix law laws best.year here none_later)
  Improves-kept after here (inr (other, y, m, e, lt, q, none_later)) =
      let below : (z : ℕ) → law_year prefix law ≡ some z → z ≤ y =
        λ z h. below_top z y (here z h) lt in
      inr (other, y, Memᴰ.tail m, e, lt, q, NoneLater-cons prefix law laws y below none_later)
    where
      below_top : (z y : ℕ) → z ≤ best.year → best.year < y → z ≤ y
      below_top z y h lt = omega arith

  -- The round over `law` made it the best.
  Improves-taken :
      (after : Best) (z : ℕ)
      → law_year prefix law ≡ some z
      → best.year < z
      → Improves prefix laws (record { year = z; slug = some (trim_space law.gii_path) }) after
      → Improves prefix (law ∷ laws) best after
  Improves-taken after z e lt (inl (q, none_later)) =
      let here = some-le (law_year prefix law) z z e (omega arith) in
      inr (law, z, Memᴰ.head refl, e, lt, q, NoneLater-cons prefix law laws z here none_later)
  Improves-taken after z e lt (inr (other, y, m, e', lt', q, none_later)) =
      let here = some-le (law_year prefix law) z y e (omega arith) in
      inr (
        other,
        y,
        Memᴰ.tail m,
        e',
        (omega arith),
        q,
        NoneLater-cons prefix law laws y here none_later,
      )

better-none : (best : Best) (path : String) → better best path none ≡ best
unfolding better
better-none best path = refl

latest_loop-Improves :
    (prefix : String) (best : Best) (laws : List Law)
    → Improves prefix laws best (latest_loop prefix best laws)
unfolding latest_loop
latest_loop-Improves prefix best [] = inl (refl, λ law y m e. elim m [ ])
latest_loop-Improves prefix best (law ∷ laws) =
    let path = trim_space law.gii_path in
    let kept_on = latest_loop-Improves prefix best laws in
    elim (Option-cases (law_year prefix law)) [
      | inl e ↦
          rw (e, better-none best path)
            (Improves-kept prefix best law laws _ (λ y h. cc (e, h)) kept_on)
      | inr (z, e) ↦
          let taken_on = latest_loop-Improves prefix (record { year = z; slug = some path }) laws in
          elim (better-cases best path z) [
            | inl (le, q) ↦
                rw (e, q)
                  (Improves-kept prefix best law laws _
                    (some-le (law_year prefix law) z best.year e le) kept_on)
            | inr (lt, q) ↦ rw (e, q) (Improves-taken prefix best law laws _ z e lt taken_on)
          ]
    ]

year_value-range : (z : ℤ) (ok : Bool) (y : ℕ) → year_value z ok ≡ some y → 1000 ≤ y
year_value-range (negsuc n) ok y e = cc e
year_value-range (pos n) ok y e = elim (Bool-cases (ok && leb 1000 n && leb n 9999)) [
  | inr h ↦ cc (rw h at e)
  | inl h ↦ let same : n ≡ y = some-injective _ _ (rw h at e) in rw (← same) (four_digits ok n h)
]
  where
    four_digits : (ok : Bool) (n : ℕ) → (ok && leb 1000 n && leb n 9999) ≡ true → 1000 ≤ n
    four_digits ok n h = ground arith

abbrev FourDigits : Option ℕ → Type 0
FourDigits o = (y : ℕ) → o ≡ some y → 1000 ≤ y

FourDigits-none : FourDigits none
FourDigits-none y e = cc e

FourDigits-year_of : (a : Atoi) → FourDigits (year_of a)
FourDigits-year_of a = year_value-range a.value a.ok

FourDigits-suffix_year : (m : Option Match) → FourDigits (suffix_year m)
FourDigits-suffix_year none = FourDigits-none
FourDigits-suffix_year (some m) = FourDigits-year_of (atoi (group_of 1 m.groups))

FourDigits-or_else : (o p : Option ℕ) → FourDigits o → FourDigits p → FourDigits (or_else o p)
FourDigits-or_else none p ho hp = hp
FourDigits-or_else (some y) p ho hp = ho

FourDigits-path : (path prefix : String) → FourDigits (year_from_prefix_path path prefix)
FourDigits-path path prefix =
    let direct = FourDigits-year_of (atoi (after_prefix path prefix)) in
    let by_suffix = FourDigits-suffix_year (find_from re_year_suffix none path) in
    let either =
      FourDigits-or_else (year_of (atoi (after_prefix path prefix)))
        (suffix_year (find_from re_year_suffix none path)) direct by_suffix in
    unfold year_from_prefix_path in
    if_either FourDigits (not (has_prefix path prefix)) FourDigits-none
      (if_either FourDigits (eqb (size (after_prefix path prefix)) 4) either by_suffix)

FourDigits-law_year : (prefix : String) (law : Law) → FourDigits (law_year prefix law)
FourDigits-law_year prefix law =
    let of_path = FourDigits-path (trim_space law.gii_path) prefix in
    unfold law_year in if_either FourDigits (trim_space law.gii_path == "") FourDigits-none of_path

-- The law whose slug is answered, which no law of the family follows in years.
abbrev pub IsLatest : List Law → (prefix slug : String) → Type 0
IsLatest laws prefix slug =
    (law : Law) × (y : ℕ) × Memᴰ law laws
    × (law_year prefix law ≡ some y)
    × (slug ≡ trim_space law.gii_path)
    × NoneLater prefix laws y

too_early : (y : ℕ) → 1000 ≤ y → y ≤ 0 → ⊥
too_early y h k = omega arith

by_loop :
    (laws : List Law) (prefix : String)
    → (prefix == "") ≡ false
    → latest_slug_by_prefix laws prefix
      ≡ (latest_loop prefix (record { year = 0; slug = none }) laws).slug
unfolding latest_slug_by_prefix
by_loop laws prefix e = rw e refl

-- For a prefix that is not empty, either no law of the catalog has a year under the prefix and no
-- slug is answered, or the slug answered is that of a law with a year under the prefix and no law
-- has a later one.
pub latest_slug_by_prefix-cases :
    (laws : List Law) (prefix : String)
    → prefix ≢ ""
    → ((latest_slug_by_prefix laws prefix ≡ none)
        × ((law : Law) → Memᴰ law laws → law_year prefix law ≡ none))
      ⊎ ((slug : String) × (latest_slug_by_prefix laws prefix ≡ some slug)
          × IsLatest laws prefix slug)
latest_slug_by_prefix-cases laws prefix filled =
    let start : Best = record { year = 0; slug = none } in
    let is_filled = no_blank prefix filled in
    let step : latest_slug_by_prefix laws prefix ≡ (latest_loop prefix start laws).slug =
      by_loop laws prefix is_filled in
    elim (latest_loop-Improves prefix start laws) [
      | inl (e, none_later) ↦ inl (
        step ∙ ap (λ b. b.slug) e,
        λ law m. no_year law (FourDigits-law_year prefix law) (none_later law) m,
      )
      | inr (law, y, m, h, lt, e, none_later) ↦
          inr (trim_space law.gii_path, step ∙ ap (λ b. b.slug) e, (law, y, m, h, refl, none_later))
    ]
  where
    no_blank : (s : String) → s ≢ "" → (s == "") ≡ false
    no_blank s h = elim (Bool-cases (s == "")) [
      | inl e ↦ absurd (h ((eq_iff s "").0 e))
      | inr e ↦ e
    ]

    no_year :
        (law : Law)
        → FourDigits (law_year prefix law)
        → ((y : ℕ) → Memᴰ law laws → law_year prefix law ≡ some y → y ≤ 0)
        → Memᴰ law laws
        → law_year prefix law ≡ none
    no_year law four small m = elim (Option-cases (law_year prefix law)) [
      | inl e ↦ e
      | inr (y, e) ↦ absurd (too_early y (four y e) (small y m e))
    ]
