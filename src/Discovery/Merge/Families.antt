-- ===== src/Discovery/Merge/Families.antt =====
-- Which discovered rows of a family remain.
use mathlib.Core.List.Memᴰ
use gesetzeswache.Prelude.{
  ◌≡◌, ◌≢◌, inl, inr, String, Bool, true, false, not, ◌||◌, ◌==◌, List, [], ◌∷◌, Memᴰ, arith,
  eq_iff, any, keep-mem, Bool-cases,
}
use gesetzeswache.Text.{has_prefix}
use gesetzeswache.Domain.{LinkedInstrument}
use gesetzeswache.Discovery.Merge.{should_drop_discovered, filter_discovered_by_family_prefixes}

matches-prefix :
    (slug prefix : String)
    → prefix ≢ ""
    → has_prefix slug prefix ≡ true
    → (prefix == "" || not (has_prefix slug prefix)) ≡ false
matches-prefix slug prefix filled h = ground (arith, eq_iff prefix "")

not_dropped-kept :
    (slug : String) (prefixes keep_slugs : List String) (prefix : String)
    → should_drop_discovered slug prefixes keep_slugs ≡ false
    → Memᴰ prefix prefixes
    → prefix ≢ ""
    → has_prefix slug prefix ≡ true
    → any (λ k. k == slug) keep_slugs ≡ true
unfolding should_drop_discovered
not_dropped-kept slug [] keep_slugs prefix h m filled starts = elim m [ ]
not_dropped-kept slug (first ∷ prefixes) keep_slugs prefix h m filled starts =
    elim (Bool-cases (any (λ k. k == slug) keep_slugs)) [
      | inl kept ↦ kept
      | inr dropped ↦ elim (Bool-cases (first == "" || not (has_prefix slug first))) [
        | inr e ↦ cc (rw (e, dropped) at h)
        | inl e ↦ elim (Memᴰ.cases_cons m) [
          | inl q ↦ cc (e, rw q at (matches-prefix slug prefix filled starts))
          | inr k ↦ not_dropped-kept slug prefixes keep_slugs prefix (rw e at h) k filled starts
        ]
      ]
    ]

-- A discovered row that remains, whose slug starts with a family's prefix that is not empty, has one
-- of the slugs to keep.
pub filter_discovered-kept :
    (discovered : List LinkedInstrument) (prefixes keep_slugs : List String) (li : LinkedInstrument)
    (prefix : String)
    → Memᴰ li (filter_discovered_by_family_prefixes discovered prefixes keep_slugs)
    → Memᴰ prefix prefixes
    → prefix ≢ ""
    → has_prefix li.gii_slug prefix ≡ true
    → any (λ k. k == li.gii_slug) keep_slugs ≡ true
unfolding filter_discovered_by_family_prefixes
filter_discovered-kept discovered prefixes keep_slugs li prefix m k filled starts =
    let (m', h) = keep-mem _ discovered li m in
    not_dropped-kept li.gii_slug prefixes keep_slugs prefix (not_true _ h) k filled starts
  where
    not_true : (b : Bool) → not b ≡ true → b ≡ false
    not_true b h = ground arith
