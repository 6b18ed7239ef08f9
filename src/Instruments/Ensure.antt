-- ===== src/Instruments/Ensure.antt =====
-- internal/instruments/ensure.go: a law stub for each linked slug.
use gesetzeswache.Prelude.{
  ℕ, suc, String, Bool, true, false, not, Option, none, some, List, [], ◌∷◌, if◌then◌else◌,
}
use gesetzeswache.Text.{trim_space, to_upper}
use gesetzeswache.Normalize.{key}
use gesetzeswache.Domain.{Law, LinkedInstrument}
use gesetzeswache.GiiUrl.{valid_slug, index_url}

-- `LawUpserter` over the states of a store: `get_law` answers none on a read error, and
-- `upsert_law_if_absent` on a write error, else whether it wrote.
pub record LawUpserter (S : Type 0) : Type 0 where
  pub get_law : S → String → Option (Option Law)
  pub upsert_law_if_absent : S → Law → Option Bool × S

-- A law with whether it is new, or none for an error.
abbrev pub Ensured : Type 0 → Type 0
Ensured S = Option (Law × Bool) × S

abbrev pub stub : (slug url : String) → Law
stub slug url = record {
  id = key slug;
  abbreviation = to_upper (key slug);
  title = slug;
  gii_path = slug;
  gii_url = url;
}

module _ {S : Type 0} (st : LawUpserter S) (parse_base : String → Option (String → String))
    (gii_base : String) where
  -- What a read answers, behind a lost race: the winner, or an error.
  abbrev pub winner : Option (Option Law) → S → Ensured S
  winner (some (some law)) s = (some (law, false), s)
  winner _ s = (none, s)

  abbrev pub after_upsert : Law → Option Bool × S → Ensured S
  after_upsert law (none, s) = (none, s)
  after_upsert law (some true, s) = (some (law, true), s)
  after_upsert law (some false, s) = winner (st.get_law s law.id) s

  abbrev pub create : S → (slug : String) → Option String → Ensured S
  create s slug none = (none, s)
  create s slug (some url) =
      after_upsert (stub slug url) (st.upsert_law_if_absent s (stub slug url))

  abbrev pub after_read : S → (slug : String) → Option (Option Law) → Ensured S
  after_read s slug none = (none, s)
  after_read s slug (some (some law)) = (some (law, false), s)
  after_read s slug (some none) = create s slug (index_url parse_base gii_base slug)

  unfoldable pub ensure_law_from_slug : S → (slug : String) → Ensured S
  unfolding index_url
  ensure_law_from_slug s slug =
      let t = trim_space slug in
      let answer = after_read s t (st.get_law s (key t)) in
      if not (valid_slug t) then (none, s) else answer

  abbrev count_new : Ensured S → ℕ → ℕ
  count_new (some (law, true), s) n = suc n
  count_new _ n = n

  abbrev failed : Ensured S → Bool
  failed (none, s) = true
  failed (some e, s) = false

  -- `EnsureSeededChildren` over the rows of the parent: how many stubs are new, and whether the loop
  -- ended without an error.
  unfoldable pub ensure_seeded_children : List LinkedInstrument → ℕ → S → (ℕ × Bool) × S
  unfolding ensure_law_from_slug
  ensure_seeded_children [] created s = ((created, true), s)
  ensure_seeded_children (li ∷ rows) created s =
      let answer = ensure_law_from_slug s li.gii_slug in
      let more = ensure_seeded_children rows (count_new answer created) answer.1 in
      if failed answer then ((created, false), answer.1) else more
