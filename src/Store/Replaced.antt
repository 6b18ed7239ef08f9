-- ===== src/Store/Replaced.antt =====
-- What an ingest leaves in the store: internal/discovery/ingest.go over internal/store/discovery.go.
use mathlib.Core.List.Memᴰ
use gesetzeswache.Prelude.{
  ℕ, suc, ◌≡◌, ◌≢◌, ◌⊎◌, refl, ◌∙◌, sym, ap, String, Bool, true, ◌==◌, eq_iff, eq_refl, Option,
  none, some, List, [], ◌∷◌, Memᴰ, Bool-cases, inl, inr, if◌then◌else◌,
}
use gesetzeswache.Text.{trim_space}
use gesetzeswache.GiiUrl.{valid_slug}
use gesetzeswache.GiiUrl.Trimmed.{trim_space-slug, valid_slug-ne}
use gesetzeswache.Domain.{DiscoveredEdge}
use gesetzeswache.Discovery.Ingest.{persist, replace_edges}
use gesetzeswache.Store.Buckets.{Bbolt, BboltLaws, IsCodec, Got, absent, present, broken, get_json}
use gesetzeswache.Store.Entities.{Db, Codecs}
use gesetzeswache.Store.Discovered.{
  upsert_discovered_link, delete_discovered_by_slug, discovered_key, or_new, get_in,
  ensure_discovery_buckets,
}
use gesetzeswache.Store.Operations.{ingest_store}
use gesetzeswache.Store.Rows.{edge_at}
use gesetzeswache.Store.Deleted.{unless_slug, filled_slug-edge_at}
use gesetzeswache.Store.Writes.{update-committed, with_bucket-some, get_json-put_json}

module _ {B : Type 0} (bb : Bbolt B) (laws : BboltLaws bb) (cs : Codecs) (codec : IsCodec cs.edge)
    (commits : Db B → Bool) where
  or_new-get_in :
      (o : Option B) (k : String)
      → get_json bb cs.edge (or_new bb cs commits o) k ≡ get_in bb cs commits cs.edge o k
  unfolding get_json
  or_new-get_in none k = rw (laws.get-new k) refl
  or_new-get_in (some b) k = refl

  pub upsert_discovered_link-edge_at :
      (s s' : Db B) (e : DiscoveredEdge) (k : String)
      → upsert_discovered_link bb cs commits s e ≡ (true, s')
      → edge_at bb laws cs commits s' k ≡ (
          if discovered_key e.parent_law_id e.gii_slug == k
          then present e
          else edge_at bb laws cs commits s k)
  unfolding upsert_discovered_link get_json
  upsert_discovered_link-edge_at s s' e k h =
      let into = λ (b : B). record (ensure_discovery_buckets bb cs commits s) {
        discovered_links = some b;
      } in
      let (b', put, q) = with_bucket-some into _ s' (update-committed commits _ s s' h) in
      let read =
        get_json-put_json bb laws cs.edge codec (or_new bb cs commits s.discovered_links) b'
          (discovered_key e.parent_law_id e.gii_slug) k e put in
      rw q (
        read
        ∙ ap (λ r. if discovered_key e.parent_law_id e.gii_slug == k then present e else r)
            (or_new-get_in s.discovered_links k))

  -- Behind the writes of an ingest, an edge is one of them or was there before.
  persist-edge_at :
      (n : ℕ) (edges : List DiscoveredEdge) (s : Db B) (k : String) (e : DiscoveredEdge)
      → (persist (ingest_store bb cs commits) n edges s).0.error ≡ none
      → edge_at bb laws cs commits (persist (ingest_store bb cs commits) n edges s).1 k ≡ present e
      → Memᴰ e edges ⊎ (edge_at bb laws cs commits s k ≡ present e)
  unfolding persist ingest_store
  persist-edge_at n [] s k e ok h = inr h
  persist-edge_at n (edge ∷ edges) s k e ok h =
      let step = upsert_discovered_link bb cs commits s edge in
      elim (Bool-cases step.0) [
        | inl w ↦ elim (persist-edge_at (suc n) edges step.1 k e (rw w at ok) (rw w at h)) [
          | inl m ↦ inl (Memᴰ.tail m)
          | inr old ↦
              let read = upsert_discovered_link-edge_at s step.1 edge k (ap (λ b. (b, step.1)) w) in
              let name = discovered_key edge.parent_law_id edge.gii_slug in
              elim (Bool-cases (name == k)) [
                | inl y ↦
                    let q : present edge ≡ present e = sym (rw y at read) ∙ old in
                    inl (Memᴰ.head (cc q))
                | inr y ↦ inr (sym (rw y at read) ∙ old)
              ]
        ]
        | inr w ↦ cc (rw w at ok)
      ]

  unless_slug-present :
      (slug : String) (r : Got DiscoveredEdge) (e : DiscoveredEdge)
      → unless_slug slug r ≡ present e
      → e.gii_slug ≢ slug
  unless_slug-present slug absent e h q = cc h
  unless_slug-present slug broken e h q = cc h
  unless_slug-present slug (present f) e h q = elim (Bool-cases (f.gii_slug == slug)) [
    | inl y ↦ cc (rw y at h)
    | inr y ↦
        let same : f ≡ e = cc (rw y at h) in
        cc ((eq_iff f.gii_slug slug).1 (ap (λ x. x.gii_slug) same ∙ q), y)
  ]

  pub replace_edges-edge_at :
      (slug : String) (edges : List DiscoveredEdge) (s : Db B) (k : String) (e : DiscoveredEdge)
      → valid_slug slug ≡ true
      → edges ≢ []
      → (replace_edges (ingest_store bb cs commits) slug edges s).0.error ≡ none
      → edge_at bb laws cs commits (replace_edges (ingest_store bb cs commits) slug edges s).1 k
        ≡ present e
      → e.gii_slug ≡ slug
      → Memᴰ e edges
  unfolding replace_edges ingest_store
  replace_edges-edge_at slug [] s k e v ne ok h q = absurd (ne refl)
  replace_edges-edge_at slug (edge ∷ edges) s k e v ne ok h q =
      let step = delete_discovered_by_slug bb cs commits s slug in
      elim (Bool-cases step.0) [
        | inl w ↦ elim (persist-edge_at 0 (edge ∷ edges) step.1 k e (rw w at ok) (rw w at h)) [
          | inl m ↦ m
          | inr old ↦
              let trimmed = trim_space-slug slug v in
              let read =
                filled_slug-edge_at bb laws cs commits s step.1 slug k
                  (λ z. valid_slug-ne slug v (sym trimmed ∙ z)) (ap (λ b. (b, step.1)) w) in
              absurd (
                unless_slug-present (trim_space slug) (edge_at bb laws cs commits s k) e
                  (sym read ∙ old) (q ∙ sym trimmed))
        ]
        | inr w ↦ cc (rw w at ok)
      ]

  -- A key that holds an edge.
  abbrev pub IsHeld : Db B → (key : String) → Type 0
  IsHeld s k = (e : DiscoveredEdge) × (edge_at bb laws cs commits s k ≡ present e)

  upsert_discovered_link-IsHeld :
      (s s' : Db B) (e : DiscoveredEdge) (k : String)
      → upsert_discovered_link bb cs commits s e ≡ (true, s')
      → ((discovered_key e.parent_law_id e.gii_slug == k) ≡ true) ⊎ IsHeld s k
      → IsHeld s' k
  upsert_discovered_link-IsHeld s s' e k h (inl y) =
      (e, upsert_discovered_link-edge_at s s' e k h ∙ rw y refl)
  upsert_discovered_link-IsHeld s s' e k h (inr (f, q)) =
      let read = upsert_discovered_link-edge_at s s' e k h in
      elim (Bool-cases (discovered_key e.parent_law_id e.gii_slug == k)) [
        | inl y ↦ (e, read ∙ rw y refl)
        | inr y ↦ (f, read ∙ rw y q)
      ]

  -- Each written edge has its key in the store, and no key is lost.
  persist-IsHeld :
      (n : ℕ) (edges : List DiscoveredEdge) (s : Db B) (k : String)
      → (persist (ingest_store bb cs commits) n edges s).0.error ≡ none
      → ((e : DiscoveredEdge) × Memᴰ e edges
          × ((discovered_key e.parent_law_id e.gii_slug == k) ≡ true))
        ⊎ IsHeld s k
      → IsHeld (persist (ingest_store bb cs commits) n edges s).1 k
  unfolding persist ingest_store
  persist-IsHeld n [] s k ok (inl (e, m, y)) = elim m [ ]
  persist-IsHeld n [] s k ok (inr held) = held
  persist-IsHeld n (edge ∷ edges) s k ok why =
      let step = upsert_discovered_link bb cs commits s edge in
      elim (Bool-cases step.0) [
        | inr w ↦ cc (rw w at ok)
        | inl w ↦
            let wrote = upsert_discovered_link-IsHeld s step.1 edge k (ap (λ b. (b, step.1)) w) in
            let next = persist-IsHeld (suc n) edges step.1 k (rw w at ok) in
            rw w (elim why [
              | inr held ↦ next (inr (wrote (inr held)))
              | inl (e, m, y) ↦ elim (Memᴰ.cases_cons m) [
                | inl q ↦
                    let name =
                      λ (x : DiscoveredEdge). discovered_key x.parent_law_id x.gii_slug == k in
                    next (inr (wrote (inl (ap name (sym q) ∙ y))))
                | inr later ↦ next (inl (e, later, y))
              ]
            ])
      ]

  pub replace_edges-IsHeld :
      (slug : String) (edges : List DiscoveredEdge) (s : Db B) (e : DiscoveredEdge)
      → (replace_edges (ingest_store bb cs commits) slug edges s).0.error ≡ none
      → Memᴰ e edges
      → IsHeld
          (replace_edges (ingest_store bb cs commits) slug edges s).1
          (discovered_key e.parent_law_id e.gii_slug)
  unfolding replace_edges ingest_store
  replace_edges-IsHeld slug [] s e ok m = elim m [ ]
  replace_edges-IsHeld slug (edge ∷ edges) s e ok m =
      let step = delete_discovered_by_slug bb cs commits s slug in
      elim (Bool-cases step.0) [
        | inr w ↦ cc (rw w at ok)
        | inl w ↦ rw w (
            persist-IsHeld 0 (edge ∷ edges) step.1 (discovered_key e.parent_law_id e.gii_slug)
              (rw w at ok) (inl (e, m, eq_refl (discovered_key e.parent_law_id e.gii_slug))))
      ]
