-- ===== src/Store/Rows.antt =====
-- What a loop over a bucket finds.
use mathlib.Core.List.Memᴰ
use gesetzeswache.Prelude.{
  ◌≡◌, ◌↔◌, refl, ◌∙◌, sym, ap, String, Bool, true, false, ◌==◌, eq_iff, Option, none, some, List,
  [], ◌∷◌, Memᴰ, Bool-cases, Option-cases, inl, inr,
}
use gesetzeswache.Normalize.{key}
use gesetzeswache.Domain.{DiscoveredEdge}
use gesetzeswache.Store.Buckets.{Bbolt, BboltLaws, Codec, Got, present, got, rows_where, get_json}
use gesetzeswache.Store.Entities.{Db, Codecs}
use gesetzeswache.Store.Discovered.{discovered_for_parent, get_in, entries_in}

module _ {T : Type 0} (c : Codec T) (p : T → Bool) where
  -- A pair of a bucket whose value reads as a row that passes the test.
  abbrev IsSource : List (String × String) → T → Type 0
  IsSource es x =
      (k : String) × (text : String) × Memᴰ (k, text) es × (c.decode text ≡ some x) × (p x ≡ true)

  IsSource-tail :
      (e : String × String) (es : List (String × String)) (x : T)
      → IsSource es x
      → IsSource (e ∷ es) x
  IsSource-tail e es x (k, text, m, d, h) = (k, text, Memᴰ.tail m, d, h)

  pub rows_where-IsSource :
      (es : List (String × String)) (x : T) → Memᴰ x (rows_where c p es).0 → IsSource es x
  unfolding rows_where
  rows_where-IsSource [] x m = elim m [ ]
  rows_where-IsSource ((k, text) ∷ es) x m = elim (Option-cases (c.decode text)) [
    | inl d ↦ elim (rw d at m) [ ]
    | inr (y, d) ↦ elim (Bool-cases (p y)) [
      | inl h ↦ elim (Memᴰ.cases_cons (rw (d, h) at m)) [
        | inl q ↦ (k, text, Memᴰ.head refl, d ∙ ap some (sym q), rw q h)
        | inr n ↦ IsSource-tail (k, text) es x (rows_where-IsSource es x n)
      ]
      | inr h ↦ IsSource-tail (k, text) es x (rows_where-IsSource es x (rw (d, h) at m))
    ]
  ]

  pub mem-rows_where :
      (es : List (String × String)) (x : T)
      → (rows_where c p es).1 ≡ false
      → IsSource es x
      → Memᴰ x (rows_where c p es).0
  unfolding rows_where
  mem-rows_where [] x e (k, text, m, d, h) = elim m [ ]
  mem-rows_where ((j, t) ∷ es) x e (k, text, m, d, h) = elim (Option-cases (c.decode t)) [
    | inl n ↦ cc (rw n at e)
    | inr (y, dy) ↦
        let rest = mem-rows_where es x (rw dy at e) in
        elim (Memᴰ.cases_cons m) [
          | inl q ↦
              let same : some y ≡ some x = sym dy ∙ ap (λ r. c.decode r.1) (sym q) ∙ d in
              let s : y ≡ x = cc same in rw dy (rw s (rw h (Memᴰ.head refl)))
          | inr n ↦ elim (Bool-cases (p y)) [
            | inl hy ↦ rw dy (rw hy (Memᴰ.tail (rest (k, text, n, d, h))))
            | inr hy ↦ rw dy (rw hy (rest (k, text, n, d, h)))
          ]
        ]
  ]

module _ {B : Type 0} (bb : Bbolt B) (laws : BboltLaws bb) (cs : Codecs)
    (commits : Db B → Bool) where
  -- The edge that is stored under a key.
  abbrev pub edge_at : Db B → (key : String) → Got DiscoveredEdge
  edge_at s k = get_in bb cs commits cs.edge s.discovered_links k

  got-present :
      {T : Type 0} (c : Codec T) (o : Option String) (x : T)
      → got c o ≡ present x
      → (text : String) × (o ≡ some text) × (c.decode text ≡ some x)
  got-present c none x e = cc e
  got-present c (some text) x e = elim (Option-cases (c.decode text)) [
    | inl d ↦ cc (rw d at e)
    | inr (y, d) ↦ let q : y ≡ x = cc (rw d at e) in (text, refl, d ∙ ap some q)
  ]

  pub entries-edge_at :
      (o : Option B) (k text : String) (e : DiscoveredEdge)
      → Memᴰ (k, text) (entries_in bb cs commits o)
      → cs.edge.decode text ≡ some e
      → get_in bb cs commits cs.edge o k ≡ present e
  unfolding get_json
  entries-edge_at none k text e m d = elim m [ ]
  entries-edge_at (some b) k text e m d = rw ((laws.entries_iff b k text).0 m, d) refl

  pub edge_at-entries :
      (o : Option B) (k : String) (e : DiscoveredEdge)
      → get_in bb cs commits cs.edge o k ≡ present e
      → (text : String) × Memᴰ (k, text) (entries_in bb cs commits o)
        × (cs.edge.decode text ≡ some e)
  unfolding get_json
  edge_at-entries none k e h = cc h
  edge_at-entries (some b) k e h =
      let (text, q, d) = got-present cs.edge (bb.get b k) e h in
      (text, (laws.entries_iff b k text).1 q, d)

  -- Where the loop reads to its end, `DiscoveredForParent` answers exactly the stored edges whose
  -- parent has the same key.
  pub discovered_for_parent-mem_iff :
      (s : Db B) (parent : String) (e : DiscoveredEdge)
      → (discovered_for_parent bb cs commits s parent).1 ≡ false
      → Memᴰ e (discovered_for_parent bb cs commits s parent).0
        ↔ ((k : String) × (edge_at s k ≡ present e) × (key e.parent_law_id ≡ key parent))
  unfolding discovered_for_parent
  discovered_for_parent-mem_iff s parent e whole =
      let es = entries_in bb cs commits s.discovered_links in
      let p = λ (x : DiscoveredEdge). key x.parent_law_id == key parent in
      (
        λ m.
            let (k, text, n, d, h) = rows_where-IsSource cs.edge p es e m in
            (k, entries-edge_at s.discovered_links k text e n d, (eq_iff _ _).0 h),
        λ w.
            let (k, q, h) = w in
            let (text, n, d) = edge_at-entries s.discovered_links k e q in
            mem-rows_where cs.edge p es e whole (k, text, n, d, (eq_iff _ _).1 h),
      )
