-- ===== src/Store/Deleted.antt =====
-- What is left when the edges of a slug are deleted.
use mathlib.Core.List.Memᴰ
use gesetzeswache.Prelude.{
  ◌≡◌, ◌≢◌, refl, ◌∙◌, sym, ap, subst, String, Bool, true, false, ◌==◌, eq_iff, eq_refl, Option,
  none, some, List, [], ◌∷◌, Memᴰ, any, Bool-cases, Option-cases, inl, inr, ◌⊎◌, if◌then◌else◌,
  arith,
}
use gesetzeswache.Text.{trim_space}
use gesetzeswache.Domain.{DiscoveredEdge}
use gesetzeswache.Store.Buckets.{Bbolt, BboltLaws, Got, absent, present, get_json}
use gesetzeswache.Store.Entities.{Db, Codecs}
use gesetzeswache.Store.Discovered.{
  keys_of_slug, delete_keys, delete_discovered_by_slug, get_in, delete_slug,
}
use gesetzeswache.Store.Rows.{edge_at}
use gesetzeswache.Store.Writes.{update-committed, with_bucket-some}

-- What a deletion of a slug leaves of a read.
abbrev pub unless_slug : (slug : String) → Got DiscoveredEdge → Got DiscoveredEdge
unless_slug slug (present e) = if e.gii_slug == slug then absent else present e
unless_slug slug r = r

module _ {B : Type 0} (bb : Bbolt B) (laws : BboltLaws bb) (cs : Codecs)
    (commits : Db B → Bool) where
  -- A pass that succeeded has read each edge, and listed the key of each with the slug.
  keys_of_slug-reads :
      (slug k text : String) (es : List (String × String)) (ks : List String)
      → keys_of_slug bb cs commits slug es ≡ some ks
      → Memᴰ (k, text) es
      → (e : DiscoveredEdge) × (cs.edge.decode text ≡ some e)
        × ((e.gii_slug == slug) ≡ true → any (λ j. j == k) ks ≡ true)
  unfolding keys_of_slug
  keys_of_slug-reads slug k text [] ks h m = elim m [ ]
  keys_of_slug-reads slug k text ((j, t) ∷ es) ks h m = elim (Option-cases (cs.edge.decode t)) [
    | inl d ↦ cc (rw d at h)
    | inr (e, d) ↦ elim (Option-cases (keys_of_slug bb cs commits slug es)) [
      | inl n ↦ cc (rw (d, n) at h)
      | inr (rest, n) ↦
          let q : (if e.gii_slug == slug then j ∷ rest else rest) ≡ ks = cc (rw (d, n) at h) in
          elim (Memᴰ.cases_cons m) [
            | inl same ↦ (
              e,
              ap (λ r. cs.edge.decode r.1) same ∙ d,
              λ here. rw (← q) (rw here (rw (ap (λ r. r.0) same) (ground (arith, eq_refl j)))),
            )
            | inr later ↦
                let (f, df, listed) = keys_of_slug-reads slug k text es rest n later in
                (
                  f,
                  df,
                  λ here. elim (Bool-cases (e.gii_slug == slug)) [
                    | inl y ↦ rw (← q) (rw y (ground (arith, listed here)))
                    | inr y ↦ rw (← q) (rw y (listed here))
                  ],
                )
          ]
    ]
  ]

  -- Each listed key is that of an edge with the slug.
  keys_of_slug_sound :
      (slug k : String) (es : List (String × String)) (ks : List String)
      → keys_of_slug bb cs commits slug es ≡ some ks
      → any (λ j. j == k) ks ≡ true
      → (text : String) × (e : DiscoveredEdge) × Memᴰ (k, text) es
        × (cs.edge.decode text ≡ some e)
        × ((e.gii_slug == slug) ≡ true)
  unfolding keys_of_slug
  keys_of_slug_sound slug k [] ks h a =
      let q : [] ≡ ks = cc h in
      absurd (ground (arith, subst (λ l. any (λ j. j == k) l ≡ true) (sym q) a))
  keys_of_slug_sound slug k ((j, t) ∷ es) ks h a = elim (Option-cases (cs.edge.decode t)) [
    | inl d ↦ cc (rw d at h)
    | inr (e, d) ↦ elim (Option-cases (keys_of_slug bb cs commits slug es)) [
      | inl n ↦ cc (rw (d, n) at h)
      | inr (rest, n) ↦
          let q : (if e.gii_slug == slug then j ∷ rest else rest) ≡ ks = cc (rw (d, n) at h) in
          let further : any (λ i. i == k) rest ≡ true
              → (text : String) × (f : DiscoveredEdge) × Memᴰ (k, text) ((j, t) ∷ es)
                × (cs.edge.decode text ≡ some f)
                × ((f.gii_slug == slug) ≡ true) =
            λ b.
              let (text, f, m, df, y) = keys_of_slug_sound slug k es rest n b in
              (text, f, Memᴰ.tail m, df, y) in
          elim (Bool-cases (e.gii_slug == slug)) [
            | inl y ↦ elim (Bool-cases (j == k)) [
              | inl same ↦ (t, e, Memᴰ.head (ap (λ i. (i, t)) (sym ((eq_iff j k).0 same))), d, y)
              | inr other ↦
                  let a' : any (λ i. i == k) (j ∷ rest) ≡ true = rw (← rw y at q) at a in
                  further (ground arith)
            ]
            | inr y ↦ further (rw (← rw y at q) at a)
          ]
    ]
  ]

  delete_keys-get :
      (ks : List String) (b b' : B) (k : String)
      → delete_keys bb cs commits ks (some b) ≡ some b'
      → bb.get b' k ≡ (if any (λ j. j == k) ks then none else bb.get b k)
  unfolding delete_keys
  delete_keys-get [] b b' k h = let q : b ≡ b' = cc h in ap (λ x. bb.get x k) (sym q)
  delete_keys-get (j ∷ ks) b b' k h = elim (Option-cases (bb.delete b j)) [
    | inl n ↦ cc (deleted_nothing ks b' (rw n at h))
    | inr (b₁, n) ↦
        let step = laws.get-delete b b₁ j k n in
        let rest = delete_keys-get ks b₁ b' k (rw n at h) in
        elim (Bool-cases (j == k)) [
          | inl same ↦ rest ∙ rw (step, same) (ground arith)
          | inr other ↦ rest ∙ rw (step, other) refl
        ]
  ]
    where
      deleted_nothing :
          (ks : List String) (b' : B) → delete_keys bb cs commits ks none ≡ some b' → none ≡ some b'
      deleted_nothing [] b' h = h
      deleted_nothing (k ∷ ks) b' h = h

  key_not_listed :
      (slug k : String) (b : B) (ks : List String)
      → keys_of_slug bb cs commits slug (bb.entries b) ≡ some ks
      → bb.get b k ≡ none
      → any (λ j. j == k) ks ≡ false
  key_not_listed slug k b ks h n = elim (Bool-cases (any (λ j. j == k) ks)) [
    | inl a ↦
        let (text, e, m, d, y) = keys_of_slug_sound slug k (bb.entries b) ks h a in
        cc (sym n ∙ (laws.entries_iff b k text).0 m)
    | inr a ↦ a
  ]

  other_not_listed :
      (slug k text : String) (b : B) (ks : List String) (e : DiscoveredEdge)
      → keys_of_slug bb cs commits slug (bb.entries b) ≡ some ks
      → bb.get b k ≡ some text
      → cs.edge.decode text ≡ some e
      → (e.gii_slug == slug) ≡ false
      → any (λ j. j == k) ks ≡ false
  other_not_listed slug k text b ks e h n d other = elim (Bool-cases (any (λ j. j == k) ks)) [
    | inl a ↦
        let (text', f, m, df, y) = keys_of_slug_sound slug k (bb.entries b) ks h a in
        let t : text ≡ text' = cc (sym n ∙ (laws.entries_iff b k text').0 m) in
        let q : some e ≡ some f = sym d ∙ ap cs.edge.decode t ∙ df in
        let same : e ≡ f = cc q in
        let y' : (e.gii_slug == slug) ≡ true = ap (λ x. x.gii_slug == slug) same ∙ y in
        cc (sym y' ∙ other)
    | inr a ↦ a
  ]

  deleted-get :
      (slug k : String) (b b' : B) (ks : List String)
      → keys_of_slug bb cs commits slug (bb.entries b) ≡ some ks
      → delete_keys bb cs commits ks (some b) ≡ some b'
      → get_json bb cs.edge b' k ≡ unless_slug slug (get_json bb cs.edge b k)
  unfolding get_json
  deleted-get slug k b b' ks h del =
      let after = delete_keys-get ks b b' k del in
      elim (Option-cases (bb.get b k)) [
        | inl n ↦ rw (after, n) (rw (key_not_listed slug k b ks h n) refl)
        | inr (text, n) ↦
            let (e, d, listed) =
              keys_of_slug-reads slug k text (bb.entries b) ks h
                ((laws.entries_iff b k text).1 n) in
            elim (Bool-cases (e.gii_slug == slug)) [
              | inl y ↦ rw (after, n) (rw (listed y, d) (rw y refl))
              | inr y ↦
                  rw (after, n) (rw (other_not_listed slug k text b ks e h n d y, d) (rw y refl))
            ]
      ]

  deleted_in :
      (slug k : String) (o : Option B) (s s' : Db B)
      → s.discovered_links ≡ o
      → delete_slug bb cs commits slug o s ≡ (true, s')
      → edge_at bb laws cs commits s' k ≡ unless_slug slug (get_in bb cs commits cs.edge o k)
  unfolding delete_slug get_json
  deleted_in slug k none s s' e h = let same : s ≡ s' = ap (λ p. p.1) h in rw (← same) (rw e refl)
  deleted_in slug k (some b) s s' e h =
      let (b', found, q) =
        with_bucket-some (λ c. record s { discovered_links = some c }) _ s'
          (update-committed commits _ s s' h) in
      elim (Option-cases (keys_of_slug bb cs commits slug (bb.entries b))) [
        | inl n ↦ cc (rw n at found)
        | inr (ks, n) ↦ rw q (deleted-get slug k b b' ks n (rw n at found))
      ]

  pub filled_slug-edge_at :
      (s s' : Db B) (slug k : String)
      → trim_space slug ≢ ""
      → delete_discovered_by_slug bb cs commits s slug ≡ (true, s')
      → edge_at bb laws cs commits s' k
        ≡ unless_slug (trim_space slug) (edge_at bb laws cs commits s k)
  unfolding delete_discovered_by_slug
  filled_slug-edge_at s s' slug k ne h = elim (Bool-cases (trim_space slug == "")) [
    | inl y ↦ absurd (ne ((eq_iff _ _).0 y))
    | inr y ↦ deleted_in (trim_space slug) k s.discovered_links s s' refl (rw y at h)
  ]

  -- When the edges of a slug were deleted, a key reads as before, unless an edge with the trimmed
  -- slug was there: then nothing is. The deletion of a slug that is empty when trimmed is answered
  -- as done and changes nothing.
  pub delete_discovered_by_slug-edge_at :
      (s s' : Db B) (slug k : String)
      → delete_discovered_by_slug bb cs commits s slug ≡ (true, s')
      → ((trim_space slug ≡ "") × (s' ≡ s))
        ⊎ ((trim_space slug ≢ "")
            × (edge_at bb laws cs commits s' k
                ≡ unless_slug (trim_space slug) (edge_at bb laws cs commits s k)))
  unfolding delete_discovered_by_slug
  delete_discovered_by_slug-edge_at s s' slug k h = elim (Bool-cases (trim_space slug == "")) [
    | inl y ↦ inl ((eq_iff _ _).0 y, sym (ap (λ p. p.1) (rw y at h)))
    | inr y ↦ inr (
      λ q. cc (sym y ∙ (eq_iff _ _).1 q),
      filled_slug-edge_at s s' slug k (λ q. cc (sym y ∙ (eq_iff _ _).1 q)) h,
    )
  ]
