-- ===== src/Tests/Buckets.antt =====
-- A bucket as a list of writes, the last first; and codecs of single values.
use mathlib.Core.List.Memᴰ
use gesetzeswache.Prelude.{
  ◌≡◌, ◌≢◌, refl, ◌∙◌, sym, ap, String, Bool, true, ◌==◌, eq_iff, Option, none, some, List, [], ◌∷◌,
  Memᴰ, Bool-cases, inl, inr, arith, if◌then◌else◌,
}
use gesetzeswache.Store.Buckets.{Bbolt, BboltLaws, Codec, IsCodec}

abbrev Pairs : Type 0
Pairs = List (String × String)

abbrev pub value_of : Pairs → String → Option String
value_of [] k = none
value_of ((j, v) ∷ b) k = if j == k then some v else value_of b k

abbrev pub without : String → Pairs → Pairs
without k [] = []
without k ((j, v) ∷ b) = let rest = without k b in if j == k then rest else (j, v) ∷ rest

-- Each key once, with its last value.
abbrev pub visited : Pairs → Pairs
visited [] = []
visited ((k, v) ∷ b) = (k, v) ∷ without k (visited b)

abbrev pub bucket : Bbolt (List (String × String))
bucket = record {
  new = [];
  get = value_of;
  put = λ b k v. if k == "" then none else some ((k, v) ∷ b);
  delete = λ b k. some (without k b);
  entries = visited;
  next_sequence = λ b. (1, b);
}

value_of-without :
    (k j : String) (b : Pairs) → value_of (without k b) j ≡ (if k == j then none else value_of b j)
value_of-without k j [] = elim (Bool-cases (k == j)) [ inl e ↦ rw e refl | inr e ↦ rw e refl ]
value_of-without k j ((i, v) ∷ b) =
    ground (arith, value_of-without k j b, eq_iff i k, eq_iff k j, eq_iff i j)

mem-without : (k j v : String) (b : Pairs) → Memᴰ (j, v) (without k b) → Memᴰ (j, v) b × (j ≢ k)
mem-without k j v [] m = elim m [ ]
mem-without k j v ((i, w) ∷ b) m = elim (Bool-cases (i == k)) [
  | inl e ↦ let (n, ne) = mem-without k j v b (rw (e, without) at m) in (Memᴰ.tail n, ne)
  | inr e ↦ elim (Memᴰ.cases_cons (rw (e, without) at m)) [
    | inl q ↦ (Memᴰ.head q, λ same. cc ((eq_iff i k).1 (sym (ap (λ p. p.0) q) ∙ same), e))
    | inr n ↦ let (n', ne) = mem-without k j v b n in (Memᴰ.tail n', ne)
  ]
]

without-mem : (k j v : String) (b : Pairs) → Memᴰ (j, v) b → j ≢ k → Memᴰ (j, v) (without k b)
without-mem k j v [] m ne = elim m [ ]
without-mem k j v ((i, w) ∷ b) m ne = elim (Bool-cases (i == k)) [
  | inl e ↦ elim (Memᴰ.cases_cons m) [
    | inl q ↦ absurd (ne (ap (λ p. p.0) q ∙ (eq_iff i k).0 e))
    | inr n ↦ rw e (without-mem k j v b n ne)
  ]
  | inr e ↦ elim (Memᴰ.cases_cons m) [
    | inl q ↦ rw e (Memᴰ.head q)
    | inr n ↦ rw e (Memᴰ.tail (without-mem k j v b n ne))
  ]
]

visited_sound : (b : Pairs) (k v : String) → Memᴰ (k, v) (visited b) → value_of b k ≡ some v
visited_sound [] k v m = elim m [ ]
visited_sound ((j, w) ∷ b) k v m = elim (Memᴰ.cases_cons m) [
  | inl q ↦
      let e : (j == k) ≡ true = (eq_iff j k).1 (sym (ap (λ p. p.0) q)) in
      rw e (ap (λ p. some p.1) (sym q))
  | inr n ↦
      let (n', ne) = mem-without j k v (visited b) n in
      elim (Bool-cases (j == k)) [
        | inl e ↦ absurd (ne (sym ((eq_iff j k).0 e)))
        | inr e ↦ rw e (visited_sound b k v n')
      ]
]

visited_complete : (b : Pairs) (k v : String) → value_of b k ≡ some v → Memᴰ (k, v) (visited b)
visited_complete [] k v h = absurd (none-ne_some h)
  where
    none-ne_some : ◌≡◌ {A = Option String} none (some v) → ⊥
    none-ne_some q = cc q
visited_complete ((j, w) ∷ b) k v h = elim (Bool-cases (j == k)) [
  | inl e ↦
      let q : w ≡ v = cc (rw e at h) in
      Memᴰ.head (ap (λ (p : String × String). p) (pair (sym ((eq_iff j k).0 e)) (sym q)))
  | inr e ↦ Memᴰ.tail (
      without-mem j k v (visited b) (visited_complete b k v (rw e at h))
        (λ same. cc ((eq_iff j k).1 (sym same), e)))
]
  where
    pair : {a c : String} {d f : String} → a ≡ c → d ≡ f → ◌≡◌ {A = String × String} (a, d) (c, f)
    pair p q = cc

get-put :
    (b b' : Pairs) (k v j : String)
    → bucket.put b k v ≡ some b'
    → bucket.get b' j ≡ (if k == j then some v else bucket.get b j)
get-put b b' k v j h = elim (Bool-cases (k == "")) [
  | inl e ↦ cc (rw e at h)
  | inr e ↦ let q : (k, v) ∷ b ≡ b' = cc (rw e at h) in rw (← q) refl
]

get-delete :
    (b b' : Pairs) (k j : String)
    → bucket.delete b k ≡ some b'
    → bucket.get b' j ≡ (if k == j then none else bucket.get b j)
get-delete b b' k j h = let q : without k b ≡ b' = cc h in rw (← q) (value_of-without k j b)

pub bucket-BboltLaws : BboltLaws bucket
bucket-BboltLaws = record {
  get-new = λ k. refl;
  get-put = get-put;
  get-delete = get-delete;
  entries_iff = λ b k v. (visited_sound b k v, visited_complete b k v);
}

-- A codec that knows one value, by a test of being it.
abbrev pub only : {T : Type 0} → (T → Bool) → T → Codec T
only is x = record {
  encode = λ y. if is y then some "1" else none;
  decode = λ text. if text == "1" then some x else none;
}

pub only-IsCodec :
    {T : Type 0} (is : T → Bool) (x : T) → ((y : T) → is y ≡ true → x ≡ y) → IsCodec (only is x)
only-IsCodec is x same y text h = elim (Bool-cases (is y)) [
  | inl e ↦ let q : ◌≡◌ {A = String} "1" text = cc (rw e at h) in rw (← q) (ap some (same y e))
  | inr e ↦ cc (rw e at h)
]

-- A codec that knows none.
abbrev pub nothing : {T : Type 0} → Codec T
nothing = record { encode = λ y. none; decode = λ text. none }

pub nothing-IsCodec : {T : Type 0} → IsCodec (nothing {T = T})
nothing-IsCodec y text h = cc h
