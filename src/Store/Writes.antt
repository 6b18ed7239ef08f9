-- ===== src/Store/Writes.antt =====
-- What a read finds behind a write.
use gesetzeswache.Prelude.{
  ◌≡◌, refl, ap, String, Bool, true, false, ◌==◌, Option, none, some, Bool-cases, inl, inr,
  if◌then◌else◌,
}
use gesetzeswache.Store.Buckets.{
  Bbolt, BboltLaws, Codec, IsCodec, present, put_encoded, put_json, get_json, update,
}
use gesetzeswache.Store.Entities.{Db, with_bucket}

-- A transaction that went through.
pub update-committed :
    {S : Type 0} (commits : S → Bool) (o : Option S) (s s' : S)
    → update commits o s ≡ (true, s')
    → o ≡ some s'
unfolding update
update-committed commits none s s' e = cc e
update-committed commits (some t) s s' e = elim (Bool-cases (commits t)) [
  | inl h ↦ ap (λ p. some p.1) (rw h at e)
  | inr h ↦ cc (rw h at e)
]

-- One that did not.
pub update-undone :
    {S : Type 0} (commits : S → Bool) (o : Option S) (s s' : S)
    → update commits o s ≡ (false, s')
    → s ≡ s'
unfolding update
update-undone commits none s s' e = ap (λ p. p.1) e
update-undone commits (some t) s s' e = elim (Bool-cases (commits t)) [
  | inl h ↦ cc (rw h at e)
  | inr h ↦ ap (λ p. p.1) (rw h at e)
]

pub with_bucket-some :
    {B : Type 0} (into : B → Db B) (o : Option B) (s : Db B)
    → with_bucket into o ≡ some s
    → (b : B) × (o ≡ some b) × (s ≡ into b)
with_bucket-some into none s e = cc e
with_bucket-some into (some b) s e = (b, refl, cc e)

module _ {B T : Type 0} (bb : Bbolt B) (laws : BboltLaws bb) (c : Codec T) (codec : IsCodec c) where
  put_encoded-put :
      (b b' : B) (k : String) (o : Option String)
      → put_encoded bb b k o ≡ some b'
      → (text : String) × (o ≡ some text) × (bb.put b k text ≡ some b')
  put_encoded-put b b' k none e = cc e
  put_encoded-put b b' k (some text) e = (text, refl, e)

  pub get_json-put_json :
      (b b' : B) (k j : String) (x : T)
      → put_json bb c b k x ≡ some b'
      → get_json bb c b' j ≡ (if k == j then present x else get_json bb c b j)
  unfolding put_json get_json
  get_json-put_json b b' k j x e =
      let (text, enc, put) = put_encoded-put b b' k (c.encode x) e in
      let read = laws.get-put b b' k text j put in
      elim (Bool-cases (k == j)) [
        | inl h ↦ rw (h, read) (rw (h, codec x text enc) refl)
        | inr h ↦ rw (h, read) (rw h refl)
      ]
