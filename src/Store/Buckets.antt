-- ===== src/Store/Buckets.antt =====
-- The database as the store uses it: go.etcd.io/bbolt and encoding/json are parameters, with what
-- their documents promise as laws.
use gesetzeswache.Prelude.{
  ℕ, ◌≡◌, ◌↔◌, String, Bool, true, false, ◌==◌, Option, none, some, List, [], ◌∷◌, Memᴰ,
  if◌then◌else◌,
}

-- A bucket: `Get`, `Put` and `Delete`, which may fail, `ForEach` as the list of the pairs that it
-- visits, and `NextSequence`. `new` is what `CreateBucket` makes.
pub record Bbolt (B : Type 0) : Type 0 where
  pub new : B
  pub get : B → (key : String) → Option String
  pub put : B → (key value : String) → Option B
  pub delete : B → (key : String) → Option B
  pub entries : B → List (String × String)
  pub next_sequence : B → ℕ × B

-- What a read finds behind a write, and that `ForEach` visits what `Get` finds.
pub record BboltLaws {B : Type 0} (bb : Bbolt B) : Type 0 where
  pub get-new : (k : String) → bb.get bb.new k ≡ none
  pub get-put :
      (b b' : B) (k v j : String)
      → bb.put b k v ≡ some b'
      → bb.get b' j ≡ (if k == j then some v else bb.get b j)
  pub get-delete :
      (b b' : B) (k j : String)
      → bb.delete b k ≡ some b'
      → bb.get b' j ≡ (if k == j then none else bb.get b j)
  pub entries_iff : (b : B) (k v : String) → Memᴰ (k, v) (bb.entries b) ↔ (bb.get b k ≡ some v)

-- `json.Marshal` and `json.Unmarshal` at one type.
pub record Codec (T : Type 0) : Type 0 where
  pub encode : T → Option String
  pub decode : String → Option T

-- What was written is read back.
abbrev pub IsCodec : {T : Type 0} → Codec T → Type 0
IsCodec {T} c = (x : T) (text : String) → c.encode x ≡ some text → c.decode text ≡ some x

-- What `getJSON` answers: `(false, nil)`, a value, or an error.
pub data Got (T : Type 0) : Type 0 where
  absent : Got T
  present : T → Got T
  broken : Got T

abbrev pub put_encoded : {B : Type 0} → Bbolt B → B → (key : String) → Option String → Option B
put_encoded bb b key none = none
put_encoded bb b key (some text) = bb.put b key text

-- `putJSON`
unfoldable pub put_json : {B T : Type 0} → Bbolt B → Codec T → B → (key : String) → T → Option B
put_json bb c b key x = put_encoded bb b key (c.encode x)

abbrev pub got_decoded : {T : Type 0} → Option T → Got T
got_decoded none = broken
got_decoded (some x) = present x

abbrev pub got : {T : Type 0} → Codec T → Option String → Got T
got c none = absent
got c (some text) = got_decoded (c.decode text)

-- `getJSON`
unfoldable pub get_json : {B T : Type 0} → Bbolt B → Codec T → B → (key : String) → Got T
get_json bb c b key = got c (bb.get b key)

abbrev row_then : {T : Type 0} → (T → Bool) → Option T → List T × Bool → List T × Bool
row_then p none rest = ([], true)
row_then p (some x) (rows, failed) = (if p x then x ∷ rows else rows, failed)

-- The loops of `ForEach` over a bucket's values: the rows that pass the test, and whether one could
-- not be read, which ends the loop.
unfoldable pub rows_where :
    {T : Type 0} → Codec T → (T → Bool) → List (String × String) → List T × Bool
rows_where c p [] = ([], false)
rows_where c p ((key, text) ∷ more) = row_then p (c.decode text) (rows_where c p more)

-- `db.Update`: an error undoes the transaction, and so does a commit that fails.
unfoldable pub update : {S : Type 0} → (commits : S → Bool) → Option S → S → Bool × S
update commits none s = (false, s)
update commits (some s') s = if commits s' then (true, s') else (false, s)
