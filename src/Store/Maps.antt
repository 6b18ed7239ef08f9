-- ===== src/Store/Maps.antt =====
-- The store as maps from keys to entities.
use mathlib.Core.Path.{fun_ext}
use gesetzeswache.Prelude.{
  ◌≡◌, refl, ◌∙◌, sym, ap, String, Bool, true, false, ◌==◌, Option, none, some, List, [], ◌∷◌,
  Option-cases, inl, inr, if◌then◌else◌,
}
use gesetzeswache.Domain.{Law, StandCitation, GazetteIssue, FreshnessRecord}
use gesetzeswache.Store.Buckets.{
  Bbolt, BboltLaws, Codec, IsCodec, Got, absent, present, broken, got_decoded, put_json, get_json,
  update,
}
use gesetzeswache.Store.Entities.{
  Db, Codecs, with_bucket, upsert_stand, get_stand, upsert_issue, get_issue, put_freshness,
  get_freshness, get_law, upsert_law_if_absent, upsert_laws, put_laws, created,
}
use gesetzeswache.Store.Writes.{
  update-committed, update-undone, with_bucket-some, get_json-put_json,
}

-- What the readers of the entities see.
pub record View : Type 0 where
  pub law : String → Got Law
  pub stand : String → Got StandCitation
  pub issue : String → Got GazetteIssue
  pub freshness : String → Got FreshnessRecord

pub data Write : Type 0 where
  add_law : Law → Write
  set_laws : List Law → Write
  set_stand : StandCitation → Write
  set_issue : GazetteIssue → Write
  set_freshness : FreshnessRecord → Write

abbrev pub written : {T : Type 0} → (key : String) → T → (String → Got T) → String → Got T
written key x read j = if key == j then present x else read j

-- What is there stays, whether or not it can be read.
abbrev pub added : {T : Type 0} → (key : String) → T → Got T → (String → Got T) → String → Got T
added key x absent read = written key x read
added key x (present y) read = read
added key x broken read = read

-- The laws of one transaction, one after the other.
abbrev pub all_written : List Law → (String → Got Law) → String → Got Law
all_written [] read = read
all_written (l ∷ laws) read = all_written laws (written l.id l read)

-- What a write means for the maps.
abbrev pub apply : Write → View → View
apply (add_law l) v = record v { law = added l.id l (v.law l.id) v.law }
apply (set_laws ls) v = record v { law = all_written ls v.law }
apply (set_stand c) v = record v { stand = written c.law_id c v.stand }
apply (set_issue i) v = record v { issue = written i.id i v.issue }
apply (set_freshness r) v = record v { freshness = written r.law_id r v.freshness }

abbrev pub apply_all : List Write → View → View
apply_all [] v = v
apply_all (w ∷ ws) v = apply_all ws (apply w v)

-- The codecs of these entities give back what they took.
pub record AreCodecs (cs : Codecs) : Type 0 where
  pub law : IsCodec cs.law
  pub stand : IsCodec cs.stand
  pub issue : IsCodec cs.issue
  pub freshness : IsCodec cs.freshness

module _ {B : Type 0} (bb : Bbolt B) (cs : Codecs) (commits : Db B → Bool) where
  unfoldable pub view : Db B → View
  unfolding get_law get_stand get_issue get_freshness get_json
  view s = record {
    law = get_law bb cs commits s;
    stand = get_stand bb cs commits s;
    issue = get_issue bb cs commits s;
    freshness = get_freshness bb cs commits s;
  }

  abbrev pub done : Option Bool × Db B → Bool × Db B
  done (none, s) = (false, s)
  done (some b, s) = (true, s)

  unfoldable pub run : Write → Db B → Bool × Db B
  unfolding upsert_law_if_absent upsert_laws upsert_stand upsert_issue put_freshness
  run (add_law l) s = done (upsert_law_if_absent bb cs commits s l)
  run (set_laws ls) s = upsert_laws bb cs commits ls s
  run (set_stand c) s = upsert_stand bb cs commits c s
  run (set_issue i) s = upsert_issue bb cs commits i s
  run (set_freshness r) s = put_freshness bb cs commits r s

  abbrev pub note_done : Bool → Write → List Write → List Write
  note_done true w ws = w ∷ ws
  note_done false w ws = ws

  -- Writes one after the other: those that went through, and the last state.
  unfoldable pub run_all : List Write → Db B → List Write × Db B
  unfolding run
  run_all [] s = ([], s)
  run_all (w ∷ ws) s =
      let (ok, s₁) = run w s in let (rest, s₂) = run_all ws s₁ in (note_done ok w rest, s₂)

module _ {B : Type 0} (bb : Bbolt B) (laws : BboltLaws bb) (cs : Codecs) (codecs : AreCodecs cs)
    (commits : Db B → Bool) where
  -- A write into one bucket, as the map of its reader.
  one_bucket :
      {T : Type 0} (c : Codec T) (codec : IsCodec c) (into : B → Db B) (b : B) (key : String)
      (x : T) (s s' : Db B)
      → update commits (with_bucket into (put_json bb c b key x)) s ≡ (true, s')
      → (b' : B) × (s' ≡ into b')
        × ((λ j. get_json bb c b' j) ≡ written key x (λ j. get_json bb c b j))
  one_bucket c codec into b key x s s' e =
      let (b', put, q) = with_bucket-some into _ s' (update-committed commits _ s s' e) in
      (b', q, fun_ext (λ j. get_json-put_json bb laws c codec b b' key j x put))

  put_laws-none : (ls : List Law) → put_laws bb cs commits ls none ≡ none
  unfolding put_laws
  put_laws-none [] = refl
  put_laws-none (l ∷ ls) = refl

  put_laws-written :
      (ls : List Law) (b b' : B)
      → put_laws bb cs commits ls (some b) ≡ some b'
      → (λ j. get_json bb cs.law b' j) ≡ all_written ls (λ j. get_json bb cs.law b j)
  unfolding put_laws
  put_laws-written [] b b' e = let q : b ≡ b' = cc e in ap (λ x j. get_json bb cs.law x j) (sym q)
  put_laws-written (l ∷ ls) b b' e = elim (Option-cases (put_json bb cs.law b l.id l)) [
    | inl n ↦ cc (sym (put_laws-none ls) ∙ (rw (put_laws, n) at e))
    | inr (b₁, n) ↦
        let step : (λ j. get_json bb cs.law b₁ j) ≡ written l.id l (λ j. get_json bb cs.law b j) =
          fun_ext (λ j. get_json-put_json bb laws cs.law codecs.law b b₁ l.id j l n) in
        put_laws-written ls b₁ b' (rw (put_laws, n) at e) ∙ ap (all_written ls) step
  ]

  laws_written :
      (ls : List Law) (s s' : Db B)
      → upsert_laws bb cs commits ls s ≡ (true, s')
      → view bb cs commits s' ≡ apply (set_laws ls) (view bb cs commits s)
  unfolding view upsert_laws
  laws_written ls s s' e =
      let (b', put, q) =
        with_bucket-some (λ b. record s { laws = b }) _ s' (update-committed commits _ s s' e) in
      rw q (ap (λ f. record (view bb cs commits s) { law = f }) (put_laws-written ls s.laws b' put))

  stand_written :
      (c : StandCitation) (s s' : Db B)
      → upsert_stand bb cs commits c s ≡ (true, s')
      → view bb cs commits s' ≡ apply (set_stand c) (view bb cs commits s)
  unfolding view upsert_stand
  stand_written c s s' e =
      let (b', q, r) =
        one_bucket cs.stand codecs.stand (λ b. record s { stand = b }) s.stand c.law_id c s s' e in
      rw q (ap (λ f. record (view bb cs commits s) { stand = f }) r)

  issue_written :
      (i : GazetteIssue) (s s' : Db B)
      → upsert_issue bb cs commits i s ≡ (true, s')
      → view bb cs commits s' ≡ apply (set_issue i) (view bb cs commits s)
  unfolding view upsert_issue
  issue_written i s s' e =
      let (b', q, r) =
        one_bucket cs.issue codecs.issue (λ b. record s { issues = b }) s.issues i.id i s s' e in
      rw q (ap (λ f. record (view bb cs commits s) { issue = f }) r)

  pub freshness_written :
      (r : FreshnessRecord) (s s' : Db B)
      → put_freshness bb cs commits r s ≡ (true, s')
      → view bb cs commits s' ≡ apply (set_freshness r) (view bb cs commits s)
  unfolding view put_freshness
  freshness_written r s s' e =
      let (b', q, p) =
        one_bucket cs.freshness codecs.freshness (λ b. record s { freshness = b }) s.freshness
          r.law_id r s s' e in
      rw q (ap (λ f. record (view bb cs commits s) { freshness = f }) p)

  done-created :
      (p : Bool × Db B) (s' : Db B)
      → done bb cs commits (created bb cs commits p) ≡ (true, s')
      → p ≡ (true, s')
  done-created (true, s) s' e = e
  done-created (false, s) s' e = cc e

  added_stays :
      {T : Type 0} (key : String) (x : T) (o : Option T) (read : String → Got T)
      → added key x (got_decoded o) read ≡ read
  added_stays key x none read = refl
  added_stays key x (some y) read = refl

  law_added :
      (l : Law) (s s' : Db B)
      → run bb cs commits (add_law l) s ≡ (true, s')
      → view bb cs commits s' ≡ apply (add_law l) (view bb cs commits s)
  unfolding view run upsert_law_if_absent get_law get_json
  law_added l s s' e = elim (Option-cases (bb.get s.laws l.id)) [
    | inl h ↦
        let (b', q, r) =
          one_bucket cs.law codecs.law (λ b. record s { laws = b }) s.laws l.id l s s'
            (done-created _ s' (rw h at e)) in
        rw h (rw q (ap (λ f. record (view bb cs commits s) { law = f }) r))
    | inr (text, h) ↦
        let same : s ≡ s' = ap (λ p. p.1) (rw h at e) in
        rw h (
          rw (← same) (
            ap (λ f. record (view bb cs commits s) { law = f })
              (sym (added_stays l.id l (cs.law.decode text) (view bb cs commits s).law))))
  ]

  pub undone : (o : Option (Db B)) (s s' : Db B) → update commits o s ≡ (false, s') → s' ≡ s
  undone o s s' e = sym (update-undone commits o s s' e)

  done-created-false :
      (p : Bool × Db B) (s' : Db B)
      → done bb cs commits (created bb cs commits p) ≡ (false, s')
      → p ≡ (false, s')
  done-created-false (true, s) s' e = cc e
  done-created-false (false, s) s' e = e

  run-undone : (w : Write) (s s' : Db B) → run bb cs commits w s ≡ (false, s') → s' ≡ s
  unfolding run upsert_law_if_absent upsert_stand upsert_issue put_freshness
  run-undone (add_law l) s s' e = elim (Option-cases (bb.get s.laws l.id)) [
    | inl h ↦ undone _ s s' (done-created-false _ s' (rw h at e))
    | inr (text, h) ↦ cc (rw h at e)
  ]
  run-undone (set_laws ls) s s' e = undone _ s s' e
  run-undone (set_stand c) s s' e = undone _ s s' e
  run-undone (set_issue i) s s' e = undone _ s s' e
  run-undone (set_freshness r) s s' e = undone _ s s' e

  run-done :
      (w : Write) (s s' : Db B)
      → run bb cs commits w s ≡ (true, s')
      → view bb cs commits s' ≡ apply w (view bb cs commits s)
  unfolding run
  run-done (add_law l) s s' e = law_added l s s' e
  run-done (set_laws ls) s s' e = laws_written ls s s' e
  run-done (set_stand c) s s' e = stand_written c s s' e
  run-done (set_issue i) s s' e = issue_written i s s' e
  run-done (set_freshness r) s s' e = freshness_written r s s' e

  run-view :
      (ok : Bool) (w : Write) (ws : List Write) (s s' : Db B)
      → run bb cs commits w s ≡ (ok, s')
      → apply_all (note_done bb cs commits ok w ws) (view bb cs commits s)
        ≡ apply_all ws (view bb cs commits s')
  run-view true w ws s s' e = ap (apply_all ws) (sym (run-done w s s' e))
  run-view false w ws s s' e =
      ap (λ t. apply_all ws (view bb cs commits t)) (sym (run-undone w s s' e))

  -- After any sequence of the writes `UpsertLawIfAbsent`, `UpsertLaws`, `UpsertStand`, `UpsertIssue`
  -- and `PutFreshness`, the readers see what the writes that went through mean for the maps, one
  -- after the other. Under `UpsertLawIfAbsent` a law that is there stays, the others overwrite, and a
  -- write that failed leaves no trace.
  pub run_all-view :
      (ws : List Write) (s : Db B)
      → view bb cs commits (run_all bb cs commits ws s).1
        ≡ apply_all (run_all bb cs commits ws s).0 (view bb cs commits s)
  unfolding run_all
  run_all-view [] s = refl
  run_all-view (w ∷ ws) s =
      let s' = (run bb cs commits w s).1 in
      run_all-view ws s'
      ∙ sym (run-view (run bb cs commits w s).0 w (run_all bb cs commits ws s').0 s s' refl)
