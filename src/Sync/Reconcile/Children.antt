-- ===== src/Sync/Reconcile/Children.antt =====
-- The children that a verdict behind a run rests on.
use gesetzeswache.Prelude.{◌≡◌, ◌<◌, String, true, some, Memᴰ, pos_part}
use gesetzeswache.Time.{max_duration}
use gesetzeswache.Domain.{InstrumentRef, StandCitation, confirmed_current}
use gesetzeswache.Freshness.Evidence.{or_default_age}
use gesetzeswache.Freshness.Eval.{is_open_ref, evaluate}
use gesetzeswache.Freshness.Eval.Verdict.{IsProvenCurrent, evaluate-current_iff}
use gesetzeswache.Instruments.VrefResolve.{is_kind_v}
use gesetzeswache.Instruments.VrefProof.{evaluate_leaf_child_freshness}
use gesetzeswache.Instruments.VrefProof.Backed.{prove_vref-IsBacking}
use gesetzeswache.Service.Freshness.{Setup, reads, links_reader}
use gesetzeswache.Service.Freshness.Safe.{IsAnswered, settled-IsAnswered}
use gesetzeswache.Sync.Reconcile.{
  SyncOps, Heuristics, Pass, law_failed, pass_context, annotated_in, proved_in, reconciled_input,
}

module _ {S : Type 0} (ops : SyncOps S) (setup : Setup) (heuristics : Heuristics) where
  -- The verdict on a child in a run, with the stubs in `s₁`.
  abbrev pub leaf_state : Pass → (s s₁ : S) → (law_id slug : String) → String
  leaf_state p s s₁ law_id slug =
      evaluate_leaf_child_freshness setup.clock (reads ops.store setup s₁)
        (links_reader ops.store setup s₁) slug
        (pass_context ops setup heuristics p (law_failed ops setup heuristics s law_id))

  age :
      (p : Pass) (s s₁ : S) (law_id : String) (stand : StandCitation)
      → pos_part (or_default_age setup.max_age) < max_duration
      → pos_part
          (or_default_age (reconciled_input ops setup heuristics p s s₁ law_id stand).max_age)
        < max_duration
  unfolding reconciled_input
  age p s s₁ law_id stand small = small

  -- A child of the law that answers a citation, confirmed current in the same run.
  abbrev pub IsProvedIn : Pass → (s s₁ : S) → (law_id : String) → InstrumentRef → Type 0
  IsProvedIn p s s₁ law_id ref =
      IsAnswered (some (λ teil year number. ops.store.lookup_bgbl_index s₁ teil year number))
        (λ k. ops.store.get_stand s₁ k) (leaf_state p s s₁ law_id)
        (annotated_in ops setup heuristics p s law_id) ref

  children_backed :
      (p : Pass) (s s₁ : S) (law_id : String) (stand : StandCitation) (ref : InstrumentRef)
      → IsProvenCurrent setup.clock (reconciled_input ops setup heuristics p s s₁ law_id stand)
      → Memᴰ ref (reconciled_input ops setup heuristics p s s₁ law_id stand).instrument_refs
      → is_open_ref (reconciled_input ops setup heuristics p s s₁ law_id stand) ref ≡ true
      → is_kind_v ref ≡ true
      → IsProvedIn p s s₁ law_id ref
  unfolding reconciled_input proved_in reads
  children_backed p s s₁ law_id stand ref proven =
      settled-IsAnswered (reconciled_input ops setup heuristics p s s₁ law_id stand) _ _ _
        (leaf_state p s s₁ law_id) (annotated_in ops setup heuristics p s law_id) ref proven.settled
        (prove_vref-IsBacking setup.clock _ (annotated_in ops setup heuristics p s law_id) stand _ _
          _ _)

  -- If a run judges a law as confirmed current, then each of its open citations of kind V is
  -- answered by a current child of the law's chain that was judged in the same run and found
  -- confirmed current. The child answers a citation of the same kind, section, year and number,
  -- and of the same part where both name one: it is the issue cited, by its notes or its own
  -- Stand, or the index names it for the citation, or a past child is the issue cited and the
  -- child stands in the section cited, or in that of the past child where the citation names
  -- none. The configured age, by default six hours, is below the longest duration.
  pub reconciled-children_confirmed :
      (p : Pass) (s s₁ : S) (law_id : String) (stand : StandCitation) (ref : InstrumentRef)
      → pos_part (or_default_age setup.max_age) < max_duration
      → (evaluate setup.clock (reconciled_input ops setup heuristics p s s₁ law_id stand)).state
        ≡ confirmed_current
      → Memᴰ ref (reconciled_input ops setup heuristics p s s₁ law_id stand).instrument_refs
      → is_open_ref (reconciled_input ops setup heuristics p s s₁ law_id stand) ref ≡ true
      → is_kind_v ref ≡ true
      → IsProvedIn p s s₁ law_id ref
  reconciled-children_confirmed p s s₁ law_id stand ref small current =
      children_backed p s s₁ law_id stand ref (
        (evaluate-current_iff setup.clock
            (reconciled_input ops setup heuristics p s s₁ law_id stand)
            (age p s s₁ law_id stand small)).0
          current)
