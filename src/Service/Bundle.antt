-- ===== src/Service/Bundle.antt =====
-- internal/service/bundle.go: the freshness of a parent with its operative ordinances.
pub mod Members
pub mod Aggregate
use gesetzeswache.Prelude.{
  ℕ, String, Bool, true, false, not, ◌&&◌, ◌||◌, ◌==◌, Option, none, some, List, [], ◌∷◌, ◌++◌,
  if◌then◌else◌, leb_ℤ, ℤ, pos,
}
use gesetzeswache.Domain.{Law, LinkedInstrument, confirmed_current, confirmed_stale, uncertain}
use gesetzeswache.Service.Freshness.{FreshnessMeta}

-- `BundleMemberExport` and `OperativeMemberExport`, less their texts.
pub record BundleMemberExport : Type 0 where
  pub law : Option Law
  pub freshness : Option FreshnessMeta

pub record OperativeMemberExport : Type 0 where
  pub link : LinkedInstrument
  pub law : Option Law
  pub freshness : Option FreshnessMeta

pub record BundleMemberFreshness : Type 0 where
  pub role : String
  pub law_id : String
  pub state : String
  pub section_hint : String

pub record BundleFreshnessMeta : Type 0 where
  pub state : String
  pub safe_to_serve : Bool
  pub rationale : String
  pub members : List BundleMemberFreshness

-- The variables of the closure `add`.
pub record Tally : Type 0 where
  pub members : List BundleMemberFreshness
  pub worst : String
  pub parent_uncertain : Bool
  pub any_stale : Bool
  pub any_uncertain : Bool

abbrev pub no_members : Tally
no_members = record {
  members = [];
  worst = confirmed_current;
  parent_uncertain = false;
  any_stale = false;
  any_uncertain = false;
}

unfoldable pub add : Tally → BundleMemberFreshness → Tally
add t m =
    let listed : Tally = record t { members = t.members ++ m ∷ [] } in
    if m.state == confirmed_stale
    then record listed { any_stale = true; worst = confirmed_stale }
    else if m.state == uncertain
    then record listed {
      any_uncertain = true;
      parent_uncertain = m.role == "parent" || t.parent_uncertain;
      worst = if t.worst == confirmed_stale then t.worst else uncertain;
    }
    else listed

abbrev pub state_or_uncertain : Option FreshnessMeta → String
state_or_uncertain none = uncertain
state_or_uncertain (some meta) = meta.state

abbrev pub id_or_empty : Option Law → String
id_or_empty none = ""
id_or_empty (some law) = law.id

unfoldable pub parent_member : BundleMemberExport → BundleMemberFreshness
parent_member parent = record {
  role = "parent";
  law_id = id_or_empty parent.law;
  state = state_or_uncertain parent.freshness;
  section_hint = "";
}

unfoldable pub operative_member : OperativeMemberExport → BundleMemberFreshness
operative_member op = record {
  role = "operative";
  law_id = if op.link.law_id == "" then id_or_empty op.law else op.link.law_id;
  state = state_or_uncertain op.freshness;
  section_hint = op.link.section_hint;
}

unfoldable pub add_operative : Tally → List OperativeMemberExport → Tally
unfolding add operative_member
add_operative t [] = t
add_operative t (op ∷ ops) = add_operative (add t (operative_member op)) ops

abbrev add_parent : Tally → Option BundleMemberExport → Tally
add_parent t none = t
add_parent t (some parent) = add t (parent_member parent)

unfoldable pub rationale_of : Tally → String
rationale_of t =
    if t.any_stale
    then "member_confirmed_stale"
    else if t.parent_uncertain
    then "parent_uncertain"
    else if t.any_uncertain
    then "member_uncertain"
    else ""

unfoldable pub aggregate_bundle_freshness :
    Option BundleMemberExport → List OperativeMemberExport → BundleFreshnessMeta
unfolding add_operative add parent_member rationale_of
aggregate_bundle_freshness parent ops =
    let t = add_operative (add_parent no_members parent) ops in
    record {
      state = t.worst;
      safe_to_serve = t.worst == confirmed_current;
      rationale = rationale_of t;
      members = t.members;
    }

abbrev default_max_members : ℤ
default_max_members = pos 8

-- `maxOperativeBundleMembers`, from the configured number
unfoldable pub max_operative_bundle_members : ℤ → ℤ
max_operative_bundle_members n = if leb_ℤ n (pos 0) then default_max_members else n
