-- ===== src/Service/Requests.antt =====
-- internal/service/include.go, export_gate.go and query_limit.go: the flags of a request.
pub mod Joined
use Prim.Native.Char.{Char, code}
use Prim.Native.String
use gesetzeswache.Prelude.{
  ℕ, suc, String, Bool, true, false, ◌||◌, ◌==◌, List, [], ◌∷◌, eqb, ltb, any, if◌then◌else◌,
}
use gesetzeswache.Text.{split_on, to_lower, trim_space, equal_fold}
use gesetzeswache.Service.Freshness.{IncludeOpts}

abbrev pub no_opts : IncludeOpts
no_opts = record { past = false; linked = false; proof = false }

abbrev token : String → String
token part = to_lower (trim_space part)

-- The `switch` of `ParseInclude`
unfoldable pub include_token : IncludeOpts → (token : String) → IncludeOpts
include_token o t =
    if t == "past"
    then record o { past = true }
    else if t == "linked"
    then record o { linked = true }
    else if t == "proof"
    then record o { proof = true }
    else o

unfoldable pub include_parts : IncludeOpts → List String → IncludeOpts
unfolding include_token
include_parts o [] = o
include_parts o (part ∷ parts) = include_parts (include_token o (token part)) parts

unfoldable pub parse_include : String → IncludeOpts
unfolding include_parts split_on
parse_include raw = include_parts no_opts (split_on b',' raw)

abbrev pub either_opts : IncludeOpts → IncludeOpts → IncludeOpts
either_opts o p = record {
  past = o.past || p.past;
  linked = o.linked || p.linked;
  proof = o.proof || p.proof;
}

unfoldable pub merge_from : IncludeOpts → List String → IncludeOpts
unfolding parse_include
merge_from o [] = o
merge_from o (v ∷ values) = merge_from (either_opts o (parse_include v)) values

unfoldable pub merge_include : List String → IncludeOpts
unfolding merge_from
merge_include values = merge_from no_opts values

pub record ExportFreshnessOpts : Type 0 where
  pub allow_stale : Bool
  pub parent_only : Bool

unfoldable pub parse_bool_flag : String → Bool
parse_bool_flag v = trim_space v == "1" || equal_fold (trim_space v) "true"

unfoldable pub parse_export_freshness_opts :
    (allow_stale_vals parent_only_vals : List String) → (profile : String) → ExportFreshnessOpts
unfolding parse_bool_flag
parse_export_freshness_opts allow_stale_vals parent_only_vals profile = record {
  allow_stale = any parse_bool_flag allow_stale_vals || equal_fold (trim_space profile) "ingest";
  parent_only = any parse_bool_flag parent_only_vals;
}

abbrev max_query_runes : ℕ
max_query_runes = 512

abbrev rune_count : String → ℕ
rune_count String.[] = 0
rune_count (String.◌∷◌ c s) = suc (rune_count s)

-- Whether `validateQueryLength` answers an error.
unfoldable pub query_too_long : String → Bool
query_too_long s = ltb max_query_runes (rune_count s)
