-- ===== src/Horizon/Bottom.antt =====
-- crates/interpreter/src/value.rs: `BottomCause`, its durable names and its ranks.
pub mod Names
use Prim.Native.String.{len, slice}
use text.Mathlib.Text.{◌==◌ as str_eq}
use nlang_tools.Prelude.{ℕ, zero, suc, ◌+◌, ltb, ◌&&◌, String, if◌then◌else◌, List, [], ◌∷◌}

pub data BottomCause : Type 0 where
  conflict : BottomCause
  missing_key : BottomCause
  fuel_exhausted : BottomCause
  timeout : BottomCause
  divergent : BottomCause
  invalid_path : BottomCause
  private_access_violation : BottomCause
  numerical_error : BottomCause
  arithmetic_on_anchor : BottomCause
  h1_split : BottomCause
  h2_split : BottomCause
  semantic_eclipse : BottomCause
  no_context : BottomCause
  out_of_horizon : BottomCause
  system_reserved : BottomCause
  invalid_config : BottomCause
  effect_violation : BottomCause
  privileged_required : BottomCause
  store_boundary : BottomCause
  caid_mismatch : BottomCause
  peer_timeout : BottomCause
  peer_not_implemented : BottomCause
  peer_unknown_status : BottomCause
  peer_refused : BottomCause
  routing_budget_exceeded : BottomCause
  max_depth_exceeded : BottomCause
  stack_overflow : BottomCause
  object_undecodable : BottomCause
  standard_root_unavailable : BottomCause
  no_standard_root : BottomCause
  unprojected_builtin : BottomCause
  unprovided_builtin : BottomCause
  peer_unreachable : BottomCause
  peer_closed : BottomCause
  no_universe : BottomCause
  unwritable : BottomCause
  unrecognized_cause : BottomCause
  no_matching_branch : BottomCause
  pattern_not_kept : BottomCause

unfoldable pub as_tag : BottomCause → String
as_tag conflict = "conflict"
as_tag missing_key = "missing_key"
as_tag fuel_exhausted = "fuel_exhausted"
as_tag timeout = "timeout"
as_tag peer_unreachable = "peer_unreachable"
as_tag peer_closed = "peer_closed"
as_tag peer_timeout = "peer_timeout"
as_tag divergent = "divergent"
as_tag invalid_path = "invalid_path"
as_tag private_access_violation = "private_access_violation"
as_tag numerical_error = "numerical_error"
as_tag arithmetic_on_anchor = "arithmetic_on_anchor"
as_tag h1_split = "h1_split"
as_tag h2_split = "h2_split"
as_tag semantic_eclipse = "semantic_eclipse"
as_tag no_context = "no_context"
as_tag out_of_horizon = "out_of_horizon"
as_tag system_reserved = "system_reserved"
as_tag invalid_config = "invalid_config"
as_tag effect_violation = "effect_violation"
as_tag privileged_required = "privileged_required"
as_tag store_boundary = "store_boundary"
as_tag caid_mismatch = "caid_mismatch"
as_tag peer_not_implemented = "peer_not_implemented"
as_tag peer_unknown_status = "peer_unknown_status"
as_tag peer_refused = "peer_refused"
as_tag routing_budget_exceeded = "routing_budget_exceeded"
as_tag max_depth_exceeded = "max_depth_exceeded"
as_tag stack_overflow = "stack_overflow"
as_tag object_undecodable = "object_undecodable"
as_tag standard_root_unavailable = "standard_root_unavailable"
as_tag no_standard_root = "no_standard_root"
as_tag unprojected_builtin = "unprojected_builtin"
as_tag unprovided_builtin = "unprovided_builtin"
as_tag no_universe = "no_universe"
as_tag unwritable = "unwritable"
as_tag unrecognized_cause = "unrecognized_cause"
as_tag no_matching_branch = "no_matching_branch"
as_tag pattern_not_kept = "pattern_not_kept"

-- the rows of `cause_tags!`
abbrev pub rows : List (String × BottomCause)
rows =
    ("conflict", conflict)
    ∷ ("missing_key", missing_key)
    ∷ ("fuel_exhausted", fuel_exhausted)
    ∷ ("timeout", timeout)
    ∷ ("peer_unreachable", peer_unreachable)
    ∷ ("peer_closed", peer_closed)
    ∷ ("peer_timeout", peer_timeout)
    ∷ ("divergent", divergent)
    ∷ ("invalid_path", invalid_path)
    ∷ ("private_access_violation", private_access_violation)
    ∷ ("numerical_error", numerical_error)
    ∷ ("arithmetic_on_anchor", arithmetic_on_anchor)
    ∷ ("h1_split", h1_split)
    ∷ ("h2_split", h2_split)
    ∷ ("semantic_eclipse", semantic_eclipse)
    ∷ ("no_context", no_context)
    ∷ ("out_of_horizon", out_of_horizon)
    ∷ ("system_reserved", system_reserved)
    ∷ ("invalid_config", invalid_config)
    ∷ ("effect_violation", effect_violation)
    ∷ ("privileged_required", privileged_required)
    ∷ ("store_boundary", store_boundary)
    ∷ ("caid_mismatch", caid_mismatch)
    ∷ ("peer_not_implemented", peer_not_implemented)
    ∷ ("peer_unknown_status", peer_unknown_status)
    ∷ ("peer_refused", peer_refused)
    ∷ ("routing_budget_exceeded", routing_budget_exceeded)
    ∷ ("max_depth_exceeded", max_depth_exceeded)
    ∷ ("stack_overflow", stack_overflow)
    ∷ ("object_undecodable", object_undecodable)
    ∷ ("standard_root_unavailable", standard_root_unavailable)
    ∷ ("no_standard_root", no_standard_root)
    ∷ ("unprojected_builtin", unprojected_builtin)
    ∷ ("unprovided_builtin", unprovided_builtin)
    ∷ ("no_universe", no_universe)
    ∷ ("unwritable", unwritable)
    ∷ ("unrecognized_cause", unrecognized_cause)
    ∷ ("no_matching_branch", no_matching_branch)
    ∷ ("pattern_not_kept", pattern_not_kept)
    ∷ []

-- The loop over the leading `#`: the index of the first other byte from `i` on. The fuel is the
-- number of bytes.
unfoldable pub hashes_from : ℕ → String → ℕ → ℕ
hashes_from zero tag i = i
hashes_from (suc fuel) tag i =
    let rest = hashes_from fuel tag (i + 1) in
    if ltb i (len tag) && str_eq (slice tag i (i + 1)) "#" then rest else i

unfoldable pub strip_stored_cause_tag : String → String
unfolding hashes_from
strip_stored_cause_tag tag = let i = hashes_from (len tag) tag 0 in slice tag i (len tag)

-- the chain of tests that the rows expand to
unfoldable pub decode_chain : String → List (String × BottomCause) → BottomCause
decode_chain bare [] = unrecognized_cause
decode_chain bare (row ∷ later) = if str_eq bare row.0 then row.1 else decode_chain bare later

unfoldable pub from_stored_tag : String → BottomCause
unfolding decode_chain strip_stored_cause_tag
from_stored_tag tag = decode_chain (strip_stored_cause_tag tag) rows

unfoldable pub primary_rank : BottomCause → ℕ
primary_rank conflict = 2
primary_rank missing_key = 4
primary_rank fuel_exhausted = 3
primary_rank timeout = 3
primary_rank divergent = 0
primary_rank invalid_path = 4
primary_rank private_access_violation = 1
primary_rank numerical_error = 2
primary_rank arithmetic_on_anchor = 2
primary_rank h1_split = 2
primary_rank h2_split = 2
primary_rank semantic_eclipse = 2
primary_rank no_context = 2
primary_rank out_of_horizon = 3
primary_rank system_reserved = 1
primary_rank invalid_config = 1
primary_rank effect_violation = 1
primary_rank privileged_required = 1
primary_rank store_boundary = 1
primary_rank caid_mismatch = 1
primary_rank peer_timeout = 3
primary_rank peer_not_implemented = 3
primary_rank peer_unknown_status = 3
primary_rank peer_refused = 3
primary_rank routing_budget_exceeded = 3
primary_rank max_depth_exceeded = 3
primary_rank stack_overflow = 3
primary_rank object_undecodable = 1
primary_rank standard_root_unavailable = 1
primary_rank no_standard_root = 1
primary_rank unprojected_builtin = 1
primary_rank unprovided_builtin = 1
primary_rank peer_unreachable = 3
primary_rank peer_closed = 3
primary_rank no_universe = 2
primary_rank unwritable = 1
primary_rank unrecognized_cause = 1
primary_rank no_matching_branch = 2
primary_rank pattern_not_kept = 1
