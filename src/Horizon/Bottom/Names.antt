-- ===== src/Horizon/Bottom/Names.antt =====
-- crates/interpreter/src/value.rs: the durable names of causes are read as they were written.
use Prim.Native.String.{◌++◌}
use text.Mathlib.Text.{◌==◌ as str_eq}
use text.Mathlib.TextEquality.{eq_iff}
use nlang_tools.Prelude.{◌≡◌, refl, sym, ◌∙◌, ◌⊎◌, inl, inr, Bool-cases, String, List, [], ◌∷◌, All}
use nlang_tools.Horizon.Bottom.{
  BottomCause, conflict, missing_key, fuel_exhausted, timeout, divergent, invalid_path,
  private_access_violation, numerical_error, arithmetic_on_anchor, h1_split, h2_split,
  semantic_eclipse, no_context, out_of_horizon, system_reserved, invalid_config, effect_violation,
  privileged_required, store_boundary, caid_mismatch, peer_timeout, peer_not_implemented,
  peer_unknown_status, peer_refused, routing_budget_exceeded, max_depth_exceeded, stack_overflow,
  object_undecodable, standard_root_unavailable, no_standard_root, unprojected_builtin,
  unprovided_builtin, peer_unreachable, peer_closed, no_universe, unwritable, unrecognized_cause,
  no_matching_branch, pattern_not_kept, as_tag, rows, decode_chain, from_stored_tag,
  strip_stored_cause_tag,
}

-- Every cause is read back from its durable name, bare and behind a `#`.
pub from_stored_tag-as_tag :
    (c : BottomCause) → (from_stored_tag (as_tag c) ≡ c) × (from_stored_tag ("#" ++ as_tag c) ≡ c)
unfolding from_stored_tag as_tag
from_stored_tag-as_tag conflict = (refl, refl)
from_stored_tag-as_tag missing_key = (refl, refl)
from_stored_tag-as_tag fuel_exhausted = (refl, refl)
from_stored_tag-as_tag timeout = (refl, refl)
from_stored_tag-as_tag divergent = (refl, refl)
from_stored_tag-as_tag invalid_path = (refl, refl)
from_stored_tag-as_tag private_access_violation = (refl, refl)
from_stored_tag-as_tag numerical_error = (refl, refl)
from_stored_tag-as_tag arithmetic_on_anchor = (refl, refl)
from_stored_tag-as_tag h1_split = (refl, refl)
from_stored_tag-as_tag h2_split = (refl, refl)
from_stored_tag-as_tag semantic_eclipse = (refl, refl)
from_stored_tag-as_tag no_context = (refl, refl)
from_stored_tag-as_tag out_of_horizon = (refl, refl)
from_stored_tag-as_tag system_reserved = (refl, refl)
from_stored_tag-as_tag invalid_config = (refl, refl)
from_stored_tag-as_tag effect_violation = (refl, refl)
from_stored_tag-as_tag privileged_required = (refl, refl)
from_stored_tag-as_tag store_boundary = (refl, refl)
from_stored_tag-as_tag caid_mismatch = (refl, refl)
from_stored_tag-as_tag peer_timeout = (refl, refl)
from_stored_tag-as_tag peer_not_implemented = (refl, refl)
from_stored_tag-as_tag peer_unknown_status = (refl, refl)
from_stored_tag-as_tag peer_refused = (refl, refl)
from_stored_tag-as_tag routing_budget_exceeded = (refl, refl)
from_stored_tag-as_tag max_depth_exceeded = (refl, refl)
from_stored_tag-as_tag stack_overflow = (refl, refl)
from_stored_tag-as_tag object_undecodable = (refl, refl)
from_stored_tag-as_tag standard_root_unavailable = (refl, refl)
from_stored_tag-as_tag no_standard_root = (refl, refl)
from_stored_tag-as_tag unprojected_builtin = (refl, refl)
from_stored_tag-as_tag unprovided_builtin = (refl, refl)
from_stored_tag-as_tag peer_unreachable = (refl, refl)
from_stored_tag-as_tag peer_closed = (refl, refl)
from_stored_tag-as_tag no_universe = (refl, refl)
from_stored_tag-as_tag unwritable = (refl, refl)
from_stored_tag-as_tag unrecognized_cause = (refl, refl)
from_stored_tag-as_tag no_matching_branch = (refl, refl)
from_stored_tag-as_tag pattern_not_kept = (refl, refl)

-- a row that reads its tag as a cause of that name
abbrev IsRow : String × BottomCause → Type 0
IsRow row = as_tag row.1 ≡ row.0

decode_chain-Sound :
    (bare : String) (chain : List (String × BottomCause))
    → All IsRow chain
    → (as_tag (decode_chain bare chain) ≡ bare) ⊎ (decode_chain bare chain ≡ unrecognized_cause)
unfolding decode_chain
decode_chain-Sound bare [] h = inr refl
decode_chain-Sound bare (row ∷ later) h = elim (Bool-cases (str_eq bare row.0)) [
  | inl same ↦ inl (rw same (h.0 ∙ sym ((eq_iff bare row.0).0 same)))
  | inr other ↦ rw other (decode_chain-Sound bare later h.1)
]

rows-IsRow : All IsRow rows
unfolding as_tag
rows-IsRow = (
  refl,
  (
    refl,
    (
      refl,
      (
        refl,
        (
          refl,
          (
            refl,
            (
              refl,
              (
                refl,
                (
                  refl,
                  (
                    refl,
                    (
                      refl,
                      (
                        refl,
                        (
                          refl,
                          (
                            refl,
                            (
                              refl,
                              (
                                refl,
                                (
                                  refl,
                                  (
                                    refl,
                                    (
                                      refl,
                                      (
                                        refl,
                                        (
                                          refl,
                                          (
                                            refl,
                                            (
                                              refl,
                                              (
                                                refl,
                                                (
                                                  refl,
                                                  (
                                                    refl,
                                                    (
                                                      refl,
                                                      (
                                                        refl,
                                                        (
                                                          refl,
                                                          (
                                                            refl,
                                                            (
                                                            refl,
                                                            (
                                                            refl,
                                                            (
                                                            refl,
                                                            (
                                                            refl,
                                                            (
                                                            refl,
                                                            (refl, (refl, (refl, (refl, tt)))),
                                                            ),
                                                            ),
                                                            ),
                                                            ),
                                                            ),
                                                          ),
                                                        ),
                                                      ),
                                                    ),
                                                  ),
                                                ),
                                              ),
                                            ),
                                          ),
                                        ),
                                      ),
                                    ),
                                  ),
                                ),
                              ),
                            ),
                          ),
                        ),
                      ),
                    ),
                  ),
                ),
              ),
            ),
          ),
        ),
      ),
    ),
  ),
)

-- A stored tag is read as the cause whose durable name it is, behind any `#`, and a tag that is
-- no cause's name as the unrecognized cause.
pub from_stored_tag-Sound :
    (tag : String)
    → (as_tag (from_stored_tag tag) ≡ strip_stored_cause_tag tag)
      ⊎ (from_stored_tag tag ≡ unrecognized_cause)
unfolding from_stored_tag
from_stored_tag-Sound tag = decode_chain-Sound (strip_stored_cause_tag tag) rows rows-IsRow
