-- ===== src/Authority.antt =====
-- crates/interpreter/src/authority.rs: who may refine. A `Result` with the texts of errors is an
-- `Outcome`, a text in hexadecimal is read by `decode`, and `verify` asks whether a public key
-- signed a payload.
pub mod Verdict
mod Tests
use text.Mathlib.Text.{◌==◌ as str_eq}
use nlang_tools.Prelude.{
  ℕ, String, Bool, true, false, not, ◌&&◌, ◌||◌, if◌then◌else◌, List, [], ◌∷◌, Option, none, some,
  format,
}

pub record AuthorityInfo : Type 0 where
  pub signer_pubkey_hex : String
  pub signature_hex : String

pub data AuthVerifyResult : Type 0 where
  valid exempt : AuthVerifyResult
  invalid : String → AuthVerifyResult

pub data Outcome {ℓ} (A : Type ℓ) : Type ℓ where
  ok : A → Outcome A
  err : String → Outcome A

abbrev pub is_member : String → List String → Bool
is_member k [] = false
is_member k (x ∷ xs) = str_eq x k || is_member k xs

abbrev pub is_empty : List String → Bool
is_empty [] = true
is_empty (x ∷ xs) = false

module _ (decode : String → Outcome (List ℕ)) (verify : List ℕ → List ℕ → List ℕ → Bool) where
  abbrev check_bytes : List ℕ → Outcome (List ℕ) → Outcome (List ℕ) → Outcome (Unit {0})
  check_bytes payload (err e) sig = err (format ("bad pubkey hex: " ∷ e ∷ []))
  check_bytes payload (ok pk) (err e) = err (format ("bad signature hex: " ∷ e ∷ []))
  check_bytes payload (ok pk) (ok sig) =
      if verify pk payload sig then ok tt else err "Ed25519 signature verification failed"

  unfoldable pub check_commit_signature : AuthorityInfo → List ℕ → Outcome (Unit {0})
  check_commit_signature auth payload =
      check_bytes payload (decode auth.signer_pubkey_hex) (decode auth.signature_hex)

  -- the answer without a signature
  abbrev missing_authority : Bool → AuthVerifyResult
  missing_authority bootstrap_exempt =
      if bootstrap_exempt then exempt else invalid "missing %authority on non-bootstrap refine"

  abbrev verify_signature : Bool → List ℕ → List ℕ → List ℕ → AuthVerifyResult
  verify_signature skip_membership pk payload sig =
      if verify pk payload sig
      then (if skip_membership then exempt else valid)
      else invalid "Ed25519 signature verification failed"

  abbrev verify_member :
      AuthorityInfo → List ℕ → List String → Bool → List ℕ → List ℕ → AuthVerifyResult
  verify_member auth payload registry bootstrap_exempt pk sig =
      let skip_membership = bootstrap_exempt && is_empty registry in
      if not skip_membership && not (is_member auth.signer_pubkey_hex registry)
      then invalid (format ("signer " ∷ auth.signer_pubkey_hex ∷ " not in architect_registry" ∷ []))
      else verify_signature skip_membership pk payload sig

  abbrev verify_decoded :
      AuthorityInfo
      → List ℕ
      → List String
      → Bool
      → Outcome (List ℕ)
      → Outcome (List ℕ)
      → AuthVerifyResult
  verify_decoded auth payload registry bootstrap_exempt (err e) sig =
      invalid (format ("bad pubkey hex: " ∷ e ∷ []))
  verify_decoded auth payload registry bootstrap_exempt (ok pk) (err e) =
      invalid (format ("bad signature hex: " ∷ e ∷ []))
  verify_decoded auth payload registry bootstrap_exempt (ok pk) (ok sig) =
      verify_member auth payload registry bootstrap_exempt pk sig

  unfoldable pub verify_refine_authority :
      Option AuthorityInfo → List ℕ → List String → Bool → AuthVerifyResult
  verify_refine_authority none payload registry bootstrap_exempt =
      missing_authority bootstrap_exempt
  verify_refine_authority (some auth) payload registry bootstrap_exempt =
      verify_decoded auth payload registry bootstrap_exempt (decode auth.signer_pubkey_hex)
        (decode auth.signature_hex)
