-- ===== src/Authority/Verdict.antt =====
-- crates/interpreter/src/authority.rs: when a refinement is accepted, and as what.
use nlang_tools.Prelude.{
  ℕ, String, Bool, true, false, ◌&&◌, ◌||◌, List, [], ◌∷◌, Option, none, some, ◌≡◌, arith,
}
use nlang_tools.Authority.{
  AuthorityInfo, AuthVerifyResult, valid, exempt, Outcome, ok, err, is_member, is_empty,
  check_bytes, check_commit_signature, verify_decoded, verify_refine_authority,
}

abbrev pub is_valid : AuthVerifyResult → Bool
is_valid valid = true
is_valid _ = false

abbrev pub is_exempt : AuthVerifyResult → Bool
is_exempt exempt = true
is_exempt _ = false

abbrev pub is_ok : Outcome (Unit {0}) → Bool
is_ok (ok u) = true
is_ok (err e) = false

module _ (decode : String → Outcome (List ℕ)) (verify : List ℕ → List ℕ → List ℕ → Bool) where
  decoded_valid :
      (auth : AuthorityInfo) (payload : List ℕ) (registry : List String) (b : Bool)
      (pk sig : Outcome (List ℕ))
      → is_valid (verify_decoded decode verify auth payload registry b pk sig) ≡ (
          is_member auth.signer_pubkey_hex registry
          && is_ok (check_bytes decode verify payload pk sig))
  decoded_valid auth payload registry b (err e) sig = ground arith
  decoded_valid auth payload registry b (ok pk) (err e) = ground arith
  decoded_valid auth payload [] b (ok pk) (ok sig) = ground arith
  decoded_valid auth payload (x ∷ registry) b (ok pk) (ok sig) = ground arith

  decoded_exempt :
      (auth : AuthorityInfo) (payload : List ℕ) (registry : List String) (b : Bool)
      (pk sig : Outcome (List ℕ))
      → is_exempt (verify_decoded decode verify auth payload registry b pk sig)
        ≡ (b && (is_empty registry && is_ok (check_bytes decode verify payload pk sig)))
  decoded_exempt auth payload registry b (err e) sig = ground arith
  decoded_exempt auth payload registry b (ok pk) (err e) = ground arith
  decoded_exempt auth payload [] b (ok pk) (ok sig) = ground arith
  decoded_exempt auth payload (x ∷ registry) b (ok pk) (ok sig) = ground arith

  abbrev pub holds_signature : Option AuthorityInfo → List ℕ → Bool
  holds_signature none payload = false
  holds_signature (some auth) payload = is_ok (check_commit_signature decode verify auth payload)

  abbrev pub is_listed : Option AuthorityInfo → List String → Bool
  is_listed none registry = false
  is_listed (some auth) registry = is_member auth.signer_pubkey_hex registry

  abbrev pub is_unsigned : Option AuthorityInfo → Bool
  is_unsigned none = true
  is_unsigned (some auth) = false

  -- A refinement is valid exactly if its signer is in the registry and its signature holds. It is
  -- exempt exactly in the bootstrap and if it has no signature, or if the registry is empty and its
  -- signature holds.
  pub verify_refine_authority_lem :
      (authority : Option AuthorityInfo) (payload : List ℕ) (registry : List String) (b : Bool)
      → (is_valid (verify_refine_authority decode verify authority payload registry b)
          ≡ (is_listed authority registry && holds_signature authority payload))
        × (is_exempt (verify_refine_authority decode verify authority payload registry b) ≡ (
            b
            && (is_unsigned authority || (is_empty registry && holds_signature authority payload))))
  unfolding verify_refine_authority check_commit_signature
  verify_refine_authority_lem none payload registry b = (ground arith, ground arith)
  verify_refine_authority_lem (some auth) payload registry b =
      (decoded_valid auth payload registry b _ _, decoded_exempt auth payload registry b _ _)
