-- ===== src/Authority/Tests.antt =====
-- crates/interpreter/src/authority.rs: a signer that is in the registry.
use nlang_tools.Prelude.{
  ℕ, String, Bool, true, ◌&&◌, ◌||◌, ◌==◌, List, [], ◌∷◌, Option, some, length, ◌≡◌,
}
use nlang_tools.Authority.{AuthorityInfo, Outcome, ok, is_empty, verify_refine_authority}
use nlang_tools.Authority.Verdict.{
  is_valid, is_exempt, is_listed, is_unsigned, holds_signature, verify_refine_authority_lem,
}

abbrev read_any : String → Outcome (List ℕ)
read_any t = ok (1 ∷ 2 ∷ [])

abbrev same_length : List ℕ → List ℕ → List ℕ → Bool
same_length pk payload sig = length payload == length sig

abbrev signed : Option AuthorityInfo
signed = some (record { signer_pubkey_hex = "ab"; signature_hex = "0102" })

verify_refine_authority_lem_example :
    (is_valid (verify_refine_authority read_any same_length signed (7 ∷ 8 ∷ []) ("ab" ∷ []) true)
      ≡ (is_listed read_any same_length signed ("ab" ∷ [])
          && holds_signature read_any same_length signed (7 ∷ 8 ∷ [])))
    × (is_exempt (verify_refine_authority read_any same_length signed (7 ∷ 8 ∷ []) ("ab" ∷ []) true)
        ≡ (true
            && (is_unsigned read_any same_length signed
                || (is_empty ("ab" ∷ [])
                    && holds_signature read_any same_length signed (7 ∷ 8 ∷ [])))))
verify_refine_authority_lem_example =
    verify_refine_authority_lem read_any same_length signed (7 ∷ 8 ∷ []) ("ab" ∷ []) true
