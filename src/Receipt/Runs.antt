-- ===== src/Receipt/Runs.antt =====
-- Receipts under a codec in which one key signs everything alike, and what the theorems say there.
use proofframe.Prelude.{ℕ, zero, suc, List, [], ◌∷◌, ◌≡◌, refl, ap, true, false, ◌&&◌, none, inr}
use proofframe.Error.{ok}
use proofframe.Evidence.{validate}
use proofframe.Evidence.Runs.{sample}
use proofframe.Receipt.{
  SignedReceiptV2, ReceiptVerification, intact, receipt_v2, Codec, digest_unchecked, decode_exact,
  decode_public_key, v2_message, sign_v2, verification_of, verify_v2, verify_json_with_policy,
  verify_json_with_expected_key,
}
use proofframe.Receipt.Strokes.{encode, decode_from, decode-encode}
use proofframe.Receipt.Trust.{same_bytes_refl, accepts, expected_key, same_bytes}
use proofframe.Receipt.Verify.{
  verify_v2_sound, verify_json_with_policy-valid, verify_json_with_expected_key-none,
  verify_v2-sign_v2,
}

abbrev zeros : ℕ → List ℕ
zeros zero = []
zeros (suc n) = 0 ∷ zeros n

abbrev key : List ℕ
key = zeros 32

abbrev signature : List ℕ
signature = zeros 64

abbrev codec : Codec (Unit {0})
codec = record {
  canonical_evidence = λ e. inr (1 ∷ []);
  canonical_unsigned_v2 = λ u. inr (2 ∷ []);
  canonical_json = λ j. inr (3 ∷ []);
  canonical_unsigned = λ u. inr (4 ∷ []);
  encode = encode;
  decode = λ s. inr (decode_from 0 s);
  hash = λ bytes. 7 ∷ [];
  to_hex = λ bytes. "07";
  verifying_key_of = inr;
  verifying_key = λ k. key;
  sign = λ k message. signature;
  verify_strict = λ k message s. same_bytes s signature;
}

abbrev receipt : SignedReceiptV2
receipt = record {
  unsigned = record {
    algorithm = "Ed25519";
    engine_version = "0.12.0";
    issued_at_unix_ms = 5;
    evidence_hash = 7 ∷ [];
    evidence = sample;
    public_key = encode key;
  };
  signature = encode signature;
}

abbrev verified : ReceiptVerification
verified = record {
  valid = true;
  signature_valid = true;
  report_hash_matches = true;
  schema_supported = true;
  signer_trusted = true;
  legacy = false;
}

signed : sign_v2 codec "0.12.0" (ok 5) sample tt ≡ ok receipt
unfolding sign_v2
signed = refl

verify_v2-sign_v2_example :
    verify_v2 codec receipt (expected_key key) ≡ ok (verification_of codec true true true true)
verify_v2-sign_v2_example =
    verify_v2-sign_v2 codec (λ bytes. ap inr (decode-encode bytes)) (λ k. refl) (λ k. refl)
      (λ k m. refl) (λ k m. same_bytes_refl signature) "0.12.0" (ok 5) sample tt receipt signed

verifies : verify_v2 codec receipt (expected_key key) ≡ ok verified
unfolding verify_v2 encode decode_from
verifies = refl

verify_v2_sound_example :
    (validate sample ≡ ok tt)
    × (digest_unchecked codec sample ≡ ok (7 ∷ []))
    × ((public : List ℕ) × (signature : List ℕ) × (message : List ℕ) × (decode_public_key codec
            (encode key)
          ≡ ok public)
        × (decode_exact codec 64 receipt.signature ≡ ok signature)
        × (v2_message codec receipt.unsigned ≡ ok message)
        × (codec.verify_strict public message signature ≡ true)
        × (accepts (expected_key key) public ≡ true))
verify_v2_sound_example = verify_v2_sound codec receipt (expected_key key) verified verifies refl

policy_verifies :
    verify_json_with_policy codec (ok (receipt_v2 (ok receipt))) (expected_key key) ≡ ok verified
unfolding verify_json_with_policy encode decode_from
policy_verifies = refl

verify_json_with_policy-valid_example : true ≡ (intact verified && true)
verify_json_with_policy-valid_example =
    verify_json_with_policy-valid codec (ok (receipt_v2 (ok receipt))) (expected_key key) verified
      policy_verifies

abbrev unknown_signer : ReceiptVerification
unknown_signer = record verified { valid = false; signer_trusted = false }

keyless :
    verify_json_with_expected_key codec (ok (receipt_v2 (ok receipt))) none ≡ ok unknown_signer
unfolding verify_json_with_expected_key encode decode_from
keyless = refl

verify_json_with_expected_key-none_example : unknown_signer.valid ≡ false
verify_json_with_expected_key-none_example =
    verify_json_with_expected_key-none codec (ok (receipt_v2 (ok receipt))) unknown_signer keyless
