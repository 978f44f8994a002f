-- ===== src/Receipt/Verify.antt =====
-- What a verified receipt shows, in receipt.rs.
use text.Mathlib.Text.{◌==◌ as same_text}
use proofframe.Prelude.{
  ℕ, ◌≡◌, refl, sym, ap, ◌∙◌, Bool, true, false, ◌&&◌, List, none, String, arith, length, inr,
}
use proofframe.Error.{Result, ok, err, ◌>>◌, bind-ok, ok-eq}
use proofframe.Evidence.{EvidenceV2, validate}
use proofframe.Evidence.Consistent.{then-ok}
use proofframe.Receipt.{
  SignedReceiptV2, ReceiptVerification, intact, SignedReceipt, Verification, ReceiptJson,
  receipt_v2, receipt_v1, unknown_schema, Codec, or_invalid, digest_unchecked, digest, decode_exact,
  decode_public_key, v2_message, unsigned_v2, sign_v2, is_ok, verification_of, verify_v2,
  verify_json, verify_v1, verify_parsed, verify_json_with_policy, verify_json_with_expected_key,
  policy_of, validate_i_json,
}
use proofframe.Receipt.Trust.{
  TrustPolicy, signature_only, expected_key, accepts, same_bytes, same_bytes_refl, same_bytes-eq,
}

module _ {SigningKey : Type 0} (codec : Codec SigningKey) where
  -- what a V2 verification that ends went through
  record IsVerified (receipt : SignedReceiptV2) (trust : TrustPolicy) (v : ReceiptVerification)
      : Type 0 where
    expected_hash : List ℕ
    public : List ℕ
    signature : List ℕ
    message : List ℕ
    hashed : digest_unchecked codec receipt.unsigned.evidence ≡ ok expected_hash
    keyed : decode_public_key codec receipt.unsigned.public_key ≡ ok public
    signed : decode_exact codec 64 receipt.signature ≡ ok signature
    told : v2_message codec receipt.unsigned ≡ ok message
    outcome :
        v
        ≡ verification_of codec
            (same_text receipt.unsigned.algorithm "Ed25519"
              && is_ok codec (validate receipt.unsigned.evidence))
            (same_bytes expected_hash receipt.unsigned.evidence_hash)
            (codec.verify_strict public message signature)
            (accepts trust public)

  verify_v2-IsVerified :
      (receipt : SignedReceiptV2) (trust : TrustPolicy) (v : ReceiptVerification)
      → verify_v2 codec receipt trust ≡ ok v
      → IsVerified receipt trust v
  unfolding verify_v2
  verify_v2-IsVerified receipt trust v e =
      let (hash, hashed, e1) = bind-ok (digest_unchecked codec receipt.unsigned.evidence) _ v e in
      let (public, keyed, e2) =
        bind-ok (decode_public_key codec receipt.unsigned.public_key) _ v e1 in
      let (signature, signed, e3) = bind-ok (decode_exact codec 64 receipt.signature) _ v e2 in
      let (message, told, e4) = bind-ok (v2_message codec receipt.unsigned) _ v e3 in
      record {
        expected_hash = hash;
        public = public;
        signature = signature;
        message = message;
        hashed = hashed;
        keyed = keyed;
        signed = signed;
        told = told;
        outcome = sym (ok-eq _ v e4);
      }

  verify_v2-valid :
      (receipt : SignedReceiptV2) (trust : TrustPolicy) (v : ReceiptVerification)
      → verify_v2 codec receipt trust ≡ ok v
      → v.valid ≡ (intact v && v.signer_trusted)
  unfolding verification_of intact
  verify_v2-valid receipt trust v e =
      rw (verify_v2-IsVerified receipt trust v e).outcome (ground arith)

  verify_json-valid :
      (receipt : SignedReceipt) (v : Verification)
      → verify_json codec receipt ≡ ok v
      → v.valid ≡ (v.schema_supported && v.report_hash_matches && v.signature_valid)
  unfolding verify_json
  verify_json-valid receipt v e =
      let (report, _, e1) =
        bind-ok
          (validate_i_json receipt.unsigned.report
            >> or_invalid (codec.canonical_json receipt.unsigned.report))
          _ v e in
      let (public, _, e2) = bind-ok (decode_public_key codec receipt.unsigned.public_key) _ v e1 in
      let (signature, _, e3) = bind-ok (decode_exact codec 64 receipt.signature) _ v e2 in
      let (message, _, e4) =
        bind-ok (or_invalid (codec.canonical_unsigned receipt.unsigned)) _ v e3 in
      let same = ok-eq _ v e4 in rw (sym same) refl

  verify_v1-valid :
      (receipt : SignedReceipt) (trust : TrustPolicy) (v : ReceiptVerification)
      → verify_v1 codec receipt trust ≡ ok v
      → v.valid ≡ (intact v && v.signer_trusted)
  unfolding verify_v1 intact
  verify_v1-valid receipt trust v e =
      let (public, _, e1) = bind-ok (decode_public_key codec receipt.unsigned.public_key) _ v e in
      let (verification, checked, e2) = bind-ok (verify_json codec receipt) _ v e1 in
      let same = ok-eq _ v e2 in rw (sym same, verify_json-valid receipt verification checked) refl

  verify_parsed-valid :
      (parsed : ReceiptJson) (trust : TrustPolicy) (v : ReceiptVerification)
      → verify_parsed codec parsed trust ≡ ok v
      → v.valid ≡ (intact v && v.signer_trusted)
  unfolding verify_parsed intact
  verify_parsed-valid (receipt_v2 parsed) trust v e =
      let (receipt, _, e1) = bind-ok parsed _ v e in verify_v2-valid receipt trust v e1
  verify_parsed-valid (receipt_v1 parsed) trust v e =
      let (receipt, _, e1) = bind-ok parsed _ v e in verify_v1-valid receipt trust v e1
  verify_parsed-valid unknown_schema trust v e = rw (sym (ok-eq _ v e)) refl

  -- Whatever the schema of a receipt and whatever the policy, a verification that ends says `valid`
  -- exactly where the receipt is intact and its signer is trusted.
  pub verify_json_with_policy-valid :
      (parsed : Result ReceiptJson) (trust : TrustPolicy) (v : ReceiptVerification)
      → verify_json_with_policy codec parsed trust ≡ ok v
      → v.valid ≡ (intact v && v.signer_trusted)
  unfolding verify_json_with_policy
  verify_json_with_policy-valid parsed trust v e =
      let (receipt, _, e1) = bind-ok parsed _ v e in verify_parsed-valid receipt trust v e1

  untrusted :
      (parsed : ReceiptJson) (v : ReceiptVerification)
      → verify_parsed codec parsed signature_only ≡ ok v
      → v.signer_trusted ≡ false
  unfolding verify_parsed verify_v1 accepts verification_of
  untrusted (receipt_v2 parsed) v e =
      let (receipt, _, e1) = bind-ok parsed _ v e in
      ap (λ v. v.signer_trusted) (verify_v2-IsVerified receipt signature_only v e1).outcome
  untrusted (receipt_v1 parsed) v e =
      let (receipt, _, e1) = bind-ok parsed _ v e in
      let (public, _, e2) = bind-ok (decode_public_key codec receipt.unsigned.public_key) _ v e1 in
      let (verification, _, e3) = bind-ok (verify_json codec receipt) _ v e2 in
      ap (λ v. v.signer_trusted) (sym (ok-eq _ v e3))
  untrusted unknown_schema v e = ap (λ v. v.signer_trusted) (sym (ok-eq _ v e))

  -- Without an expected key no receipt of any schema is ever valid.
  pub verify_json_with_expected_key-none :
      (parsed : Result ReceiptJson) (v : ReceiptVerification)
      → verify_json_with_expected_key codec parsed none ≡ ok v
      → v.valid ≡ false
  unfolding verify_json_with_expected_key policy_of verify_json_with_policy
  verify_json_with_expected_key-none parsed v e =
      let (receipt, _, e1) = bind-ok parsed _ v e in
      let valid = verify_json_with_policy-valid parsed signature_only v e in
      let trusted = untrusted receipt v e1 in ground (arith, valid, trusted)

  all_true :
      (a b h s t : Bool)
      → (verification_of codec (a && b) h s t).valid ≡ true
      → (a ≡ true) × (b ≡ true) × (h ≡ true) × (s ≡ true) × (t ≡ true)
  unfolding verification_of
  all_true a b h s t e = ground arith

  is_ok-ok : (r : Result (Unit {0})) → is_ok codec r ≡ true → r ≡ ok tt
  is_ok-ok (ok tt) e = refl
  is_ok-ok (err x) e = cc

  -- A V2 receipt that is valid holds evidence that validates, under its own hash, and is signed: its
  -- signature verifies over the message of the receipt, by the key that it names, and the policy
  -- accepts this key.
  pub verify_v2_sound :
      (receipt : SignedReceiptV2) (trust : TrustPolicy) (v : ReceiptVerification)
      → verify_v2 codec receipt trust ≡ ok v
      → v.valid ≡ true
      → (validate receipt.unsigned.evidence ≡ ok tt)
        × (digest_unchecked codec receipt.unsigned.evidence ≡ ok receipt.unsigned.evidence_hash)
        × ((public : List ℕ) × (signature : List ℕ) × (message : List ℕ) × (decode_public_key codec
                receipt.unsigned.public_key
              ≡ ok public)
            × (decode_exact codec 64 receipt.signature ≡ ok signature)
            × (v2_message codec receipt.unsigned ≡ ok message)
            × (codec.verify_strict public message signature ≡ true)
            × (accepts trust public ≡ true))
  unfolding verification_of
  verify_v2_sound receipt trust v e valid =
      let c = verify_v2-IsVerified receipt trust v e in
      let claims = all_true _ _ _ _ _ (sym (ap (λ v. v.valid) c.outcome) ∙ valid) in
      let same = same_bytes-eq c.expected_hash receipt.unsigned.evidence_hash claims.2 in
      (
        is_ok-ok (validate receipt.unsigned.evidence) claims.1,
        c.hashed ∙ ap ok same,
        (c.public, c.signature, c.message, c.keyed, c.signed, c.told, claims.3, claims.4),
      )

  decode_exact-encode :
      (n : ℕ) (bytes : List ℕ)
      → codec.decode (codec.encode bytes) ≡ inr bytes
      → length bytes ≡ n
      → decode_exact codec n (codec.encode bytes) ≡ ok bytes
  unfolding decode_exact
  decode_exact-encode n bytes decoded long = rw decoded (ground (arith, long))

  -- A receipt that `sign_v2` made is valid to whoever expects the signer's key, where base64 decodes what
  -- it encoded, the signer's verifying key has 32 bytes and is read back as itself, a signature has 64
  -- bytes, and a signature verifies under the key of its signer.
  pub verify_v2-sign_v2 :
      ((bytes : List ℕ) → codec.decode (codec.encode bytes) ≡ inr bytes)
      → ((key : SigningKey) → length (codec.verifying_key key) ≡ 32)
      → ((key : SigningKey)
          → codec.verifying_key_of (codec.verifying_key key) ≡ inr (codec.verifying_key key))
      → ((key : SigningKey) (message : List ℕ) → length (codec.sign key message) ≡ 64)
      → ((key : SigningKey) (message : List ℕ)
          → codec.verify_strict (codec.verifying_key key) message (codec.sign key message) ≡ true)
      → (engine_version : String) (clock : Result ℕ) (evidence : EvidenceV2) (key : SigningKey)
        (receipt : SignedReceiptV2)
      → sign_v2 codec engine_version clock evidence key ≡ ok receipt
      → verify_v2 codec receipt (expected_key (codec.verifying_key key))
        ≡ ok (verification_of codec true true true true)
  unfolding sign_v2 unsigned_v2 digest verify_v2 decode_public_key accepts
  verify_v2-sign_v2 decoded key_length keyed signature_length signed engine_version clock evidence
        key receipt e =
      let (now, _, e1) = bind-ok clock _ receipt e in
      let (hash, hashed, e2) = bind-ok (digest codec evidence) _ receipt e1 in
      let (message, told, e3) =
        bind-ok (v2_message codec (unsigned_v2 codec engine_version now hash evidence key)) _
          receipt e2 in
      rw (sym (ok-eq _ receipt e3))
        (made now hash message (then-ok (validate evidence) _ hash hashed) told)
    where
      made :
          (now : ℕ) (hash message : List ℕ)
          → (validate evidence ≡ ok tt) × (digest_unchecked codec evidence ≡ ok hash)
          → v2_message codec (unsigned_v2 codec engine_version now hash evidence key) ≡ ok message
          → verify_v2 codec
              (record {
                unsigned = unsigned_v2 codec engine_version now hash evidence key;
                signature = codec.encode (codec.sign key message);
              })
              (expected_key (codec.verifying_key key))
            ≡ ok (verification_of codec true true true true)
      made now hash message (validates, hashes) told =
          let public = codec.verifying_key key in
          let signature = codec.sign key message in
          rw
            (
              hashes,
              decode_exact-encode 32 public (decoded public) (key_length key),
              keyed key,
              decode_exact-encode 64 signature (decoded signature) (signature_length key message),
              told,
              validates,
              same_bytes_refl hash,
              signed key message,
              same_bytes_refl public,
            )
            refl
