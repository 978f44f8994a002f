-- ===== src/Receipt.antt =====
-- Signed receipts, in receipt.rs: the strict V2 envelope and the isolated V1 schema.
pub mod Trust
pub mod Verify
mod Runs
mod Strokes
use text.Mathlib.Text.{◌==◌ as same_text}
use proofframe.Prelude.{
  ℕ, List, [], ◌∷◌, ◌++◌, Bool, true, false, ◌&&◌, Option, none, some, String, ◌⊎◌, inl, inr,
  length, ◌==◌, if◌then◌else◌, leb,
}
use proofframe.Error.{ProofFrameError, invalid_receipt, Result, ok, err, ◌>>=◌, ◌>>◌}
use proofframe.Evidence.{EvidenceV2, validate}
use Trust.{TrustPolicy, signature_only, expected_key, accepts, same_bytes}

-- `schema` has one value.
pub record UnsignedReceiptV2 : Type 0 where
  pub algorithm : String
  pub engine_version : String
  pub issued_at_unix_ms : ℕ
  pub evidence_hash : List ℕ
  pub evidence : EvidenceV2
  pub public_key : String

pub record SignedReceiptV2 : Type 0 where
  pub unsigned : UnsignedReceiptV2
  pub signature : String

pub record ReceiptVerification : Type 0 where
  pub valid : Bool
  pub signature_valid : Bool
  pub report_hash_matches : Bool
  pub schema_supported : Bool
  pub signer_trusted : Bool
  pub legacy : Bool

unfoldable pub intact : ReceiptVerification → Bool
intact v = v.schema_supported && v.report_hash_matches && v.signature_valid

-- a numeral of JSON, as `as_i64` and `as_u64` read it; `fractional` is neither
pub data JsonNumber : Type 0 where
  -- `as_i64`: negative, and the absolute value
  signed : Bool → ℕ → JsonNumber
  unsigned : ℕ → JsonNumber
  fractional : JsonNumber

mutual
  pub data Json : Type 0 where
    null : Json
    boolean : Bool → Json
    number : JsonNumber → Json
    string : String → Json
    array : JsonList → Json
    object : JsonList → Json

  -- the items of an array, or the values of an object in its order
  pub data JsonList : Type 0 where
    empty : JsonList
    item : Json → JsonList → JsonList

pub record UnsignedReceipt : Type 0 where
  pub schema : String
  pub algorithm : String
  pub engine_version : String
  pub issued_at_unix_ms : ℕ
  pub report_hash : String
  pub report : Json
  pub public_key : String

pub record SignedReceipt : Type 0 where
  pub unsigned : UnsignedReceipt
  pub signature : String

pub record Verification : Type 0 where
  pub valid : Bool
  pub signature_valid : Bool
  pub report_hash_matches : Bool
  pub schema_supported : Bool

abbrev pub invalid : {A : Type 0} → String → Result A
invalid message = err (invalid_receipt message)

abbrev pub max_safe_integer : ℕ
max_safe_integer = 9007199254740991

abbrev pub is_safe : JsonNumber → Bool
is_safe (signed _ n) = leb n max_safe_integer
is_safe (unsigned n) = leb n max_safe_integer
is_safe fractional = true

unfoldable mutual
  pub validate_i_json : Json → Result (Unit {0})
  validate_i_json (number n) =
      if is_safe n then ok tt else invalid "Receipt integers must be within the I-JSON safe range"
  validate_i_json (array items) = validate_items items
  validate_i_json (object values) = validate_items values
  validate_i_json _ = ok tt

  pub validate_items : JsonList → Result (Unit {0})
  validate_items empty = ok tt
  validate_items (item j rest) = validate_i_json j >> validate_items rest

-- What the schema of a JSON text selects, with what `from_value` makes of the text.
pub data ReceiptJson : Type 0 where
  receipt_v2 : Result SignedReceiptV2 → ReceiptJson
  receipt_v1 : Result SignedReceipt → ReceiptJson
  unknown_schema : ReceiptJson

-- A result of another crate, or the text of its error.
abbrev pub Fallible : Type 0 → Type 0
Fallible A = String ⊎ A

abbrev pub or_invalid : {A : Type 0} → Fallible A → Result A
or_invalid (inl message) = invalid message
or_invalid (inr a) = ok a

-- What the code calls of serde_json, its canonicalizer, base64, blake3 and ed25519_dalek. A verifying
-- key and a signature stand for their bytes.
pub record Codec (SigningKey : Type 0) : Type 0 where
  pub canonical_evidence : EvidenceV2 → Fallible (List ℕ)
  pub canonical_unsigned_v2 : UnsignedReceiptV2 → Fallible (List ℕ)
  pub canonical_json : Json → Fallible (List ℕ)
  pub canonical_unsigned : UnsignedReceipt → Fallible (List ℕ)
  pub encode : List ℕ → String
  pub decode : String → Fallible (List ℕ)
  pub hash : List ℕ → List ℕ
  pub to_hex : List ℕ → String
  -- `VerifyingKey::from_bytes`, which refuses bytes of no point
  pub verifying_key_of : List ℕ → Fallible (List ℕ)
  pub verifying_key : SigningKey → List ℕ
  pub sign : SigningKey → List ℕ → List ℕ
  -- key, message, signature
  pub verify_strict : List ℕ → List ℕ → List ℕ → Bool

-- the domains of messages, as bytes
abbrev pub evidence_domain : List ℕ
evidence_domain =
    b'p' ∷ b'r' ∷ b'o' ∷ b'o' ∷ b'f' ∷ b'f' ∷ b'r' ∷ b'a' ∷ b'm' ∷ b'e' ∷ b':' ∷ b'e' ∷ b'v' ∷ b'i'
    ∷ b'd' ∷ b'e' ∷ b'n' ∷ b'c' ∷ b'e' ∷ b':' ∷ b'v' ∷ b'2' ∷ 0 ∷ []

abbrev pub receipt_domain : List ℕ
receipt_domain =
    b'p' ∷ b'r' ∷ b'o' ∷ b'o' ∷ b'f' ∷ b'f' ∷ b'r' ∷ b'a' ∷ b'm' ∷ b'e' ∷ b':' ∷ b'r' ∷ b'e' ∷ b'c'
    ∷ b'e' ∷ b'i' ∷ b'p' ∷ b't' ∷ b':' ∷ b'v' ∷ b'2' ∷ 0 ∷ []

module _ {SigningKey : Type 0} (codec : Codec SigningKey) where
  unfoldable pub digest_unchecked : EvidenceV2 → Result (List ℕ)
  digest_unchecked e = or_invalid (codec.canonical_evidence e) >>= λ bytes.
      ok (codec.hash (evidence_domain ++ bytes))

  unfoldable pub digest : EvidenceV2 → Result (List ℕ)
  unfolding digest_unchecked validate
  digest e = validate e >> digest_unchecked e

  -- The messages here leave out the label of what is decoded.
  unfoldable pub decode_exact : ℕ → String → Result (List ℕ)
  decode_exact n encoded = or_invalid (codec.decode encoded) >>= λ bytes.
      if length bytes == n then ok bytes else invalid "Invalid length"

  unfoldable pub decode_public_key : String → Result (List ℕ)
  unfolding decode_exact
  decode_public_key encoded =
      decode_exact 32 encoded >>= λ bytes. or_invalid (codec.verifying_key_of bytes)

  unfoldable pub v2_message : UnsignedReceiptV2 → Result (List ℕ)
  v2_message u =
      or_invalid (codec.canonical_unsigned_v2 u) >>= λ bytes. ok (receipt_domain ++ bytes)

  -- `now` is the answer of `now_unix_ms`; the engine's version is that of the package.
  unfoldable pub unsigned_v2 : String → ℕ → List ℕ → EvidenceV2 → SigningKey → UnsignedReceiptV2
  unsigned_v2 engine_version now evidence_hash evidence key = record {
    algorithm = "Ed25519";
    engine_version = engine_version;
    issued_at_unix_ms = now;
    evidence_hash = evidence_hash;
    evidence = evidence;
    public_key = codec.encode (codec.verifying_key key);
  }

  unfoldable pub sign_v2 : String → Result ℕ → EvidenceV2 → SigningKey → Result SignedReceiptV2
  unfolding digest v2_message unsigned_v2
  sign_v2 engine_version clock evidence key = clock >>= λ now. digest evidence >>= λ evidence_hash.
      let unsigned : UnsignedReceiptV2 =
        unsigned_v2 engine_version now evidence_hash evidence key in
      v2_message unsigned >>= λ message.
      ok (record { unsigned = unsigned; signature = codec.encode (codec.sign key message) })

  abbrev pub is_ok : {A : Type 0} → Result A → Bool
  is_ok (ok _) = true
  is_ok (err _) = false

  unfoldable pub verification_of : Bool → Bool → Bool → Bool → ReceiptVerification
  verification_of schema_supported report_hash_matches signature_valid signer_trusted = record {
    valid = schema_supported && report_hash_matches && signature_valid && signer_trusted;
    signature_valid = signature_valid;
    report_hash_matches = report_hash_matches;
    schema_supported = schema_supported;
    signer_trusted = signer_trusted;
    legacy = false;
  }

  unfoldable pub verify_v2 : SignedReceiptV2 → TrustPolicy → Result ReceiptVerification
  unfolding validate digest_unchecked decode_public_key decode_exact v2_message accepts same_bytes
      verification_of
  verify_v2 receipt trust = digest_unchecked receipt.unsigned.evidence >>= λ expected_hash.
      decode_public_key receipt.unsigned.public_key >>= λ public.
      decode_exact 64 receipt.signature >>= λ signature. v2_message receipt.unsigned >>= λ message.
      ok (
        verification_of
          (same_text receipt.unsigned.algorithm "Ed25519"
            && is_ok (validate receipt.unsigned.evidence))
          (same_bytes expected_hash receipt.unsigned.evidence_hash)
          (codec.verify_strict public message signature) (accepts trust public))

  unfoldable pub verify_json : SignedReceipt → Result Verification
  unfolding validate_i_json decode_public_key decode_exact
  verify_json receipt =
      validate_i_json receipt.unsigned.report
      >> or_invalid (codec.canonical_json receipt.unsigned.report)
      >>= λ report. decode_public_key receipt.unsigned.public_key >>= λ public.
          decode_exact 64 receipt.signature >>= λ signature.
          or_invalid (codec.canonical_unsigned receipt.unsigned) >>= λ message.
          let schema_supported : Bool =
            same_text receipt.unsigned.schema "proofframe.receipt.v1"
            && same_text receipt.unsigned.algorithm "Ed25519" in
          let report_hash_matches : Bool =
            same_text (codec.to_hex (codec.hash report)) receipt.unsigned.report_hash in
          let signature_valid : Bool = codec.verify_strict public message signature in
          ok (record {
            valid = schema_supported && report_hash_matches && signature_valid;
            signature_valid = signature_valid;
            report_hash_matches = report_hash_matches;
            schema_supported = schema_supported;
          })

  unfoldable pub verify_v1 : SignedReceipt → TrustPolicy → Result ReceiptVerification
  unfolding decode_public_key verify_json accepts
  verify_v1 receipt trust = decode_public_key receipt.unsigned.public_key >>= λ public.
      verify_json receipt >>= λ verification.
      let signer_trusted : Bool = accepts trust public in
      ok (record {
        valid = verification.valid && signer_trusted;
        signature_valid = verification.signature_valid;
        report_hash_matches = verification.report_hash_matches;
        schema_supported = verification.schema_supported;
        signer_trusted = signer_trusted;
        legacy = true;
      })

  unfoldable pub verify_parsed : ReceiptJson → TrustPolicy → Result ReceiptVerification
  unfolding verify_v2 verify_v1
  verify_parsed (receipt_v2 parsed) trust = parsed >>= λ receipt. verify_v2 receipt trust
  verify_parsed (receipt_v1 parsed) trust = parsed >>= λ receipt. verify_v1 receipt trust
  verify_parsed unknown_schema trust = ok (record {
    valid = false;
    signature_valid = false;
    report_hash_matches = false;
    schema_supported = false;
    signer_trusted = false;
    legacy = false;
  })

  unfoldable pub verify_json_with_policy :
      Result ReceiptJson → TrustPolicy → Result ReceiptVerification
  unfolding verify_parsed
  verify_json_with_policy parsed trust = parsed >>= λ receipt. verify_parsed receipt trust

  unfoldable pub policy_of : Option String → Result TrustPolicy
  unfolding decode_public_key
  policy_of (some key) = decode_public_key key >>= λ public. ok (expected_key public)
  policy_of none = ok signature_only

  unfoldable pub verify_json_with_expected_key :
      Result ReceiptJson → Option String → Result ReceiptVerification
  unfolding policy_of verify_json_with_policy
  verify_json_with_expected_key parsed key =
      policy_of key >>= λ trust. verify_json_with_policy parsed trust
