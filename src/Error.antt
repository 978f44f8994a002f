-- ===== src/Error.antt =====
-- error.rs: the typed errors, their stable codes, and the results that carry them.
mod Codes
mod Runs
use proofframe.Prelude.{ℕ, String, Option, none, ◌≡◌, refl, ◌⊎◌, inl, inr}

pub data ErrorCode : Type 0 where
  arrow io contract_invalid_json contract_unknown_field contract_invalid_bound : ErrorCode
  contract_invalid_ratio contract_invalid_type contract_draft contract_duplicate_rule : ErrorCode
  contract_type_mismatch reference_unbound schema_mismatch missing_column : ErrorCode
  unsupported_type duplicate_key no_key_columns resource_limit corrupt_partition : ErrorCode
  fingerprint_version receipt_invalid receipt_invalid_signature : ErrorCode
  receipt_untrusted_signer cancelled : ErrorCode

pub as_str : ErrorCode → String
as_str arrow = "PF_ARROW"
as_str io = "PF_IO"
as_str contract_invalid_json = "PF_CONTRACT_INVALID_JSON"
as_str contract_unknown_field = "PF_CONTRACT_UNKNOWN_FIELD"
as_str contract_invalid_bound = "PF_CONTRACT_INVALID_BOUND"
as_str contract_invalid_ratio = "PF_CONTRACT_INVALID_RATIO"
as_str contract_invalid_type = "PF_CONTRACT_INVALID_TYPE"
as_str contract_draft = "PF_DRAFT_CONTRACT"
as_str contract_duplicate_rule = "PF_CONTRACT_DUPLICATE_RULE"
as_str contract_type_mismatch = "PF_CONTRACT_TYPE_MISMATCH"
as_str reference_unbound = "PF_REFERENCE_UNBOUND"
as_str schema_mismatch = "PF_SCHEMA_MISMATCH"
as_str missing_column = "PF_MISSING_COLUMN"
as_str unsupported_type = "PF_UNSUPPORTED_TYPE"
as_str duplicate_key = "PF_DUPLICATE_KEY"
as_str no_key_columns = "PF_NO_KEY_COLUMNS"
as_str resource_limit = "PF_RESOURCE_LIMIT"
as_str corrupt_partition = "PF_CORRUPT_PARTITION"
as_str fingerprint_version = "PF_FINGERPRINT_VERSION"
as_str receipt_invalid = "PF_RECEIPT_INVALID"
as_str receipt_invalid_signature = "PF_RECEIPT_INVALID_SIGNATURE"
as_str receipt_untrusted_signer = "PF_RECEIPT_UNTRUSTED_SIGNER"
as_str cancelled = "PF_CANCELLED"

-- The errors of other crates (Arrow, I/O, regex, JSON, UTF-8) carry their rendered text.
pub data ProofFrameError : Type 0 where
  contract : ErrorCode → String → Option String → ProofFrameError
  arrow io regex json utf8 : String → ProofFrameError
  invalid_contract review missing_column unsupported_type : String → ProofFrameError
  schema_mismatch duplicate_key : String → ProofFrameError
  no_key_columns : ProofFrameError
  corrupt_data invalid_receipt : String → ProofFrameError
  -- resource, requested, used, limit
  resource_limit : String → ℕ → ℕ → ℕ → ProofFrameError
  cancelled : ProofFrameError

unfoldable pub error_code : ProofFrameError → ErrorCode
error_code (contract code _ _) = code
error_code (arrow _) = ErrorCode.arrow
error_code (io _) = ErrorCode.io
error_code (regex _) = ErrorCode.contract_invalid_bound
error_code (json _) = ErrorCode.contract_invalid_json
error_code (invalid_contract _) = ErrorCode.contract_invalid_json
error_code (review _) = ErrorCode.contract_invalid_json
error_code (utf8 _) = ErrorCode.corrupt_partition
error_code (corrupt_data _) = ErrorCode.corrupt_partition
error_code (missing_column _) = ErrorCode.missing_column
error_code (unsupported_type _) = ErrorCode.unsupported_type
error_code (schema_mismatch _) = ErrorCode.schema_mismatch
error_code (duplicate_key _) = ErrorCode.duplicate_key
error_code no_key_columns = ErrorCode.no_key_columns
error_code (invalid_receipt _) = ErrorCode.receipt_invalid
error_code (resource_limit _ _ _ _) = ErrorCode.resource_limit
error_code cancelled = ErrorCode.cancelled

pub path : ProofFrameError → Option String
path (contract _ _ p) = p
path _ = none

pub data Result {κ} (T : Type κ) : Type κ where
  ok : T → Result T
  err : ProofFrameError → Result T

-- `?`: an error leaves the function
infixl 5 ◌>>=◌
abbrev pub ◌>>=◌ {κ ι} : {T : Type κ} {U : Type ι} → Result T → (T → Result U) → Result U
err failure >>= rest = err failure
ok value >>= rest = rest value

infixl 5 ◌>>◌
abbrev pub ◌>>◌ {κ} : {U : Type κ} → Result (Unit {0}) → Result U → Result U
check >> rest = check >>= λ done. rest

pub bind-ok {κ ι} :
    {T : Type κ} {U : Type ι} (r : Result T) (rest : T → Result U) (u : U)
    → (r >>= rest) ≡ ok u
    → (t : T) × (r ≡ ok t) × (rest t ≡ ok u)
bind-ok (err failure) rest u e = cc
bind-ok (ok value) rest u e = (value, refl, e)

pub ok-eq {ℓ} : {A : Type ℓ} (a b : A) → Result.ok a ≡ ok b → a ≡ b
ok-eq a b e = cc

pub Result-cases {ℓ} :
    {A : Type ℓ} (r : Result A) → ((a : A) × (r ≡ ok a)) ⊎ ((e : ProofFrameError) × (r ≡ err e))
Result-cases (ok a) = inl (a, refl)
Result-cases (err e) = inr (e, refl)
