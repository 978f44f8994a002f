-- ===== src/Error/Codes.antt =====
-- The external spellings of error.rs identify their codes.
use proofframe.Prelude.{String, Option, none, some, ◌≡◌, refl, ap, if◌then◌else◌}
use text.Mathlib.Text.{◌==◌}
use proofframe.Error.{ErrorCode, as_str}

-- A reader of the spellings, for the proof.
from_str : String → Option ErrorCode
from_str s =
    if s == "PF_ARROW"
    then some ErrorCode.arrow
    else if s == "PF_IO"
    then some ErrorCode.io
    else if s == "PF_CONTRACT_INVALID_JSON"
    then some ErrorCode.contract_invalid_json
    else if s == "PF_CONTRACT_UNKNOWN_FIELD"
    then some ErrorCode.contract_unknown_field
    else if s == "PF_CONTRACT_INVALID_BOUND"
    then some ErrorCode.contract_invalid_bound
    else if s == "PF_CONTRACT_INVALID_RATIO"
    then some ErrorCode.contract_invalid_ratio
    else if s == "PF_CONTRACT_INVALID_TYPE"
    then some ErrorCode.contract_invalid_type
    else if s == "PF_DRAFT_CONTRACT"
    then some ErrorCode.contract_draft
    else if s == "PF_CONTRACT_DUPLICATE_RULE"
    then some ErrorCode.contract_duplicate_rule
    else if s == "PF_CONTRACT_TYPE_MISMATCH"
    then some ErrorCode.contract_type_mismatch
    else if s == "PF_REFERENCE_UNBOUND"
    then some ErrorCode.reference_unbound
    else if s == "PF_SCHEMA_MISMATCH"
    then some ErrorCode.schema_mismatch
    else if s == "PF_MISSING_COLUMN"
    then some ErrorCode.missing_column
    else if s == "PF_UNSUPPORTED_TYPE"
    then some ErrorCode.unsupported_type
    else if s == "PF_DUPLICATE_KEY"
    then some ErrorCode.duplicate_key
    else if s == "PF_NO_KEY_COLUMNS"
    then some ErrorCode.no_key_columns
    else if s == "PF_RESOURCE_LIMIT"
    then some ErrorCode.resource_limit
    else if s == "PF_CORRUPT_PARTITION"
    then some ErrorCode.corrupt_partition
    else if s == "PF_FINGERPRINT_VERSION"
    then some ErrorCode.fingerprint_version
    else if s == "PF_RECEIPT_INVALID"
    then some ErrorCode.receipt_invalid
    else if s == "PF_RECEIPT_INVALID_SIGNATURE"
    then some ErrorCode.receipt_invalid_signature
    else if s == "PF_RECEIPT_UNTRUSTED_SIGNER"
    then some ErrorCode.receipt_untrusted_signer
    else if s == "PF_CANCELLED"
    then some ErrorCode.cancelled
    else none

from_str-as_str : (c : ErrorCode) → from_str (as_str c) ≡ some c
unfolding from_str as_str
from_str-as_str ErrorCode.arrow = refl
from_str-as_str ErrorCode.io = refl
from_str-as_str ErrorCode.contract_invalid_json = refl
from_str-as_str ErrorCode.contract_unknown_field = refl
from_str-as_str ErrorCode.contract_invalid_bound = refl
from_str-as_str ErrorCode.contract_invalid_ratio = refl
from_str-as_str ErrorCode.contract_invalid_type = refl
from_str-as_str ErrorCode.contract_draft = refl
from_str-as_str ErrorCode.contract_duplicate_rule = refl
from_str-as_str ErrorCode.contract_type_mismatch = refl
from_str-as_str ErrorCode.reference_unbound = refl
from_str-as_str ErrorCode.schema_mismatch = refl
from_str-as_str ErrorCode.missing_column = refl
from_str-as_str ErrorCode.unsupported_type = refl
from_str-as_str ErrorCode.duplicate_key = refl
from_str-as_str ErrorCode.no_key_columns = refl
from_str-as_str ErrorCode.resource_limit = refl
from_str-as_str ErrorCode.corrupt_partition = refl
from_str-as_str ErrorCode.fingerprint_version = refl
from_str-as_str ErrorCode.receipt_invalid = refl
from_str-as_str ErrorCode.receipt_invalid_signature = refl
from_str-as_str ErrorCode.receipt_untrusted_signer = refl
from_str-as_str ErrorCode.cancelled = refl

-- Two error codes with one external spelling are one code.
pub as_str-injective : (c d : ErrorCode) → as_str c ≡ as_str d → c ≡ d
as_str-injective c d h = cc (ap from_str h, from_str-as_str c, from_str-as_str d)
