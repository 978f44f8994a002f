-- ===== src/Evidence.antt =====
-- The evidence envelope, in evidence/mod.rs: `EvidenceV2`, its validation, and its assembly for a check.
mod Text
pub mod Consistent
pub mod Assembly
pub mod Checked
pub mod Runs
use Prim.Native.Char.{Char, code}
use Prim.Native.String.{len}
use text.Mathlib.Text.{◌==◌ as same_text}
use proofframe.Prelude.{
  ℕ, List, [], ◌∷◌, Bool, true, false, not, ◌&&◌, ◌||◌, Option, none, some, String, ltb, leb, ◌==◌,
  if◌then◌else◌,
}
use proofframe.Error.{invalid_receipt, Result, ok, err, ◌>>◌}
use proofframe.Resource.{ResourceLimits}
unfoldable pub use Text.{strip_prefix, all_chars}
pub use Text.{strip_prefix-append}

pub data FingerprintVersion : Type 0 where
  v1 v2 : FingerprintVersion

pub record DatasetEvidence : Type 0 where
  pub fingerprint_version : FingerprintVersion
  pub fingerprint_digest : List ℕ
  pub rows : ℕ

pub record EngineEvidence : Type 0 where
  pub name : String
  pub version : String

pub record ExecutionEvidence : Type 0 where
  pub operation : String
  pub resources : ResourceLimits

pub record ResultEvidence : Type 0 where
  pub valid : Bool
  pub violation_count : ℕ
  pub output_records : ℕ
  pub truncated : Bool
  pub result_digest : String
  pub report_digest : String
  pub findings_digest : String
  pub metrics_digest : String

-- `schema` has one value.
pub record EvidenceV2 : Type 0 where
  pub dataset : DatasetEvidence
  pub contract_source_digest : String
  pub compiled_plan_digest : String
  pub schema_digest : String
  pub engine : EngineEvidence
  pub execution : ExecutionEvidence
  pub result : ResultEvidence

abbrev pub invalid_evidence : {A : Type 0} → String → Result A
invalid_evidence message = err (invalid_receipt message)

-- `0-9` and `a-f`: what `is_ascii_hexdigit` takes and `is_ascii_uppercase` does not
abbrev pub is_lower_hex : Char → Bool
is_lower_hex c =
    (leb b'0' (code c) && leb (code c) b'9') || (leb b'a' (code c) && leb (code c) b'f')

unfoldable pub is_digest : String → Bool
unfolding all_chars
is_digest hex = (len hex == 64) && all_chars is_lower_hex hex

unfoldable pub tagged : Option String → Bool
unfolding is_digest
tagged none = false
tagged (some hex) = is_digest hex

abbrev pub check_that : Bool → String → Result (Unit {0})
check_that b message = if b then ok tt else invalid_evidence message

-- A message here leaves out the label of the digest.
unfoldable pub validate_tagged_digest : String → String → Result (Unit {0})
unfolding strip_prefix is_digest
validate_tagged_digest value prefix = elim (strip_prefix value prefix) [
  | none ↦ invalid_evidence "Evidence digest has the wrong prefix"
  | some hex ↦
      check_that (is_digest hex) "Evidence digest must contain 64 lowercase hexadecimal characters"
]

unfoldable pub any_tagged : String → List String → Bool
unfolding strip_prefix tagged
any_tagged value [] = false
any_tagged value (p ∷ ps) = tagged (strip_prefix value p) || any_tagged value ps

unfoldable pub validate_tagged_digest_any : String → List String → Result (Unit {0})
unfolding any_tagged
validate_tagged_digest_any value prefixes =
    check_that (any_tagged value prefixes)
      "Evidence digest has an unsupported prefix or malformed digest"

-- `char::is_whitespace`
abbrev pub is_whitespace : Char → Bool
is_whitespace c =
    let n : ℕ = code c in
    (leb 9 n && leb n 13)
    || (n == 32)
    || (n == 133)
    || (n == 160)
    || (n == 5760)
    || (leb 8192 n && leb n 8202)
    || (n == 8232)
    || (n == 8233)
    || (n == 8239)
    || (n == 8287)
    || (n == 12288)

-- `trim().is_empty()`
unfoldable pub is_blank : String → Bool
unfolding all_chars
is_blank s = all_chars is_whitespace s

abbrev pub is_v2 : FingerprintVersion → Bool
is_v2 v1 = false
is_v2 v2 = true

-- `==` of two Booleans
abbrev pub same_bool : Bool → Bool → Bool
same_bool a b = if a then b else not b

unfoldable pub validate_result : ResultEvidence → ExecutionEvidence → Result (Unit {0})
validate_result r x =
    check_that (same_bool r.valid (r.violation_count == 0))
      "Evidence validity must equal a zero violation count"
    >> check_that (leb r.output_records r.violation_count)
        "Evidence output records exceed the violation count"
    >> check_that (leb r.output_records x.resources.max_samples)
        "Evidence output records exceed the configured sample limit"
    >> check_that (same_bool r.truncated (ltb r.output_records r.violation_count))
        "Evidence truncation does not match retained output records"

unfoldable pub validate_digests : EvidenceV2 → Result (Unit {0})
unfolding validate_tagged_digest_any validate_tagged_digest
validate_digests e =
    validate_tagged_digest_any e.contract_source_digest ("pf-contract-v1:" ∷ "pf-contract-v2:" ∷ [])
    >> validate_tagged_digest_any e.compiled_plan_digest ("pf-plan-v1:" ∷ "pf-plan-v2:" ∷ [])
    >> validate_tagged_digest e.schema_digest "pf-schema-v1:"
    >> validate_tagged_digest e.result.result_digest "pf-result-v1:"
    >> validate_tagged_digest e.result.report_digest "pf-report-v1:"
    >> validate_tagged_digest e.result.findings_digest "pf-findings-v1:"
    >> validate_tagged_digest e.result.metrics_digest "pf-metrics-v1:"

unfoldable pub validate : EvidenceV2 → Result (Unit {0})
unfolding validate_digests validate_result is_blank
validate e =
    check_that (is_v2 e.dataset.fingerprint_version)
      "V2 evidence requires the V2 dataset fingerprint"
    >> validate_digests e
    >> check_that (same_text e.engine.name "proofframe" && not (is_blank e.engine.version))
        "Evidence engine must be `proofframe` with a non-empty version"
    >> check_that (same_text e.execution.operation "check")
        "V2 evidence supports only the `check` operation"
    >> validate_result e.result e.execution
