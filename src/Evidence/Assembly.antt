-- ===== src/Evidence/Assembly.antt =====
-- The evidence of a check, in evidence/mod.rs: the digests of a report, and `evidence_for_check`. The
-- JSON values, their canonical form and BLAKE3 are those of serde_json, serde_json_canonicalizer and
-- blake3.
use proofframe.Prelude.{ℕ, List, Option, none, some, String, length, inl, inr, ◌⊎◌}
use Prim.Native.String.{◌++◌}
use proofframe.Error.{invalid_receipt, Result, ok, err, ◌>>=◌}
use proofframe.Execution.{FastValidationReport}
use proofframe.Evidence.{FingerprintVersion, EvidenceV2, invalid_evidence, validate}

-- A `Fingerprint` of the data set.
pub record Fingerprint : Type 0 where
  pub version : FingerprintVersion
  pub digest : List ℕ
  pub rows : ℕ

-- the envelope, of a report and its digests
unfoldable pub envelope :
    {R : Type 0}
    → String
    → FastValidationReport R
    → Fingerprint
    → String
    → String
    → String
    → String
    → String
    → EvidenceV2
envelope engine_version report fingerprint source result_digest report_digest findings_digest
      metrics_digest =
    record {
      dataset = record {
        fingerprint_version = fingerprint.version;
        fingerprint_digest = fingerprint.digest;
        rows = fingerprint.rows;
      };
      contract_source_digest = source;
      compiled_plan_digest = report.compiled_plan_digest;
      schema_digest = report.schema_digest;
      engine = record { name = "proofframe"; version = engine_version };
      execution = record { operation = "check"; resources = report.resources };
      result = record {
        valid = report.valid;
        violation_count = report.violation_count;
        output_records = length report.findings;
        truncated = report.truncated;
        result_digest = result_digest;
        report_digest = report_digest;
        findings_digest = findings_digest;
        metrics_digest = metrics_digest;
      };
    }

unfoldable pub validated : EvidenceV2 → Result EvidenceV2
unfolding validate
validated e = validate e >>= λ _. ok e

-- the domains under which reports are hashed
abbrev pub result_domain : String
result_domain = "proofframe:validation-result:v1\0"

abbrev pub report_domain : String
report_domain = "proofframe:validation-report:v1\0"

abbrev pub findings_domain : String
findings_domain = "proofframe:validation-findings:v1\0"

abbrev pub metrics_domain : String
metrics_domain = "proofframe:validation-metrics:v1\0"

-- What the code calls of the other crates, on their JSON values.
pub record Codec (Value : Type 0) : Type 0 where
  -- `Value::get`
  pub get : Value → String → Option Value
  -- the length of `Value::as_array`
  pub array_length : Value → Option ℕ
  -- `json!` of the summary: valid, violation_count, truncated, output_records
  pub summary_value : Value → Value → Value → ℕ → Value
  -- `to_vec`: the bytes, or the text of an error
  pub to_vec : Value → String ⊎ List ℕ
  -- BLAKE3 of a domain and then some bytes, in hexadecimal
  pub hash_hex : String → List ℕ → String

abbrev pub ok_or : {Value : Type 0} → Option Value → String → Result Value
ok_or none message = invalid_evidence message
ok_or (some v) message = ok v

module _ {Value : Type 0} (codec : Codec Value) where
  unfoldable pub tag_bytes : String → String → String ⊎ List ℕ → Result String
  tag_bytes prefix domain (inl message) = err (invalid_receipt message)
  tag_bytes prefix domain (inr bytes) = ok (prefix ++ codec.hash_hex domain bytes)

  unfoldable pub tagged_canonical_digest : String → String → Value → Result String
  unfolding tag_bytes
  tagged_canonical_digest prefix domain value = tag_bytes prefix domain (codec.to_vec value)

  -- The message here leaves out the name of the field.
  abbrev pub required_report_field : Value → String → Result Value
  required_report_field report field =
      ok_or (codec.get report field) "Validation report is missing a field"

  abbrev pub findings_length : Option Value → Result ℕ
  findings_length none = invalid_evidence "Validation report is missing `findings`"
  findings_length (some v) = elim (codec.array_length v) [
    | none ↦ invalid_evidence "Validation report is missing `findings`"
    | some n ↦ ok n
  ]

  unfoldable pub validation_result_digest : Value → Result String
  unfolding tagged_canonical_digest
  validation_result_digest report = findings_length (codec.get report "findings") >>= λ n.
      required_report_field report "valid" >>= λ valid.
      required_report_field report "violation_count" >>= λ count.
      required_report_field report "truncated" >>= λ truncated.
      tagged_canonical_digest "pf-result-v1:" result_domain
        (codec.summary_value valid count truncated n)

  unfoldable pub validation_report_digest : Value → Result String
  unfolding tagged_canonical_digest
  validation_report_digest report = tagged_canonical_digest "pf-report-v1:" report_domain report

  unfoldable pub validation_findings_digest : Value → Result String
  unfolding tagged_canonical_digest
  validation_findings_digest report = required_report_field report "findings" >>= λ v.
      tagged_canonical_digest "pf-findings-v1:" findings_domain v

  unfoldable pub validation_metrics_digest : Value → Result String
  unfolding tagged_canonical_digest
  validation_metrics_digest report = required_report_field report "metrics" >>= λ v.
      tagged_canonical_digest "pf-metrics-v1:" metrics_domain v

  unfoldable pub evidence_for_check :
      {R : Type 0}
      → String
      → FastValidationReport R
      → Value
      → Fingerprint
      → String
      → Result EvidenceV2
  unfolding validation_result_digest validation_report_digest validation_findings_digest
      validation_metrics_digest envelope validated
  evidence_for_check engine_version report value fingerprint source =
      validation_result_digest value >>= λ result_digest.
      validation_report_digest value >>= λ report_digest.
      validation_findings_digest value >>= λ findings_digest.
      validation_metrics_digest value >>= λ metrics_digest. validated (
        envelope engine_version report fingerprint source result_digest report_digest
          findings_digest metrics_digest)
