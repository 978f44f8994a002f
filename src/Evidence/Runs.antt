-- ===== src/Evidence/Runs.antt =====
-- The evidence of a scan with three violations, and what the theorems say there.
use proofframe.Prelude.{ℕ, ◌≡◌, refl, Bool, List, [], ◌∷◌, some, String, arith, inr}
use proofframe.Error.{ok}
use proofframe.Resource.{
  Heap, ResourceAccount, default_limits, new_counters, current, try_reserve_memory,
}
use proofframe.Validation.{Finding}
use proofframe.Execution.{FastValidationReport, PlanIdentity, no_spill, build_report}
use proofframe.Evidence.{
  EvidenceV2, v2, is_digest, validate, any_tagged, validate_tagged_digest, is_blank,
}
use proofframe.Evidence.Consistent.{IsCoherent, validate-IsCoherent}
use proofframe.Evidence.Assembly.{
  Fingerprint, Codec, envelope, evidence_for_check, validation_result_digest,
  validation_report_digest, validation_findings_digest, validation_metrics_digest,
}
use proofframe.Validation.{new, new_accounted, prepare_evaluated}
use proofframe.Validation.Findings.{start}
use proofframe.Validation.Events.{Event, violation, uncounted, offered, record_events}
use proofframe.Evidence.Checked.{evidence_for_check-ok}

abbrev hex : String
hex = "0123456789abcdef0123456789abcdef0123456789abcdef0123456789abcdef"

-- values that are all one
abbrev codec : Codec ℕ
codec = record {
  get = λ v field. some v;
  array_length = λ v. some 1;
  summary_value = λ a b c n. n;
  to_vec = λ v. inr (v ∷ []);
  hash_hex = λ domain bytes. hex;
}

abbrev capacity : String → ℕ
capacity s = 8

abbrev account : ResourceAccount
account = record { root = 0; below = []; limits = default_limits }

abbrev heap : Heap
heap = record { next = 1; at = λ m. new_counters 1000 1000 }

abbrev missing : Finding
missing = record { rule = "not_null"; column = "id"; row = some 3; message = "Null value detected" }

abbrev found : List Finding
found = missing ∷ []

-- a violation, two more that are only counted, and the seven values of a column
abbrev events : List Event
events = violation missing ∷ offered 0 7 ∷ uncounted 2 ∷ []

abbrev plan : PlanIdentity
plan = record {
  column_indices = 0 ∷ [];
  compiled_plan_digest =
      ok "pf-plan-v2:0123456789abcdef0123456789abcdef0123456789abcdef0123456789abcdef";
  schema_digest =
      ok "pf-schema-v1:0123456789abcdef0123456789abcdef0123456789abcdef0123456789abcdef";
}

abbrev report : FastValidationReport ℕ
report = record {
  references = [];
  valid = Bool.false;
  violation_count = 3;
  truncated = Bool.true;
  findings = found;
  evaluated_columns = 7 ∷ [];
  evaluated_indices = 0 ∷ [];
  rows = 7;
  mode = "rules_only";
  metrics = record {
    peak_memory_bytes = 0;
    peak_temp_bytes = 0;
    spill_bytes = 0;
    exact_runs = 0;
    capacity_growth_events = 0;
  };
  resources = default_limits;
  compiled_plan_digest =
      "pf-plan-v2:0123456789abcdef0123456789abcdef0123456789abcdef0123456789abcdef";
  schema_digest = "pf-schema-v1:0123456789abcdef0123456789abcdef0123456789abcdef0123456789abcdef";
}

abbrev fingerprint : Fingerprint
fingerprint = record { version = v2; digest = 1 ∷ 2 ∷ []; rows = 7 }

abbrev source : String
source = "pf-contract-v1:0123456789abcdef0123456789abcdef0123456789abcdef0123456789abcdef"

abbrev digest_1 : String
digest_1 = "pf-result-v1:0123456789abcdef0123456789abcdef0123456789abcdef0123456789abcdef"

abbrev digest_2 : String
digest_2 = "pf-report-v1:0123456789abcdef0123456789abcdef0123456789abcdef0123456789abcdef"

abbrev digest_3 : String
digest_3 = "pf-findings-v1:0123456789abcdef0123456789abcdef0123456789abcdef0123456789abcdef"

abbrev digest_4 : String
digest_4 = "pf-metrics-v1:0123456789abcdef0123456789abcdef0123456789abcdef0123456789abcdef"

abbrev references : List ℕ
references = []

built :
    build_report plan default_limits account
      (record_events capacity events (start 10 1 account) heap).0
      7
      no_spill
      references
      heap
    ≡ ok report
unfolding build_report current record_events prepare_evaluated new_accounted new try_reserve_memory
built = refl

source_tagged : any_tagged source ("pf-contract-v1:" ∷ "pf-contract-v2:" ∷ []) ≡ Bool.true
unfolding any_tagged
source_tagged = refl

plan_tagged :
    any_tagged report.compiled_plan_digest ("pf-plan-v1:" ∷ "pf-plan-v2:" ∷ []) ≡ Bool.true
unfolding any_tagged
plan_tagged = refl

schema_tagged : validate_tagged_digest report.schema_digest "pf-schema-v1:" ≡ ok tt
unfolding validate_tagged_digest
schema_tagged = refl

named : is_blank "0.12.0" ≡ Bool.false
unfolding is_blank
named = refl

abbrev pub sample : EvidenceV2
sample = record {
  dataset = record { fingerprint_version = v2; fingerprint_digest = 1 ∷ 2 ∷ []; rows = 7 };
  contract_source_digest = source;
  compiled_plan_digest = report.compiled_plan_digest;
  schema_digest = report.schema_digest;
  engine = record { name = "proofframe"; version = "0.12.0" };
  execution = record { operation = "check"; resources = default_limits };
  result = record {
    valid = Bool.false;
    violation_count = 1;
    output_records = 1;
    truncated = Bool.false;
    result_digest = digest_1;
    report_digest = digest_2;
    findings_digest = digest_3;
    metrics_digest = digest_4;
  };
}

pub sample-valid : validate sample ≡ ok tt
unfolding validate
sample-valid = refl

validate-IsCoherent_example : IsCoherent sample.result 100
validate-IsCoherent_example = validate-IsCoherent sample sample-valid

hex-digest :
    (domain : String) (bytes : List ℕ) → is_digest (codec.hash_hex domain bytes) ≡ Bool.true
unfolding is_digest
hex-digest domain bytes = refl

digest_1-made : validation_result_digest codec 0 ≡ ok digest_1
unfolding validation_result_digest
digest_1-made = refl

digest_2-made : validation_report_digest codec 0 ≡ ok digest_2
unfolding validation_report_digest
digest_2-made = refl

digest_3-made : validation_findings_digest codec 0 ≡ ok digest_3
unfolding validation_findings_digest
digest_3-made = refl

digest_4-made : validation_metrics_digest codec 0 ≡ ok digest_4
unfolding validation_metrics_digest
digest_4-made = refl

evidence_for_check-ok_example :
    evidence_for_check codec "0.12.0" report 0 fingerprint source
    ≡ ok (envelope "0.12.0" report fingerprint source digest_1 digest_2 digest_3 digest_4)
evidence_for_check-ok_example =
    evidence_for_check-ok codec hex-digest capacity plan default_limits account account 10 1 events
      heap 7 no_spill references heap report "0.12.0" 0 fingerprint source digest_1 digest_2
      digest_3 digest_4 (omega arith) (omega arith) built refl source_tagged plan_tagged
      schema_tagged named digest_1-made digest_2-made digest_3-made digest_4-made
