-- ===== src/Evidence/Checked.antt =====
-- The evidence of a report that the engine built, in evidence/mod.rs and execution/mod.rs.
use proofframe.Prelude.{
  ℕ, ◌≤◌, ◌<◌, ◌≡◌, refl, sym, ap, true, false, List, [], ◌∷◌, String, arith, length, inl, inr, ◌⊎◌,
}
use proofframe.Error.{ok, bind-ok, ok-eq}
use proofframe.Resource.{u64_mod, Heap, ResourceLimits, ResourceAccount}
use proofframe.Validation.{ValidationState, finish}
use proofframe.Validation.Findings.{start}
use proofframe.Validation.Events.{
  Event, all_counted, IsBounded, record_events, record_events-start-IsBounded,
}
use proofframe.Execution.{FastValidationReport, PlanIdentity, SpillMetrics, build_report}
use proofframe.Evidence.{
  v2, EvidenceV2, validate, validate_digests, validate_result, validate_tagged_digest,
  validate_tagged_digest_any, any_tagged, is_digest, is_blank, strip_prefix-append,
}
use proofframe.Evidence.Consistent.{IsCoherent, validate_result-IsCoherent}
use proofframe.Evidence.Assembly.{
  Fingerprint, Codec, tag_bytes, findings_length, result_domain, report_domain, findings_domain,
  metrics_domain, tagged_canonical_digest, required_report_field, validation_result_digest,
  validation_report_digest, validation_findings_digest, validation_metrics_digest, envelope,
  validated, evidence_for_check,
}

module _ {R : Type 0} (plan : PlanIdentity) (resources : ResourceLimits) (root : ResourceAccount)
    (v : ValidationState) (rows : ℕ) (metrics : SpillMetrics) (references : List R) (h : Heap) where
  -- A report of a validation whose findings are within its count and its limit is coherent.
  build_report-IsCoherent :
      (m : ℕ) (report : FastValidationReport R) (engine_version : String)
      (fingerprint : Fingerprint) (source d1 d2 d3 d4 : String)
      → IsBounded m v
      → m ≤ resources.max_samples
      → build_report plan resources root v rows metrics references h ≡ ok report
      → IsCoherent
          (envelope engine_version report fingerprint source d1 d2 d3 d4).result
          (envelope engine_version report fingerprint source d1 d2 d3
            d4).execution.resources.max_samples
  unfolding build_report envelope finish
  build_report-IsCoherent m report engine_version fingerprint source d1 d2 d3 d4 bounded few built =
      let (plan_digest, _, built1) = bind-ok plan.compiled_plan_digest _ report built in
      let (schema_digest, _, built2) = bind-ok plan.schema_digest _ report built1 in
      let same = sym (ok-eq _ _ built2) in
      let kept = ap (λ r. length r.findings) same in
      let counted = ap (λ r. r.violation_count) same in
      let valid = ap (λ r. r.valid) same in
      let cut = ap (λ r. r.truncated) same in
      let limit = ap (λ r. r.resources.max_samples) same in
      record {
        valid_iff = ground (arith, valid, counted);
        retained = omega (arith, kept, counted, bounded.counted);
        sampled = omega (arith, kept, few, limit, bounded.kept);
        truncated_iff = ground (arith, cut, kept, counted);
      }

validated-ok : (e : EvidenceV2) → validate e ≡ ok tt → validated e ≡ ok e
unfolding validated
validated-ok e h = rw h refl

module _ {Value : Type 0} (codec : Codec Value)
    (hex : (domain : String) (bytes : List ℕ)
      → is_digest (codec.hash_hex domain bytes) ≡ true) where
  tag_bytes-valid :
      (p d : String) (b : String ⊎ List ℕ) (s : String)
      → tag_bytes codec p d b ≡ ok s
      → validate_tagged_digest s p ≡ ok tt
  unfolding tag_bytes validate_tagged_digest
  tag_bytes-valid p d (inl x) s e = cc
  tag_bytes-valid p d (inr b) s e =
      rw
        (
          sym (ok-eq _ s e),
          validate_tagged_digest,
          strip_prefix-append p (codec.hash_hex d b),
          hex d b,
        )
        refl

  result_digest-valid :
      (value : Value) (s : String)
      → validation_result_digest codec value ≡ ok s
      → validate_tagged_digest s "pf-result-v1:" ≡ ok tt
  unfolding validation_result_digest tagged_canonical_digest
  result_digest-valid value s e =
      let (n, _, e1) = bind-ok (findings_length codec (codec.get value "findings")) _ s e in
      let (a, _, e2) = bind-ok (required_report_field codec value "valid") _ s e1 in
      let (b, _, e3) = bind-ok (required_report_field codec value "violation_count") _ s e2 in
      let (c, _, e4) = bind-ok (required_report_field codec value "truncated") _ s e3 in
      tag_bytes-valid "pf-result-v1:" result_domain (codec.to_vec (codec.summary_value a b c n)) s
        e4

  report_digest-valid :
      (value : Value) (s : String)
      → validation_report_digest codec value ≡ ok s
      → validate_tagged_digest s "pf-report-v1:" ≡ ok tt
  unfolding validation_report_digest tagged_canonical_digest
  report_digest-valid value s e =
      tag_bytes-valid "pf-report-v1:" report_domain (codec.to_vec value) s e

  findings_digest-valid :
      (value : Value) (s : String)
      → validation_findings_digest codec value ≡ ok s
      → validate_tagged_digest s "pf-findings-v1:" ≡ ok tt
  unfolding validation_findings_digest tagged_canonical_digest
  findings_digest-valid value s e =
      let (a, _, e1) = bind-ok (required_report_field codec value "findings") _ s e in
      tag_bytes-valid "pf-findings-v1:" findings_domain (codec.to_vec a) s e1

  metrics_digest-valid :
      (value : Value) (s : String)
      → validation_metrics_digest codec value ≡ ok s
      → validate_tagged_digest s "pf-metrics-v1:" ≡ ok tt
  unfolding validation_metrics_digest tagged_canonical_digest
  metrics_digest-valid value s e =
      let (a, _, e1) = bind-ok (required_report_field codec value "metrics") _ s e in
      tag_bytes-valid "pf-metrics-v1:" metrics_domain (codec.to_vec a) s e1

  -- A report that is built from the validation state of a scan, whatever violations, counts without a finding
  -- and offered values it recorded, in whatever order, fewer than 2 ^ 64 violations and under the limit of
  -- samples, always becomes evidence: with the data set's fingerprint of version 2, digests of the contract,
  -- the plan and the schema under their prefixes, a version that is not blank, and the digests of the
  -- report's JSON value computed, `evidence_for_check` returns the envelope, so none of its checks refuses it.
  -- A BLAKE3 hash in hexadecimal is 64 lowercase digits here.
  pub evidence_for_check-ok :
      {R : Type 0} (string_capacity : String → ℕ) (plan : PlanIdentity) (resources : ResourceLimits)
      (root account : ResourceAccount) (m plans : ℕ) (events : List Event) (before : Heap)
      (rows : ℕ) (metrics : SpillMetrics) (references : List R) (h : Heap)
      (report : FastValidationReport R) (engine_version : String) (value : Value)
      (fingerprint : Fingerprint) (source d1 d2 d3 d4 : String)
      → all_counted events < u64_mod
      → m ≤ resources.max_samples
      → build_report plan resources root
          (record_events string_capacity events (start m plans account) before).0
          rows
          metrics
          references
          h
        ≡ ok report
      → fingerprint.version ≡ v2
      → any_tagged source ("pf-contract-v1:" ∷ "pf-contract-v2:" ∷ []) ≡ true
      → any_tagged report.compiled_plan_digest ("pf-plan-v1:" ∷ "pf-plan-v2:" ∷ []) ≡ true
      → validate_tagged_digest report.schema_digest "pf-schema-v1:" ≡ ok tt
      → is_blank engine_version ≡ false
      → validation_result_digest codec value ≡ ok d1
      → validation_report_digest codec value ≡ ok d2
      → validation_findings_digest codec value ≡ ok d3
      → validation_metrics_digest codec value ≡ ok d4
      → evidence_for_check codec engine_version report value fingerprint source
        ≡ ok (envelope engine_version report fingerprint source d1 d2 d3 d4)
  unfolding evidence_for_check
  evidence_for_check-ok string_capacity plan resources root account m plans events before rows
        metrics references h report engine_version value fingerprint source d1 d2 d3 d4 small few
        built version source_ok plan_ok schema_ok named e1 e2 e3 e4 =
      let made = envelope engine_version report fingerprint source d1 d2 d3 d4 in
      let v = (record_events string_capacity events (start m plans account) before).0 in
      let result_ok = (validate_result-IsCoherent made.result made.execution).1 (
        build_report-IsCoherent plan resources root v rows metrics references h m report
          engine_version fingerprint source d1 d2 d3 d4
          (record_events-start-IsBounded string_capacity m plans account events before small) few
          built) in
      rw (e1, e2, e3, e4) (validated-ok _ (checked result_ok))
    where
      checked :
          validate_result
              (envelope engine_version report fingerprint source d1 d2 d3 d4).result
              (envelope engine_version report fingerprint source d1 d2 d3 d4).execution
            ≡ ok tt
          → validate (envelope engine_version report fingerprint source d1 d2 d3 d4) ≡ ok tt
      checked result_ok =
          rw
            (
              validate,
              envelope,
              validate_digests,
              validate_tagged_digest_any,
              version,
              source_ok,
              plan_ok,
              schema_ok,
              named,
              result_digest-valid value d1 e1,
              report_digest-valid value d2 e2,
              findings_digest-valid value d3 e3,
              metrics_digest-valid value d4 e4,
            )
            result_ok
