-- ===== src/Evidence/Consistent.antt =====
-- What a validated envelope of evidence/mod.rs claims.
use proofframe.Prelude.{
  ℕ, ◌≤◌, ◌<◌, ◌≡◌, ◌↔◌, refl, Bool, true, false, String, arith, ltb, ◌==◌, leb→le,
}
use proofframe.Error.{Result, ok, err, ◌>>◌}
use proofframe.Evidence.{
  EvidenceV2, ResultEvidence, ExecutionEvidence, check_that, same_bool, validate, validate_result,
}

-- A chain of checks that succeeds passes each of them.
pub check_that-ok :
    {A : Type 0} (b : Bool) (m : String) (k : Result A) (a : A)
    → (check_that b m >> k) ≡ ok a
    → (b ≡ true) × (k ≡ ok a)
check_that-ok true m k a e = (refl, e)
check_that-ok false m k a e = cc

pub then-ok :
    {A : Type 0} (c : Result (Unit {0})) (k : Result A) (a : A)
    → (c >> k) ≡ ok a
    → (c ≡ ok tt) × (k ≡ ok a)
then-ok (ok tt) k a e = (refl, e)
then-ok (err x) k a e = cc

last_check-ok : (b : Bool) (m : String) → check_that b m ≡ ok tt → b ≡ true
last_check-ok true m e = refl
last_check-ok false m e = cc

-- The numbers of the result, as they stand to each other and to the limit of samples.
pub record IsCoherent (r : ResultEvidence) (max_samples : ℕ) : Type 0 where
  pub valid_iff : (r.valid ≡ true) ↔ (r.violation_count ≡ 0)
  pub retained : r.output_records ≤ r.violation_count
  pub sampled : r.output_records ≤ max_samples
  pub truncated_iff : (r.truncated ≡ true) ↔ (r.output_records < r.violation_count)

same_bool_iff : (a b : Bool) → same_bool a b ≡ true → (a ≡ true) ↔ (b ≡ true)
same_bool_iff a b e = ground arith

pub validate_result-IsCoherent :
    (r : ResultEvidence) (x : ExecutionEvidence)
    → (validate_result r x ≡ ok tt) ↔ IsCoherent r x.resources.max_samples
unfolding validate_result
validate_result-IsCoherent r x = (sound, complete)
  where
    valid_claim :
        same_bool r.valid (r.violation_count == 0) ≡ true
        → (r.valid ≡ true) ↔ (r.violation_count ≡ 0)
    valid_claim h = ground arith

    truncated_claim :
        same_bool r.truncated (ltb r.output_records r.violation_count) ≡ true
        → (r.truncated ≡ true) ↔ (r.output_records < r.violation_count)
    truncated_claim h = ground arith

    sound : validate_result r x ≡ ok tt → IsCoherent r x.resources.max_samples
    sound e =
        let (e3, truncated) = then-ok _ _ tt e in
        let (e2, sampled) = then-ok _ _ tt e3 in
        let (valid, retained) = then-ok _ _ tt e2 in
        record {
          valid_iff = valid_claim (last_check-ok _ _ valid);
          retained = leb→le _ _ (last_check-ok _ _ retained);
          sampled = leb→le _ _ (last_check-ok _ _ sampled);
          truncated_iff = truncated_claim (last_check-ok _ _ truncated);
        }

    complete : IsCoherent r x.resources.max_samples → validate_result r x ≡ ok tt
    complete c = ground (arith, c.valid_iff, c.retained, c.sampled, c.truncated_iff)

-- An envelope that validates is coherent: it is valid exactly when it counts no violations, it keeps no
-- more findings than there are violations or than the limits allow, and it is truncated exactly when it
-- keeps fewer than there are.
pub validate-IsCoherent :
    (e : EvidenceV2) → validate e ≡ ok tt → IsCoherent e.result e.execution.resources.max_samples
unfolding validate
validate-IsCoherent e h = (validate_result-IsCoherent e.result e.execution).0 (then-ok _ _ tt h).1
