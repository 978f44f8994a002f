-- ===== src/Validation/Findings.antt =====
-- Which findings a validation reports: `record_lazy` and `finish`, over a run of violations.
use proofframe.Prelude.{
  ℕ, zero, suc, ◌+◌, ◌%◌, ◌≤◌, ◌<◌, ◌≡◌, refl, sym, ap, ◌∙◌, Bool, true, false, List, [], ◌∷◌, ◌++◌,
  Option, none, some, arith, length, length-append, take, ltb, Bool-cases, inl, inr, String,
  Option-cases, append_assoc, append-nil, length-take, min,
}
use proofframe.Error.{Result, ok, err, ProofFrameError}
use proofframe.Resource.{u64_mod, Heap, ResourceAccount, Reservation, try_reserve_memory}
use proofframe.Validation.{
  Finding, ValidationState, ValidationOutcome, new, new_accounted, push, count_violations,
  keep_reservation, reserve_with, reserve_finding, push_if, record_finding, record_lazy, record_all,
  finish, check_resources, prepare_evaluated, replicate_zero, finding_bytes,
}

take-all : {A : Type 0} (m : ℕ) (xs : List A) → length xs ≤ m → take m xs ≡ xs
take-all zero [] le = refl
take-all zero (x ∷ xs) le = ground arith
take-all (suc m) [] le = refl
take-all (suc m) (x ∷ xs) le = ap (λ r. x ∷ r) (take-all m xs (omega (arith, le)))

take-append : {A : Type 0} (m : ℕ) (xs ys : List A) → m ≤ length xs → take m (xs ++ ys) ≡ take m xs
take-append zero xs ys le = refl
take-append (suc m) [] ys le = ground arith
take-append (suc m) (x ∷ xs) ys le = ap (λ r. x ∷ r) (take-append m xs ys (omega (arith, le)))

-- What a reservation of memory for a finding leaves as it is, and what its success shows.
pub record IsKept (v : ValidationState) (ok_to_push : Bool) (v' : ValidationState) : Type 0 where
  pub findings : v'.findings ≡ v.findings
  pub counted : v'.violation_count ≡ v.violation_count
  pub limit : v'.max_findings ≡ v.max_findings
  pub evaluated : v'.evaluated ≡ v.evaluated
  pub clean : v'.resource_error ≡ none → (v.resource_error ≡ none) × (ok_to_push ≡ true)

-- A state after the violations `seen`: they are all counted, and unless memory was refused, the first
-- of them are kept.
record IsAfter (m : ℕ) (es : List ℕ) (seen : List Finding) (v : ValidationState) : Type 0 where
  limit : v.max_findings ≡ m
  evaluated : v.evaluated ≡ es
  counted : v.violation_count ≡ length seen
  kept : v.resource_error ≡ none → v.findings ≡ take m seen
  within : length v.findings ≤ length seen

take-push :
    (m : ℕ) (seen : List Finding) (f : Finding)
    → length (take m seen) < m
    → take m seen ++ f ∷ [] ≡ take m (seen ++ f ∷ [])
take-push m seen f room =
    let short : length seen < m = omega (arith, length-take m seen, room) in
    rw
      (
        take-all m seen (omega (arith, short)),
        take-all m (seen ++ f ∷ []) (omega (arith, length-append seen (f ∷ []), short)),
      )
      refl

push_if-IsAfter :
    (m : ℕ) (es : List ℕ) (seen : List Finding) (f : Finding) (v : ValidationState) (b : Bool)
    (v' : ValidationState) (h : Heap)
    → IsAfter m es seen v
    → length seen + 1 < u64_mod
    → length v.findings < m
    → IsKept (count_violations 1 v) b v'
    → IsAfter m es (seen ++ f ∷ []) (push_if f (b, v', h)).0
unfolding push_if push count_violations
push_if-IsAfter m es seen f v true v' h a small room k = record {
  limit = k.limit ∙ a.limit;
  evaluated = k.evaluated ∙ a.evaluated;
  counted = k.counted ∙ omega (arith, a.counted, small, length-append seen (f ∷ []));
  kept = λ e.
      let same : v.findings ≡ take m seen = a.kept (k.clean e).0 in
      ap (λ l. l ++ f ∷ []) (k.findings ∙ same)
      ∙ take-push m seen f (omega (arith, room, ap length same));
  within = omega (
    arith,
    length-append v'.findings (f ∷ []),
    length-append seen (f ∷ []),
    ap length k.findings,
    a.within,
  );
}
push_if-IsAfter m es seen f v false v' h a small room k = record {
  limit = k.limit ∙ a.limit;
  evaluated = k.evaluated ∙ a.evaluated;
  counted = k.counted ∙ omega (arith, a.counted, small, length-append seen (f ∷ []));
  kept = λ e. let (_, clash) = k.clean e in cc;
  within = omega (arith, length-append seen (f ∷ []), ap length k.findings, a.within);
}

full-IsAfter :
    (m : ℕ) (es : List ℕ) (seen : List Finding) (f : Finding) (v : ValidationState)
    → IsAfter m es seen v
    → length seen + 1 < u64_mod
    → m ≤ length v.findings
    → IsAfter m es (seen ++ f ∷ []) (count_violations 1 v)
unfolding count_violations
full-IsAfter m es seen f v a small full = record {
  limit = a.limit;
  evaluated = a.evaluated;
  counted = omega (arith, a.counted, small, length-append seen (f ∷ []));
  kept = λ e.
      a.kept e
      ∙ sym (
          take-append m seen (f ∷ [])
            (omega (arith, full, ap length (a.kept e), length-take m seen)));
  within = omega (arith, length-append seen (f ∷ []), a.within);
}

-- the state in which a validation of some column plans starts
abbrev pub start : ℕ → ℕ → ResourceAccount → ValidationState
start m plans account = prepare_evaluated plans (new_accounted m account)

start-IsAfter :
    (m plans : ℕ) (account : ResourceAccount)
    → IsAfter m (replicate_zero plans) [] (start m plans account)
unfolding prepare_evaluated new_accounted new
start-IsAfter m plans account = record {
  limit = refl;
  evaluated = refl;
  counted = refl;
  kept = λ e. sym (take-all m [] (omega arith));
  within = omega arith;
}

no-error : (v : ValidationState) → (check_resources v).0 ≡ ok tt → v.resource_error ≡ none
unfolding check_resources
no-error v ended = elim (Option-cases v.resource_error) [
  | inl quiet ↦ quiet
  | inr (e, set) ↦ let clash : Result.err e ≡ ok tt = (rw set at ended) in cc
]

-- what the outcome of a run of violations is to say
abbrev pub summary : ℕ → ℕ → List Finding → ValidationOutcome
summary m plans fs = record {
  findings = take m fs;
  violation_count = length fs;
  truncated = ltb m (length fs);
  evaluated = replicate_zero plans;
}

finish-IsAfter :
    (m plans : ℕ) (fs : List Finding) (v : ValidationState)
    → IsAfter m (replicate_zero plans) fs v
    → v.resource_error ≡ none
    → finish v ≡ summary m plans fs
unfolding finish
finish-IsAfter m plans fs v a quiet =
    rw (a.kept quiet, a.counted, a.evaluated, length-take m fs, truncated-take m (length fs)) refl
  where
    truncated-take : (m n : ℕ) → ltb (min m n) n ≡ ltb m n
    truncated-take m n = ground arith

module _ (string_capacity : String → ℕ) where
  keep_reservation-IsKept :
      (v : ValidationState) (r : Result Reservation × Heap)
      → v.resource_error ≡ none
      → IsKept v (keep_reservation r v).0 (keep_reservation r v).1
  unfolding keep_reservation
  keep_reservation-IsKept v (ok r, h) e = record {
    findings = refl;
    counted = refl;
    limit = refl;
    evaluated = refl;
    clean = λ c. (e, refl);
  }
  keep_reservation-IsKept v (err x, h) e = record {
    findings = refl;
    counted = refl;
    limit = refl;
    evaluated = refl;
    clean = λ c. cc;
  }

  pub reserve_with-IsKept :
      (memory : Option ResourceAccount) (error : Option ProofFrameError) (f : Finding)
      (v : ValidationState) (h : Heap)
      → v.resource_error ≡ error
      → IsKept v
          (reserve_with string_capacity memory error f v h).0
          (reserve_with string_capacity memory error f v h).1
  unfolding reserve_with
  reserve_with-IsKept none error f v h e = record {
    findings = refl;
    counted = refl;
    limit = refl;
    evaluated = refl;
    clean = λ c. (c, refl);
  }
  reserve_with-IsKept (some a) none f v h e =
      keep_reservation-IsKept v (try_reserve_memory a (finding_bytes string_capacity f v) h) e
  reserve_with-IsKept (some a) (some x) f v h e = record {
    findings = refl;
    counted = refl;
    limit = refl;
    evaluated = refl;
    clean = λ c. cc;
  }

  push_if-counted :
      (f : Finding) (b : Bool) (v : ValidationState) (h : Heap)
      → (push_if f (b, v, h)).0.violation_count ≡ v.violation_count
  unfolding push_if push
  push_if-counted f true v h = refl
  push_if-counted f false v h = refl

  -- every violation is counted, whatever becomes of its finding
  pub record_lazy-counted :
      (f : Finding) (v : ValidationState) (h : Heap)
      → (record_lazy string_capacity f v h).0.violation_count ≡ (v.violation_count + 1) % u64_mod
  unfolding record_lazy record_finding reserve_finding count_violations
  record_lazy-counted f v h = elim (Bool-cases (ltb (length v.findings) v.max_findings)) [
    | inl room ↦ rw room (
        push_if-counted f _ _ _
        ∙ (reserve_with-IsKept v.finding_memory v.resource_error f (count_violations 1 v) h
            refl).counted)
    | inr full ↦ rw full refl
  ]

  pub record_all-counted :
      (fs : List Finding) (v : ValidationState) (h : Heap)
      → v.violation_count + length fs < u64_mod
      → (record_all string_capacity fs v h).0.violation_count ≡ v.violation_count + length fs
  unfolding record_all
  record_all-counted [] v h small = omega arith
  record_all-counted (f ∷ fs) v h small =
      let (v', h') = record_lazy string_capacity f v h in
      let here = record_lazy-counted f v h in
      omega (arith, small, here, record_all-counted fs v' h' (omega (arith, small, here)))

  record_lazy-IsAfter :
      (m : ℕ) (es : List ℕ) (seen : List Finding) (f : Finding) (v : ValidationState) (h : Heap)
      → IsAfter m es seen v
      → length seen + 1 < u64_mod
      → IsAfter m es (seen ++ f ∷ []) (record_lazy string_capacity f v h).0
  unfolding record_lazy record_finding reserve_finding count_violations
  record_lazy-IsAfter m es seen f v h a small =
      elim (Bool-cases (ltb (length v.findings) v.max_findings)) [
        | inl room ↦ rw room (
            push_if-IsAfter m es seen f v _ _ _ a small (ground arith) (
              reserve_with-IsKept v.finding_memory v.resource_error f (count_violations 1 v) h
                refl))
        | inr full ↦ rw full (full-IsAfter m es seen f v a small (ground (arith, a.limit)))
      ]

  record_all-IsAfter :
      (m : ℕ) (es : List ℕ) (fs seen : List Finding) (v : ValidationState) (h : Heap)
      → IsAfter m es seen v
      → length seen + length fs < u64_mod
      → IsAfter m es (seen ++ fs) (record_all string_capacity fs v h).0
  unfolding record_all
  record_all-IsAfter m es [] seen v h a small = rw append-nil a
  record_all-IsAfter m es (f ∷ fs) seen v h a small =
      let after = record_lazy-IsAfter m es seen f v h a (omega (arith, small)) in
      let (v', h') = record_lazy string_capacity f v h in
      rw (sym (append_assoc seen (f ∷ []) fs)) (
        record_all-IsAfter m es fs (seen ++ f ∷ []) v' h' after
          (omega (arith, small, length-append seen (f ∷ []))))

  -- After any run of fewer than 2 ^ 64 violations, whatever memory the account of the findings has:
  -- unless memory was refused, which `check_resources` then reports as the error of the run, the
  -- outcome counts all the violations, keeps the first `max_findings` of them in their order, and says
  -- that it is truncated exactly when there are more.
  pub finish-record_all :
      (m plans : ℕ) (account : ResourceAccount) (fs : List Finding) (h : Heap)
      → length fs < u64_mod
      → (check_resources (record_all string_capacity fs (start m plans account) h).0).0 ≡ ok tt
      → finish (record_all string_capacity fs (start m plans account) h).0 ≡ summary m plans fs
  finish-record_all m plans account fs h small quiet =
      finish-IsAfter m plans fs _
        (record_all-IsAfter m (replicate_zero plans) fs [] (start m plans account) h
          (start-IsAfter m plans account) (omega (arith, small)))
        (no-error _ quiet)
