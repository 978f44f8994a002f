-- ===== src/Rules/Frequencies/Charge.antt =====
-- One more key in `Frequencies` of execution/total.rs: what it counts, and when the budget refuses it.
use proofframe.Prelude.{
  ℕ, zero, suc, ◌+◌, ◌-◌, ◌%◌, ◌^◌, ◌≤◌, ◌<◌, min, ◌≡◌, refl, sym, ap, ◌∙◌, ◌⊎◌, inl, inr, true,
  false, List, ◌∷◌, none, some, length, ltb, lt→ltb, leb, leb→le, ◌==◌, Bool-cases, Option-cases,
  if◌then◌else◌, arith,
}
use proofframe.Error.{ProofFrameError, ErrorCode, error_code, Result, ok, err, resource_limit}
use proofframe.Rules.Frequencies.{Frequencies, same_key, get, increment, cost, insert, add}
use proofframe.Rules.Frequencies.Maps.{
  occurrences, occurrences_le, counted, same_key_eq, Fresh, get-increment-other, get-increment-same,
  increment-Fresh,
}

-- The map counts the keys that were seen.
abbrev pub Tracks : List (List ℕ) → Frequencies → Type 0
Tracks seen f =
    ((key : List ℕ) → get key f.counts ≡ counted (occurrences key seen))
    × (f.total ≡ length seen)
    × Fresh f.counts

fits_suc : (n : ℕ) → suc n < 2 ^ 64 → (n + 1) % 2 ^ 64 ≡ suc n
fits_suc n fits = omega (arith, fits)

same_occurrences :
    (k key : List ℕ) (n : ℕ) (seen : List (List ℕ))
    → same_key k key ≡ true
    → occurrences key seen ≡ n
    → occurrences k seen ≡ n
same_occurrences k key n seen same many = rw (same_key_eq k key same) many

again :
    (key : List ℕ) (n : ℕ) (seen : List (List ℕ)) (f : Frequencies)
    → length seen + 1 < 2 ^ 64
    → occurrences key seen ≡ suc n
    → Tracks seen f
    → Tracks
        (key ∷ seen)
        (record f { counts = increment key f.counts; total = (f.total + 1) % 2 ^ 64 })
unfolding occurrences
again key n seen f fits many (tracks, total, fresh) =
    let few : suc (suc n) < 2 ^ 64 = omega (arith, fits, occurrences_le key seen, many) in
    let hit = get-increment-same key (suc n) f.counts (tracks key ∙ ap counted many) in
    (
      λ k. (elim (Bool-cases (same_key k key)) [
        | inl same ↦
            rw (same, same_key_eq k key same)
              (hit
                ∙ ap some (
                    fits_suc (suc n) few
                    ∙ ap suc (sym (same_occurrences k key (suc n) seen same many))))
        | inr differs ↦ rw differs (get-increment-other k key f.counts differs ∙ tracks k)
      ]),
      rw total (fits_suc (length seen) (omega (arith, fits))),
      increment-Fresh key f.counts fresh,
    )

first :
    (key : List ℕ) (used : ℕ) (seen : List (List ℕ)) (f : Frequencies)
    → length seen + 1 < 2 ^ 64
    → occurrences key seen ≡ 0
    → Tracks seen f
    → Tracks
        (key ∷ seen)
        (record f { counts = (key, 1) ∷ f.counts; total = (f.total + 1) % 2 ^ 64; used = used })
unfolding occurrences Fresh get
first key used seen f fits unseen (tracks, total, fresh) = (
  λ k. (elim (Bool-cases (same_key k key)) [
    | inl same ↦ rw (same, same_occurrences k key 0 seen same unseen) refl
    | inr differs ↦ rw differs (tracks k)
  ]),
  rw total (fits_suc (length seen) (omega (arith, fits))),
  (tracks key ∙ ap counted unseen, fresh),
)

-- One more key is counted exactly where the budget covers it.
abbrev pub Added : List ℕ → List (List ℕ) → Frequencies → Result Frequencies → Type 0
Added key seen f result =
    let charge = if occurrences key seen == 0 then cost key else 0 in
    ((f' : Frequencies) × (result ≡ ok f')
      × Tracks (key ∷ seen) f'
      × (f'.budget ≡ f.budget)
      × (f'.used ≡ f.used + charge)
      × (f'.used ≤ f.budget))
    ⊎ ((e : ProofFrameError) × (result ≡ err e)
        × (error_code e ≡ ErrorCode.resource_limit)
        × (f.budget < f.used + charge))

counted_none : (n : ℕ) → counted n ≡ none → n ≡ 0
counted_none zero e = refl
counted_none (suc n) e = cc

counted_some : (n m : ℕ) → counted n ≡ some m → n ≡ suc (n - 1)
counted_some zero m e = cc
counted_some (suc n) m e = omega arith

insert_fits :
    (key : List ℕ) (f : Frequencies)
    → f.budget < 2 ^ 64 - 1
    → f.used + cost key ≤ f.budget
    → insert key f ≡ ok (record f { counts = (key, 1) ∷ f.counts; used = f.used + cost key })
unfolding insert
insert_fits key f small room =
    let exact : min (f.used + cost key) (2 ^ 64 - 1) ≡ f.used + cost key =
      omega (arith, small, room) in
    let fits : ltb f.budget (f.used + cost key) ≡ false = ground arith in rw (exact, fits) refl

insert_over :
    (key : List ℕ) (f : Frequencies)
    → f.budget < 2 ^ 64 - 1
    → f.budget < f.used + cost key
    → (e : ProofFrameError) × (insert key f ≡ err e) × (error_code e ≡ ErrorCode.resource_limit)
unfolding insert error_code
insert_over key f small over =
    let full : ltb f.budget (min (f.used + cost key) (2 ^ 64 - 1)) ≡ true =
      lt→ltb f.budget (min (f.used + cost key) (2 ^ 64 - 1)) (omega (arith, small, over)) in
    (
      resource_limit "dominant_value_map" (cost key) (min (f.used + cost key) (2 ^ 64 - 1))
          f.budget,
      rw full refl,
      refl,
    )

pub add-Added :
    (key : List ℕ) (seen : List (List ℕ)) (f : Frequencies)
    → length seen + 1 < 2 ^ 64
    → f.budget < 2 ^ 64 - 1
    → f.used ≤ f.budget
    → Tracks seen f
    → Added key seen f (add key f)
unfolding add insert
add-Added key seen f fits small within tracks = elim (Option-cases (get key f.counts)) [
  | inl absent ↦
      let unseen = counted_none (occurrences key seen) (sym (tracks.0 key) ∙ absent) in
      let f' = record f { total = (f.total + 1) % 2 ^ 64 } in
      elim (Bool-cases (leb (f.used + cost key) f.budget)) [
        | inl room ↦
            let fits_now = leb→le (f.used + cost key) f.budget room in
            inl (
              _,
              rw (add, absent) (insert_fits key f' small fits_now),
              first key (f.used + cost key) seen f fits unseen tracks,
              refl,
              rw unseen refl,
              fits_now,
            )
        | inr full ↦
            let (e, refused, code) = insert_over key f' small (ground arith) in
            inr (e, rw (add, absent) refused, code, rw unseen (ground arith))
      ]
  | inr (n, found) ↦
      let many = counted_some (occurrences key seen) n (sym (tracks.0 key) ∙ found) in
      inl (
        _,
        rw (add, found) refl,
        again key (occurrences key seen - 1) seen f fits many tracks,
        refl,
        rw many (grind arith),
        within,
      )
]
