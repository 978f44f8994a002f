-- ===== src/RunFile/RoundTrip.antt =====
-- What the cursor of distinct/run.rs reads from a run that `write_fixed` or `write_bytes` wrote.
use proofframe.Prelude.{
  ℕ, suc, ◌+◌, ◌-◌, ◌<◌, ◌≤◌, ◌≡◌, refl, sym, ◌∙◌, false, List, [], ◌∷◌, ◌++◌, none, some, length,
  length-append, arith, ltb, ◌==◌, All, append_assoc,
}
use proofframe.Error.{ok, ◌>>=◌}
use proofframe.Resource.{u64_mod}
use proofframe.RunFile.{ValueKind, OwnedValue, to_le_bytes, from_le_bytes, max_record_size}
use proofframe.RunFile.Bytes.{
  enough, length-to_le_bytes, from_le_bytes-to_le_bytes, read_exact_partition-append, bound,
}
use proofframe.RunFile.Cursor.{RunCursor, read_payload, read_string, read_value, read_record, next}

-- a cursor in front of its payload
abbrev pub at : ValueKind → ℕ → ℕ → List ℕ → RunCursor
at kind remaining payload reader = record {
  reader = reader;
  kind = kind;
  remaining = remaining;
  payload_remaining = payload;
}

pub read_payload-append :
    (kind : ValueKind) (remaining n q p : ℕ) (xs rest : List ℕ)
    → length xs ≡ n
    → q ≡ n + p
    → read_payload n (at kind remaining q (xs ++ rest)) ≡ ok (xs, at kind remaining p rest)
unfolding read_payload
read_payload-append kind remaining n q p xs rest long total =
    let left : q - n ≡ p = omega arith in
    rw (enough n q p total, read_exact_partition-append n xs rest long, left) refl

-- what a value occupies
abbrev pub value_bytes : OwnedValue → List ℕ
value_bytes (OwnedValue.i64 value) = to_le_bytes 8 value
value_bytes (OwnedValue.u64 value) = to_le_bytes 8 value
value_bytes (OwnedValue.f64 value) = to_le_bytes 8 value
value_bytes (OwnedValue.bytes value) = to_le_bytes 4 (length value) ++ value

abbrev pub kind_of : OwnedValue → ValueKind
kind_of (OwnedValue.i64 value) = ValueKind.i64
kind_of (OwnedValue.u64 value) = ValueKind.u64
kind_of (OwnedValue.f64 value) = ValueKind.f64
kind_of (OwnedValue.bytes value) = ValueKind.bytes

-- what the cursor can read
abbrev pub IsReadable : OwnedValue → Type 0
IsReadable (OwnedValue.i64 value) = value < u64_mod
IsReadable (OwnedValue.u64 value) = value < u64_mod
IsReadable (OwnedValue.f64 value) = value < u64_mod
IsReadable (OwnedValue.bytes value) = length value ≤ max_record_size

read_string-append :
    (kind : ValueKind) (remaining q p : ℕ) (xs rest : List ℕ)
    → length xs ≤ max_record_size
    → q ≡ length xs + p
    → 8 ≤ p
    → read_string (length xs) (at kind remaining q (xs ++ rest))
      ≡ ok (OwnedValue.bytes xs, at kind remaining p rest)
unfolding read_string
read_string-append kind remaining q p xs rest small total more =
    let short : ltb max_record_size (length xs) ≡ false = ground arith in
    let inside : ltb (q - 8) (length xs) ≡ false = ground arith in
    rw (short, inside, read_payload-append kind remaining (length xs) q p xs rest refl total) refl

read_fixed :
    {k : ValueKind} (remaining q p x : ℕ) (rest : List ℕ) (make : ℕ → OwnedValue)
    → x < u64_mod
    → q ≡ 8 + p
    → ◌>>=◌ {U = OwnedValue × RunCursor}
        (read_payload 8 (at k remaining q (to_le_bytes 8 x ++ rest)))
        (λ r. ok (make (from_le_bytes r.0), r.1))
      ≡ ok (make x, at k remaining p rest)
read_fixed {k} remaining q p x rest make small total =
    rw
      (
        read_payload-append k remaining 8 q p (to_le_bytes 8 x) rest (length-to_le_bytes 8 x) total,
        from_le_bytes-to_le_bytes 8 x small,
      )
      refl

read_value-append :
    (value : OwnedValue) (remaining q p : ℕ) (rest : List ℕ)
    → IsReadable value
    → q ≡ length (value_bytes value) + p
    → 8 ≤ p
    → read_value (kind_of value) (at (kind_of value) remaining q (value_bytes value ++ rest))
      ≡ ok (value, at (kind_of value) remaining p rest)
unfolding read_value
read_value-append (OwnedValue.i64 x) remaining q p rest small total more =
    read_fixed remaining q p x rest OwnedValue.i64 small (total ∙ rw (length-to_le_bytes 8 x) refl)
read_value-append (OwnedValue.u64 x) remaining q p rest small total more =
    read_fixed remaining q p x rest OwnedValue.u64 small (total ∙ rw (length-to_le_bytes 8 x) refl)
read_value-append (OwnedValue.f64 x) remaining q p rest small total more =
    read_fixed remaining q p x rest OwnedValue.f64 small (total ∙ rw (length-to_le_bytes 8 x) refl)
read_value-append (OwnedValue.bytes xs) remaining q p rest small total more =
    let prefix = to_le_bytes 4 (length xs) in
    let sizes : q ≡ 4 + (length xs + p) =
      omega (arith, total, length-append prefix xs, length-to_le_bytes 4 (length xs)) in
    let word : length xs < bound 4 = omega (arith, small) in
    rw
      (
        append_assoc prefix xs rest,
        read_payload-append ValueKind.bytes remaining 4 q (length xs + p) prefix (xs ++ rest)
            (length-to_le_bytes 4 (length xs)) sizes,
        from_le_bytes-to_le_bytes 4 (length xs) word,
      )
      (read_string-append ValueKind.bytes remaining (length xs + p) p xs rest small refl more)

read_record-append :
    (value : OwnedValue) (row remaining q p : ℕ) (rest : List ℕ)
    → IsReadable value
    → row < u64_mod
    → q ≡ length (value_bytes value) + (8 + p)
    → read_record
        (at (kind_of value) remaining q (value_bytes value ++ (to_le_bytes 8 row ++ rest)))
      ≡ ok (some (value, row), at (kind_of value) (remaining - 1) p rest)
unfolding read_record
read_record-append value row remaining q p rest readable small total =
    rw
      (
        read_value-append value remaining q (8 + p) (to_le_bytes 8 row ++ rest) readable total
            (omega arith),
        read_payload-append (kind_of value) remaining 8 (8 + p) p (to_le_bytes 8 row) rest
            (length-to_le_bytes 8 row) refl,
        from_le_bytes-to_le_bytes 8 row small,
      )
      refl

-- the bytes of a run's records
abbrev pub payload : List (OwnedValue × ℕ) → List ℕ
payload [] = []
payload ((value, row) ∷ records) = value_bytes value ++ (to_le_bytes 8 row ++ payload records)

-- The calls of `next` from a cursor answer these records, and then that none is left.
pub data Reads : RunCursor → List (OwnedValue × ℕ) → Type 0 where
  done : {c : RunCursor} → next c ≡ ok (none, c) → Reads c []
  more :
      {c c' : RunCursor} {r : OwnedValue × ℕ} {rs : List (OwnedValue × ℕ)}
      → next c ≡ ok (some r, c')
      → Reads c' rs
      → Reads c (r ∷ rs)

-- a record that fits a run of this kind
abbrev pub Fits : ValueKind → OwnedValue × ℕ → Type 0
Fits kind (value, row) = (kind_of value ≡ kind) × IsReadable value × (row < u64_mod)

next-end : (kind : ValueKind) → next (at kind 0 0 []) ≡ ok (none, at kind 0 0 [])
unfolding next
next-end kind = refl

next-payload :
    (kind : ValueKind) (r : OwnedValue × ℕ) (rs : List (OwnedValue × ℕ))
    → Fits kind r
    → next (at kind (suc (length rs)) (length (payload (r ∷ rs))) (payload (r ∷ rs)))
      ≡ ok (some r, at kind (length rs) (length (payload rs)) (payload rs))
unfolding next
next-payload kind (value, row) rs (same, readable, small) =
    let some_left : (suc (length rs) == 0) ≡ false = ground arith in
    let one_less : suc (length rs) - 1 ≡ length rs = omega arith in
    let tail = payload rs in
    let word = to_le_bytes 8 row in
    let sizes : length (payload ((value, row) ∷ rs))
        ≡ length (value_bytes value) + (8 + length tail) =
      omega (
        arith,
        length-append (value_bytes value) (word ++ tail),
        length-append word tail,
        length-to_le_bytes 8 row,
      ) in
    rw
      (
        some_left,
        sym same,
        read_record-append value row (suc (length rs)) (length (payload ((value, row) ∷ rs)))
            (length tail) tail readable small sizes,
        one_less,
      )
      refl

pub Reads-payload :
    (kind : ValueKind) (rs : List (OwnedValue × ℕ))
    → All (Fits kind) rs
    → Reads (at kind (length rs) (length (payload rs)) (payload rs)) rs
Reads-payload kind [] fits = Reads.done (next-end kind)
Reads-payload kind (r ∷ rs) (fit, fits) =
    Reads.more (next-payload kind r rs fit) (Reads-payload kind rs fits)
