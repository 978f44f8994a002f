-- ===== src/Keys.antt =====
-- The keys of execution/dataset_state.rs: the bytes that stand for the columns of a row in the rules of
-- composite and conditional uniqueness, and for one value in the rule of the dominant value.
pub mod Decode
pub mod Injective
mod Runs
use proofframe.Prelude.{
  ℕ, zero, suc, ◌+◌, Bool, true, false, ◌&&◌, ◌||◌, List, [], ◌∷◌, ◌++◌, Option, none, some, length,
  String, if◌then◌else◌,
}
use proofframe.Error.{Result, ok, err, ◌>>=◌, unsupported_type}
use proofframe.RunFile.{to_le_bytes}

-- the Arrow arrays whose values are plain numbers
pub data Primitive : Type 0 where
  i8 i16 i32 i64 u8 u16 u32 u64 f32 f64 date32 date64 : Primitive
  seconds milliseconds microseconds nanoseconds decimal128 : Primitive

pub data Text : Type 0 where
  utf8 large_utf8 utf8_view binary large_binary binary_view : Text

-- A number is its bits, of as many bytes as its type has. Another array has the text of the refusal.
pub data Values : Type 0 where
  numbers : Primitive → (ℕ → ℕ) → Values
  booleans : (ℕ → Bool) → Values
  texts : Text → (ℕ → List ℕ) → Values
  others : String → Values

-- A null slot has a value too, which no rule reads.
pub record Array : Type 0 where
  pub is_null : ℕ → Bool
  pub values : Values

abbrev pub width : Primitive → ℕ
width Primitive.i8 = 1
width Primitive.i16 = 2
width Primitive.i32 = 4
width Primitive.i64 = 8
width Primitive.u8 = 1
width Primitive.u16 = 2
width Primitive.u32 = 4
width Primitive.u64 = 8
width Primitive.f32 = 4
width Primitive.f64 = 8
width Primitive.date32 = 4
width Primitive.date64 = 8
width Primitive.decimal128 = 16
width _ = 8

abbrev pub tag : Primitive → ℕ
tag Primitive.i8 = 1
tag Primitive.i16 = 2
tag Primitive.i32 = 3
tag Primitive.i64 = 4
tag Primitive.u8 = 5
tag Primitive.u16 = 6
tag Primitive.u32 = 7
tag Primitive.u64 = 8
tag Primitive.f32 = 9
tag Primitive.f64 = 10
tag Primitive.date32 = 11
tag Primitive.date64 = 12
tag Primitive.seconds = 13
tag Primitive.milliseconds = 14
tag Primitive.microseconds = 15
tag Primitive.nanoseconds = 16
tag Primitive.decimal128 = 17

abbrev pub text_tag : Text → ℕ
text_tag Text.utf8 = 19
text_tag Text.large_utf8 = 20
text_tag Text.utf8_view = 28
text_tag Text.binary = 21
text_tag Text.large_binary = 22
text_tag Text.binary_view = 29

-- `append_bytes`
unfoldable pub append_bytes : List ℕ → ℕ → List ℕ → List ℕ
append_bytes output kind value = output ++ (kind ∷ (to_le_bytes 8 (length value) ++ value))

unfoldable pub append_scalar : Values → ℕ → List ℕ → Result (List ℕ)
unfolding append_bytes
append_scalar (numbers p value) row output =
    ok (output ++ (tag p ∷ to_le_bytes (width p) (value row)))
append_scalar (booleans value) row output = ok (output ++ (18 ∷ (if value row then 1 else 0) ∷ []))
append_scalar (texts t value) row output = ok (append_bytes output (text_tag t) (value row))
append_scalar (others data_type) row output = err (unsupported_type data_type)

-- one column of a key, and whether the rule rejects its null
unfoldable pub append_column : Bool → ℕ → Array → ℕ → List ℕ × Bool → Result (List ℕ × Bool)
unfolding append_scalar
append_column reject index array row (output, rejected) =
    if array.is_null row
    then ok (output ++ (to_le_bytes 8 index ++ (0 ∷ [])), rejected || reject)
    else (append_scalar array.values row (output ++ (to_le_bytes 8 index ++ (1 ∷ [])))
        >>= (λ appended. ok (appended, rejected)))

-- the loop over the columns of the rule, from the cleared scratch buffer
unfoldable pub append_columns :
    Bool → List ℕ → (ℕ → Array) → ℕ → List ℕ × Bool → Result (List ℕ × Bool)
unfolding append_column
append_columns reject [] batch row scratch = ok scratch
append_columns reject (c ∷ cs) batch row scratch =
    append_column reject c (batch c) row scratch
    >>= (λ scratch'. append_columns reject cs batch row scratch')

unfoldable pub composite_key : Bool → List ℕ → (ℕ → Array) → ℕ → Result (List ℕ × Bool)
unfolding append_columns
composite_key reject columns batch row = append_columns reject columns batch row ([], false)

-- the key of the rule of the dominant value
unfoldable pub value_key : Array → ℕ → Result (List ℕ)
unfolding append_scalar
value_key array row =
    if array.is_null row then ok (0 ∷ []) else append_scalar array.values row (1 ∷ [])
