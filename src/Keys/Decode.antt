-- ===== src/Keys/Decode.antt =====
-- The keys of execution/dataset_state.rs can be read back, so that equal keys are equal values.
use proofframe.Prelude.{
  ℕ, ◌<◌, ◌≡◌, refl, ap, ap₂, subst, ◌∙◌, Bool, true, false, List, [], ◌∷◌, ◌++◌, Option, none,
  some, length, take, drop, ◌==◌, if◌then◌else◌, append_assoc,
}
use proofframe.RunFile.{to_le_bytes, from_le_bytes}
use proofframe.RunFile.Bytes.{
  bound, length-to_le_bytes, from_le_bytes-to_le_bytes, take-append, drop-append,
}
use proofframe.Keys.{
  Primitive, Text, Values, numbers, booleans, texts, others, Array, width, tag, text_tag,
}

-- a value with its type
pub data Scalar : Type 0 where
  number : Primitive → ℕ → Scalar
  truth : Bool → Scalar
  text : Text → List ℕ → Scalar
  untyped : Scalar

abbrev pub scalar : Values → ℕ → Scalar
scalar (numbers p value) row = number p (value row)
scalar (booleans value) row = truth (value row)
scalar (texts t value) row = text t (value row)
scalar (others data_type) row = untyped

-- what a rule sees in a row of a column: nothing where it is null
abbrev pub cell : Array → ℕ → Option Scalar
cell array row = if array.is_null row then none else some (scalar array.values row)

-- A number fits its type, and a text has a length in u64.
abbrev pub FitsType : Values → ℕ → Type 0
FitsType (numbers p value) row = value row < bound (width p)
FitsType (texts t value) row = length (value row) < bound 8
FitsType _ row = Unit

abbrev pub primitive_of : ℕ → Option Primitive
primitive_of t =
    if t == 1
    then some Primitive.i8
    else if t == 2
    then some Primitive.i16
    else if t == 3
    then some Primitive.i32
    else if t == 4
    then some Primitive.i64
    else if t == 5
    then some Primitive.u8
    else if t == 6
    then some Primitive.u16
    else if t == 7
    then some Primitive.u32
    else if t == 8
    then some Primitive.u64
    else if t == 9
    then some Primitive.f32
    else if t == 10
    then some Primitive.f64
    else if t == 11
    then some Primitive.date32
    else if t == 12
    then some Primitive.date64
    else if t == 13
    then some Primitive.seconds
    else if t == 14
    then some Primitive.milliseconds
    else if t == 15
    then some Primitive.microseconds
    else if t == 16
    then some Primitive.nanoseconds
    else if t == 17
    then some Primitive.decimal128
    else none

abbrev pub text_of : ℕ → Option Text
text_of t =
    if t == 19
    then some Text.utf8
    else if t == 20
    then some Text.large_utf8
    else if t == 28
    then some Text.utf8_view
    else if t == 21
    then some Text.binary
    else if t == 22
    then some Text.large_binary
    else if t == 29
    then some Text.binary_view
    else none

-- a text from its length and its bytes, with what follows
abbrev pub read_text : Text → List ℕ → Scalar × List ℕ
read_text t bytes =
    let size = from_le_bytes (take 8 bytes) in
    (text t (take size (drop 8 bytes)), drop size (drop 8 bytes))

abbrev pub read_number : Primitive → List ℕ → Scalar × List ℕ
read_number p bytes = (number p (from_le_bytes (take (width p) bytes)), drop (width p) bytes)

abbrev pub read_truth : List ℕ → Option (Scalar × List ℕ)
read_truth [] = none
read_truth (b ∷ rest) = some (truth (b == 1), rest)

abbrev pub or_else : Option Primitive → Option Text → List ℕ → Option (Scalar × List ℕ)
or_else (some p) t bytes = some (read_number p bytes)
or_else none (some t) bytes = some (read_text t bytes)
or_else none none bytes = read_truth bytes

unfoldable pub decode_scalar : List ℕ → Option (Scalar × List ℕ)
decode_scalar [] = none
decode_scalar (t ∷ bytes) = or_else (primitive_of t) (text_of t) bytes

-- the bytes of a value, as `append_scalar` appends them
abbrev pub encode_scalar : Scalar → List ℕ
encode_scalar (number p n) = tag p ∷ to_le_bytes (width p) n
encode_scalar (truth b) = 18 ∷ (if b then 1 else 0) ∷ []
encode_scalar (text t bytes) = text_tag t ∷ (to_le_bytes 8 (length bytes) ++ bytes)
encode_scalar untyped = []

primitive_of-tag : (p : Primitive) → primitive_of (tag p) ≡ some p
primitive_of-tag Primitive.i8 = refl
primitive_of-tag Primitive.i16 = refl
primitive_of-tag Primitive.i32 = refl
primitive_of-tag Primitive.i64 = refl
primitive_of-tag Primitive.u8 = refl
primitive_of-tag Primitive.u16 = refl
primitive_of-tag Primitive.u32 = refl
primitive_of-tag Primitive.u64 = refl
primitive_of-tag Primitive.f32 = refl
primitive_of-tag Primitive.f64 = refl
primitive_of-tag Primitive.date32 = refl
primitive_of-tag Primitive.date64 = refl
primitive_of-tag Primitive.seconds = refl
primitive_of-tag Primitive.milliseconds = refl
primitive_of-tag Primitive.microseconds = refl
primitive_of-tag Primitive.nanoseconds = refl
primitive_of-tag Primitive.decimal128 = refl

text_of-text_tag : (t : Text) → (primitive_of (text_tag t) ≡ none) × (text_of (text_tag t) ≡ some t)
text_of-text_tag Text.utf8 = (refl, refl)
text_of-text_tag Text.large_utf8 = (refl, refl)
text_of-text_tag Text.utf8_view = (refl, refl)
text_of-text_tag Text.binary = (refl, refl)
text_of-text_tag Text.large_binary = (refl, refl)
text_of-text_tag Text.binary_view = (refl, refl)

-- A number of n bytes in front of others is read back.
pub read_front :
    (n x : ℕ) (rest : List ℕ)
    → x < bound n
    → (from_le_bytes (take n (to_le_bytes n x ++ rest)) ≡ x)
      × (drop n (to_le_bytes n x ++ rest) ≡ rest)
read_front n x rest small =
    let long = length-to_le_bytes n x in
    let first : take n (to_le_bytes n x ++ rest) ≡ to_le_bytes n x =
      subst (λ m. take m (to_le_bytes n x ++ rest) ≡ to_le_bytes n x) long
        (take-append (to_le_bytes n x) rest) in
    let second : drop n (to_le_bytes n x ++ rest) ≡ rest =
      subst (λ m. drop m (to_le_bytes n x ++ rest) ≡ rest) long
        (drop-append (to_le_bytes n x) rest) in
    (ap from_le_bytes first ∙ from_le_bytes-to_le_bytes n x small, second)

-- a value that has a type, and fits it
abbrev pub FitsScalar : Scalar → Type 0
FitsScalar (number p n) = n < bound (width p)
FitsScalar (truth b) = Unit
FitsScalar (text t bytes) = length bytes < bound 8
FitsScalar untyped = ⊥

pub decode_scalar-encode_scalar :
    (s : Scalar) (rest : List ℕ)
    → FitsScalar s
    → decode_scalar (encode_scalar s ++ rest) ≡ some (s, rest)
unfolding decode_scalar
decode_scalar-encode_scalar (number p n) rest fits =
    let (value, behind) = read_front (width p) n rest fits in
    rw (primitive_of-tag p) (ap some (ap₂ (λ x r. (number p x, r)) value behind))
decode_scalar-encode_scalar (truth true) rest fits = refl
decode_scalar-encode_scalar (truth false) rest fits = refl
decode_scalar-encode_scalar (text t bytes) rest fits =
    let (size, body) = read_front 8 (length bytes) (bytes ++ rest) fits in
    let bytes' : take (from_le_bytes (take 8 (to_le_bytes 8 (length bytes) ++ (bytes ++ rest))))
          (drop 8 (to_le_bytes 8 (length bytes) ++ (bytes ++ rest)))
        ≡ bytes =
      ap₂ (λ m r. take m r) size body ∙ take-append bytes rest in
    let rest' : drop (from_le_bytes (take 8 (to_le_bytes 8 (length bytes) ++ (bytes ++ rest))))
          (drop 8 (to_le_bytes 8 (length bytes) ++ (bytes ++ rest)))
        ≡ rest =
      ap₂ (λ m r. drop m r) size body ∙ drop-append bytes rest in
    rw ((text_of-text_tag t).0, (text_of-text_tag t).1)
      (ap some (
        ap (read_text t) (append_assoc (to_le_bytes 8 (length bytes)) bytes rest)
        ∙ ap₂ (λ a b. (text t a, b)) bytes' rest'))
decode_scalar-encode_scalar untyped rest fits = absurd fits
