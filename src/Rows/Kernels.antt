-- ===== src/Rows/Kernels.antt =====
-- The kernels of contract/compile.rs, and the text of their derived `Debug`.
use Prim.Native.String.{◌++◌ as ◌then_text◌}
use proofframe.Prelude.{
  ℕ, ◌≡◌, refl, zero, suc, ◌+◌, ◌/◌, ◌%◌, List, [], ◌∷◌, get_elem?, Option, none, some, String, ltb,
  if◌then◌else◌,
}
use proofframe.Rules.Ordering.{ℤ, pos, negsuc}

-- the units of Arrow's timestamps
pub data TimeUnit : Type 0 where
  second millisecond microsecond nanosecond : TimeUnit

-- A decimal has its precision and its scale.
pub data KernelKind : Type 0 where
  boolean i8 i16 i32 i64 u8 u16 u32 u64 f32 f64 date32 date64 : KernelKind
  decimal128 : ℕ → ℤ → KernelKind
  timestamp : TimeUnit → KernelKind
  utf8 large_utf8 utf8_view binary large_binary binary_view nested null_only : KernelKind

abbrev digits : List String
digits = "0" ∷ "1" ∷ "2" ∷ "3" ∷ "4" ∷ "5" ∷ "6" ∷ "7" ∷ "8" ∷ "9" ∷ []

abbrev digit_text : ℕ → String
digit_text n = elim (get_elem? digits n) [ some d ↦ d | none ↦ "" ]

-- A number of one byte has three digits at most.
unfoldable decimal_text : ℕ → ℕ → String
decimal_text zero n = digit_text n
decimal_text (suc fuel) n =
    let front = decimal_text fuel (n / 10) in
    if ltb n 10 then digit_text n else (front then_text digit_text (n % 10))

unfoldable scale_text : ℤ → String
unfolding decimal_text
scale_text (pos n) = decimal_text 2 n
scale_text (negsuc n) = "-" then_text decimal_text 2 (n + 1)

abbrev unit_text : TimeUnit → String
unit_text second = "Second"
unit_text millisecond = "Millisecond"
unit_text microsecond = "Microsecond"
unit_text nanosecond = "Nanosecond"

unfoldable pub kernel_text : KernelKind → String
unfolding scale_text
kernel_text boolean = "Boolean"
kernel_text i8 = "I8"
kernel_text i16 = "I16"
kernel_text i32 = "I32"
kernel_text i64 = "I64"
kernel_text u8 = "U8"
kernel_text u16 = "U16"
kernel_text u32 = "U32"
kernel_text u64 = "U64"
kernel_text f32 = "F32"
kernel_text f64 = "F64"
kernel_text date32 = "Date32"
kernel_text date64 = "Date64"
kernel_text (decimal128 precision scale) =
    "Decimal128 { precision: "
    then_text decimal_text 2 precision
    then_text ", scale: "
    then_text scale_text scale
    then_text " }"
kernel_text (timestamp unit) = "Timestamp(" then_text unit_text unit then_text ")"
kernel_text utf8 = "Utf8"
kernel_text large_utf8 = "LargeUtf8"
kernel_text utf8_view = "Utf8View"
kernel_text binary = "Binary"
kernel_text large_binary = "LargeBinary"
kernel_text binary_view = "BinaryView"
kernel_text nested = "Nested"
kernel_text null_only = "NullOnly"

-- `{:?}` of an `Option<&KernelKind>`
unfoldable pub option_text : Option KernelKind → String
unfolding kernel_text
option_text none = "None"
option_text (some kernel) = "Some(" then_text kernel_text kernel then_text ")"

decimal_named :
    option_text (some (decimal128 38 (negsuc 1))) ≡ "Some(Decimal128 { precision: 38, scale: -2 })"
unfolding option_text
decimal_named = refl
