-- ===== src/Error/Runs.antt =====
-- What the theorem on the codes of error.rs says of two equal spellings.
use proofframe.Prelude.{◌≡◌, refl}
use proofframe.Error.{ErrorCode}
use proofframe.Error.Codes.{as_str-injective}

as_str-injective_example : ErrorCode.cancelled ≡ ErrorCode.cancelled
as_str-injective_example = as_str-injective ErrorCode.cancelled ErrorCode.cancelled refl
