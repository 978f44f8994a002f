-- ===== src/Receipt/Strokes.antt =====
-- An encoding of bytes as text, for runs of the receipts.
use Prim.Native.Char.{code}
use Prim.Native.String.{String, [], ◌∷◌}
use mathlib.Core.List.{List}
use proofframe.Prelude.{ℕ, zero, suc, ◌+◌, ◌≡◌, refl, ap, ◌∙◌, arith, ◌==◌, if◌then◌else◌}

-- Bytes in strokes, each with a stop behind it.
ticks : ℕ → String → String
ticks zero s = "." ∷ s
ticks (suc n) s = "|" ∷ ticks n s

unfoldable pub encode : List ℕ → String
unfolding ticks
encode List.[] = []
encode (List.◌∷◌ n ns) = ticks n (encode ns)

unfoldable pub decode_from : ℕ → String → List ℕ
decode_from n [] = List.[]
decode_from n (c ∷ s) =
    if code c == b'.' then List.◌∷◌ n (decode_from 0 s) else decode_from (n + 1) s

decode_from-ticks :
    (n m : ℕ) (s : String) → decode_from m (ticks n s) ≡ List.◌∷◌ (m + n) (decode_from 0 s)
unfolding decode_from ticks
decode_from-ticks zero m s = ap (λ k. List.◌∷◌ k (decode_from 0 s)) (omega arith)
decode_from-ticks (suc n) m s =
    decode_from-ticks n (m + 1) s ∙ ap (λ k. List.◌∷◌ k (decode_from 0 s)) (omega arith)

pub decode-encode : (bytes : List ℕ) → decode_from 0 (encode bytes) ≡ bytes
unfolding encode decode_from
decode-encode List.[] = refl
decode-encode (List.◌∷◌ n ns) =
    decode_from-ticks n 0 (encode ns)
    ∙ ap (λ r. List.◌∷◌ (0 + n) r) (decode-encode ns)
    ∙ ap (λ k. List.◌∷◌ k ns) (omega arith)
