-- ===== src/Rust/Utf8.antt =====
-- `String::from_utf8`: the byte sequences that are well-formed UTF-8.
use merabriar.Prelude.{
  ℕ, Bool, true, false, ◌&&◌, List, [], ◌∷◌, Option, none, some, ltb, leb, if◌then◌else◌,
}
use merabriar.Rust.Text.{Bytes, Text}
use merabriar.Rust.Result.{Result, ok, err}

-- The ranges of the continuation bytes that a lead byte asks for.
continuations : ℕ → Option (List (ℕ × ℕ))
continuations b =
    if ltb b 0x80
    then some []
    else if ltb b 0xC2
    then none
    else if leb b 0xDF
    then some ((0x80, 0xBF) ∷ [])
    else if leb b 0xE0
    then some ((0xA0, 0xBF) ∷ (0x80, 0xBF) ∷ [])
    else if leb b 0xEC
    then some ((0x80, 0xBF) ∷ (0x80, 0xBF) ∷ [])
    else if leb b 0xED
    then some ((0x80, 0x9F) ∷ (0x80, 0xBF) ∷ [])
    else if leb b 0xEF
    then some ((0x80, 0xBF) ∷ (0x80, 0xBF) ∷ [])
    else if leb b 0xF0
    then some ((0x90, 0xBF) ∷ (0x80, 0xBF) ∷ (0x80, 0xBF) ∷ [])
    else if leb b 0xF3
    then some ((0x80, 0xBF) ∷ (0x80, 0xBF) ∷ (0x80, 0xBF) ∷ [])
    else if leb b 0xF4
    then some ((0x80, 0x8F) ∷ (0x80, 0xBF) ∷ (0x80, 0xBF) ∷ [])
    else none

-- The ranges are those still owed to the last lead byte.
well_formed : List (ℕ × ℕ) → Bytes → Bool
well_formed [] [] = true
well_formed (_ ∷ _) [] = false
well_formed ((lo, hi) ∷ owed) (b ∷ bs) = leb lo b && leb b hi && well_formed owed bs
well_formed [] (b ∷ bs) = elim (continuations b) [ none ↦ false | some owed ↦ well_formed owed bs ]

unfoldable pub is_utf8 : Bytes → Bool
unfolding continuations well_formed
is_utf8 = well_formed []

-- The error's text is that of the library's `FromUtf8Error`, a parameter.
abbrev pub from_utf8 : (Bytes → Text) → Bytes → Result Text
from_utf8 explain bs = if is_utf8 bs then ok bs else err (explain bs)
