-- ===== src/Rust/Text.antt =====
-- Rust's `String` and `Vec<u8>`. Both are byte sequences; a `String` is one that is valid UTF-8.
use Prim.Native.Char.{code}
use merabriar.Prelude.{ℕ, String, List, [], ◌∷◌, ℕ_discrete, Bool, true, false, ite}

abbrev pub Bytes : Type 0
Bytes = List ℕ

abbrev pub Text : Type 0
Text = Bytes

-- A literal of the source. All of them are ASCII, where a character is a byte.
abbrev pub text : String → Text
text String.[] = []
text (String.◌∷◌ c s) = code c ∷ text s

unfoldable pub Text_discrete : Discrete Text
unfolding ℕ_discrete
Text_discrete = hlevel ℕ_discrete

-- `ids.contains(&id)`
unfoldable pub contains : List Text → Text → Bool
contains [] t = false
contains (s ∷ l) t = ite (Text_discrete s t) true (contains l t)
