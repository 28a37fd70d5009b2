-- ===== src/Text/Bytes.antt =====
-- Go's conversions between a text and its bytes. A byte is the character of that number, so that a text
-- has one character for each of its bytes.
use Prim.Native.Nat.{Ordering, lt, compare}
use Prim.Native.Char.{Char, char, nul}
use Prim.Native.String.{String}
use secrets_dispatcher.Prelude.{ℕ, ◌≡◌, refl, List, [], ◌∷◌}

abbrev pub scalar_char : (n : ℕ) (o : Ordering) → compare n 55296 ≡ o → Char
scalar_char n lt e = char n (rw e tt)
scalar_char n _ e = nul

-- The character of a byte.
unfoldable pub byte_char : ℕ → Char
byte_char n = scalar_char n (compare n 55296) refl

-- `string(bytes)`.
unfoldable pub text_of : List ℕ → String
unfolding byte_char
text_of [] = ""
text_of (b ∷ bs) = String.◌∷◌ (byte_char b) (text_of bs)

runs : text_of (97 ∷ 98 ∷ []) ≡ "ab"
unfolding text_of
runs = refl
