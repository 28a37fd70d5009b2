-- ===== src/Text.antt =====
-- The operations of Go's package strings that the program uses, over the native texts.
pub mod Decimal
pub mod Bytes
use Prim.Native.Char.{code}
use Prim.Native.String.{String}
use Prim.Native.String
use text.Mathlib.TextLemmas.{nil-append, cons-append}
use secrets_dispatcher.Prelude.{
  ℕ, ◌≡◌, refl, ap, ◌++◌, ◌∙◌, Bool, true, false, Option, none, some, List, [], ◌∷◌, eqb,
  if◌then◌else◌,
}

-- The code points of a text: its bytes, if it is ASCII.
abbrev pub codes : String → List ℕ
codes String.[] = []
codes (String.◌∷◌ c s) = code c ∷ codes s

-- `strings.CutPrefix`: what follows the prefix, if the text begins with it.
unfoldable pub cut_prefix : String → String → Option String
cut_prefix String.[] s = some s
cut_prefix (String.◌∷◌ p ps) String.[] = none
cut_prefix (String.◌∷◌ p ps) (String.◌∷◌ c s) =
    if eqb (code p) (code c) then cut_prefix ps s else none

-- `strings.HasPrefix s prefix`.
unfoldable pub has_prefix : String → String → Bool
unfolding cut_prefix
has_prefix s prefix = elim (cut_prefix prefix s) [ none ↦ false | some _ ↦ true ]

-- `before, _, _ := strings.Cut(s, c)` for a one-character separator, and the whole text without one.
unfoldable pub before : ℕ → String → String
before sep String.[] = ""
before sep (String.◌∷◌ c s) = if eqb (code c) sep then "" else String.◌∷◌ c (before sep s)

test_cut : before b'/' "login/1" ≡ "login"
unfolding before
test_cut = refl

-- `a + b + …`, and the pieces that `fmt.Sprintf` writes one after another.
abbrev pub concat : List String → String
concat [] = ""
concat (s ∷ ss) = String.◌++◌ s (concat ss)

-- `strings.Join`.
unfoldable pub join_texts : String → List String → String
join_texts sep [] = ""
join_texts sep (s ∷ []) = s
join_texts sep (s ∷ t ∷ ss) = String.◌++◌ s (String.◌++◌ sep (join_texts sep (t ∷ ss)))

pub codes-append : (s t : String) → codes (String.◌++◌ s t) ≡ codes s ++ codes t
codes-append String.[] t = ap codes (nil-append t)
codes-append (String.◌∷◌ c s) t =
    ap codes (cons-append c s t) ∙ ap (◌∷◌ (code c)) (codes-append s t)
