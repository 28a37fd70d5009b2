-- ===== src/Notification/Markup/Escaped.antt =====
-- internal/notification/desktop.go: the escaping of markup loses nothing, and leaves no tag.
use Prim.Native.Char.{Char, code}
use mathlib.Core.List.{append-nil}
use secrets_dispatcher.Prelude.{
  ℕ, suc, zero, String, ◌≡◌, refl, sym, ap, ap₂, ◌∙◌, inl, inr, List, [], ◌∷◌, ◌++◌, eqb, eqb_iff,
  Bool-cases, if◌then◌else◌,
}
use secrets_dispatcher.Text.{codes, codes-append, concat}
use secrets_dispatcher.Gpg.Payload.{begins, cut_bytes}
use secrets_dispatcher.Notification.Markup.{escape_char, escape_markup}

-- What the desktop's notification server shows of a text: the three references are characters. The
-- number counts the characters of a reference that are still to be skipped.
unescape : ℕ → List ℕ → List ℕ
unescape n [] = []
unescape (suc n) (c ∷ s) = unescape n s
unescape zero (c ∷ s) =
    let amp = b'&' ∷ unescape 4 s in
    let lt = b'<' ∷ unescape 3 s in
    let gt = b'>' ∷ unescape 3 s in
    let same = c ∷ unescape 0 s in
    if eqb c b'&'
    then (if begins "amp;" s
        then amp
        else if begins "lt;" s
        then lt
        else if begins "gt;" s
        then gt
        else same)
    else same

pub shown : List ℕ → List ℕ
unfolding unescape
shown s = unescape 0 s

hide : ℕ → List ℕ
hide c =
    if eqb c b'&'
    then codes "&amp;"
    else if eqb c b'<'
    then codes "&lt;"
    else if eqb c b'>'
    then codes "&gt;"
    else c ∷ []

codes-escape_char : (c : Char) → codes (escape_char c) ≡ hide (code c)
unfolding escape_char hide
codes-escape_char c = elim (Bool-cases (eqb (code c) b'&')) [
  | inl e ↦ rw e refl
  | inr e ↦ elim (Bool-cases (eqb (code c) b'<')) [
    | inl f ↦ rw (e, f) refl
    | inr f ↦ elim (Bool-cases (eqb (code c) b'>')) [
      | inl g ↦ rw (e, f, g) refl
      | inr g ↦ rw (e, f, g) refl
    ]
  ]
]

codes-escape :
    (c : Char) (s : String)
    → codes (escape_markup (String.◌∷◌ c s)) ≡ hide (code c) ++ codes (escape_markup s)
unfolding escape_markup
codes-escape c s =
    codes-append (escape_char c) (concat (escape_markup s ∷ []))
    ∙ ap₂ ◌++◌ (codes-escape_char c)
        (codes-append (escape_markup s) "" ∙ append-nil (codes (escape_markup s)))

unescape-hide : (c : ℕ) (rest : List ℕ) → unescape 0 (hide c ++ rest) ≡ c ∷ unescape 0 rest
unfolding unescape hide cut_bytes
unescape-hide c rest = elim (Bool-cases (eqb c b'&')) [
  | inl e ↦ rw e (ap (λ d. d ∷ unescape 0 rest) (sym ((eqb_iff c b'&').0 e)))
  | inr e ↦ elim (Bool-cases (eqb c b'<')) [
    | inl f ↦ rw (e, f) (ap (λ d. d ∷ unescape 0 rest) (sym ((eqb_iff c b'<').0 f)))
    | inr f ↦ elim (Bool-cases (eqb c b'>')) [
      | inl g ↦ rw (e, f, g) (ap (λ d. d ∷ unescape 0 rest) (sym ((eqb_iff c b'>').0 g)))
      | inr g ↦ rw (e, f, g) (rw e refl)
    ]
  ]
]

-- A server that reads the three references shows the escaped text as it was, whatever it holds.
pub shown-escape_markup : (s : String) → shown (codes (escape_markup s)) ≡ codes s
unfolding shown escape_markup
shown-escape_markup String.[] = refl
shown-escape_markup (String.◌∷◌ c s) =
    ap (unescape 0) (codes-escape c s)
    ∙ unescape-hide (code c) (codes (escape_markup s))
    ∙ ap (◌∷◌ (code c)) (shown-escape_markup s)
