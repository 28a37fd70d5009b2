-- ===== src/Glob.antt =====
-- Go's `path.Match`, as the program calls it: a pattern is read once into tokens, and is malformed
-- exactly where Go returns ErrBadPattern; then it is matched chunk by chunk, each chunk at the first
-- place that fits, which is Go's strategy and not a search over all places.
pub mod Laws
use secrets_dispatcher.Prelude.{
  ℕ, suc, String, ◌≡◌, refl, Bool, true, false, not, ◌&&◌, ◌||◌, Option, none, some, List, [], ◌∷◌,
  ◌++◌, leb, eqb, any, is_empty, if◌then◌else◌,
}
use secrets_dispatcher.Text.{codes}

pub data Token : Type 0 where
  lit : ℕ → Token
  one : Token
  star : Token
  -- a character class: whether it is negated, and its ranges
  set : Bool → List (ℕ × ℕ) → Token

-- Where the reader of a pattern stands.
pub data Mode : Type 0 where
  plain escaped class_open : Mode
  -- before an element of a class; after the first bound of one; after its dash
  element element_escaped : Bool → List (ℕ × ℕ) → Mode
  low high high_escaped : Bool → List (ℕ × ℕ) → ℕ → Mode

read_plain : ℕ → Mode × List Token
read_plain c =
    if eqb c b'*'
    then (plain, star ∷ [])
    else if eqb c b'?'
    then (plain, one ∷ [])
    else if eqb c b'\\'
    then (escaped, [])
    else if eqb c b'['
    then (class_open, [])
    else (plain, lit c ∷ [])

-- `getEsc`: a dash or a bracket is no element.
read_element : Bool → List (ℕ × ℕ) → ℕ → Option (Mode × List Token)
read_element neg rs c =
    if eqb c b']' && not (is_empty rs)
    then some (plain, set neg rs ∷ [])
    else if eqb c b'-' || eqb c b']'
    then none
    else if eqb c b'\\'
    then some (element_escaped neg rs, [])
    else some (low neg rs c, [])

read : Mode → ℕ → Option (Mode × List Token)
unfolding read_plain read_element
read plain c = some (read_plain c)
read escaped c = some (plain, lit c ∷ [])
read class_open c = if eqb c b'^' then some (element true [], []) else read_element false [] c
read (element neg rs) c = read_element neg rs c
read (element_escaped neg rs) c = some (low neg rs c, [])
read (low neg rs lo) c =
    if eqb c b'-' then some (high neg rs lo, []) else read_element neg ((lo, lo) ∷ rs) c
read (high neg rs lo) c =
    if eqb c b'-' || eqb c b']'
    then none
    else if eqb c b'\\'
    then some (high_escaped neg rs lo, [])
    else some (element neg ((lo, c) ∷ rs), [])
read (high_escaped neg rs lo) c = some (element neg ((lo, c) ∷ rs), [])

-- The pattern must end outside a class and after no lone backslash.
finish : Mode → Option (List Token)
finish plain = some []
finish _ = none

tokens_from : Mode → List ℕ → Option (List Token)
unfolding read finish
tokens_from m [] = finish m
tokens_from m (c ∷ cs) = elim (read m c) [
  | none ↦ none
  | some (m', ts) ↦ elim (tokens_from m' cs) [ none ↦ none | some rest ↦ some (ts ++ rest) ]
]

unfoldable pub tokens : String → Option (List Token)
unfolding tokens_from
tokens pattern = tokens_from plain (codes pattern)

-- One token that is no star, against one character.
unfoldable pub fits : Token → ℕ → Bool
fits (lit d) c = eqb d c
fits one c = not (eqb c b'/')
fits star c = false
fits (set neg rs) c = let hit = any (λ r. leb r.0 c && leb c r.1) rs in if neg then not hit else hit

-- `matchChunk`: the tokens up to the next star, and then what is left of the text.
unfoldable pub match_chunk : List Token → List ℕ → Option (List ℕ)
match_chunk [] s = some s
match_chunk (star ∷ ts) s = some s
match_chunk (t ∷ ts) [] = none
match_chunk (t ∷ ts) (c ∷ s) = if fits t c then match_chunk ts s else none

-- The pattern from its next star on.
unfoldable pub after_chunk : List Token → List Token
after_chunk [] = []
after_chunk (star ∷ ts) = star ∷ ts
after_chunk (t ∷ ts) = after_chunk ts

unfoldable pub skip_stars : List Token → List Token
skip_stars (star ∷ ts) = skip_stars ts
skip_stars ts = ts

-- A chunk that matched counts if another follows it, or if it used up the text.
unfoldable pub accepted : Bool → Option (List ℕ) → Bool
accepted last none = false
accepted last (some []) = true
accepted last (some (c ∷ s)) = not last

-- The chunk behind a star: at this place, or at the first later one that a slash does not bar.
unfoldable pub find_chunk : Bool → List Token → List ℕ → Option (List ℕ)
unfolding accepted
find_chunk last ts [] = let r = match_chunk ts [] in if accepted last r then r else none
find_chunk last ts (c ∷ s) =
    let r = match_chunk ts (c ∷ s) in
    let rest = find_chunk last ts s in
    if accepted last r then r else if eqb c b'/' then none else rest

-- The loop of `Match`, on fuel: each round takes one chunk off the pattern.
unfoldable pub match_loop : ℕ → List Token → List ℕ → Bool
unfolding accepted
match_loop ℕ.zero ts s = false
match_loop (suc f) [] s = is_empty s
match_loop (suc f) (star ∷ ts) s =
    let chunk = skip_stars ts in
    let next = find_chunk (is_empty (after_chunk chunk)) chunk s in
    if is_empty chunk
    then not (any (eqb b'/') s)
    else elim next [ none ↦ false | some rest ↦ match_loop f (after_chunk chunk) rest ]
match_loop (suc f) (t ∷ ts) s =
    let next = match_chunk (t ∷ ts) s in
    if accepted (is_empty (after_chunk (t ∷ ts))) next
    then elim next [ none ↦ false | some rest ↦ match_loop f (after_chunk (t ∷ ts)) rest ]
    else false

unfoldable pub rounds : List Token → ℕ
rounds [] = 1
rounds (t ∷ ts) = suc (rounds ts)

-- `ok` of `ok, _ := path.Match(pattern, name)`: a malformed pattern matches nothing.
unfoldable pub glob_match : String → String → Bool
unfolding tokens match_loop rounds find_chunk match_chunk after_chunk skip_stars fits
glob_match pattern name = elim (tokens pattern) [
  | none ↦ false
  | some ts ↦ match_loop (rounds ts) ts (codes name)
]

-- `err == nil` of `_, err := path.Match(pattern, ...)`.
unfoldable pub is_glob : String → Bool
unfolding tokens
is_glob pattern = elim (tokens pattern) [ none ↦ false | some _ ↦ true ]
