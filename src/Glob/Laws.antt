-- ===== src/Glob/Laws.antt =====
-- Facts about `path.Match` that the rule matchers rest on: what a pattern without special characters
-- matches, and what a single star does.
use text.Mathlib.TextEquality.{Char-path}
use secrets_dispatcher.Prelude.{
  sym, subst, is_empty, ap₂, none, ◌∙◌, Option, if◌then◌else◌, ℕ, suc, String, ◌≡◌, refl, ap, Bool,
  true, false, not, ◌&&◌, ◌||◌, some, List, [], ◌∷◌, ◌↔◌, any, all, eqb, eqb_iff, arith,
}
use secrets_dispatcher.Text.{codes}
use secrets_dispatcher.Glob.{
  Token, lit, plain, tokens_from, glob_match, is_glob, match_loop, match_chunk, after_chunk,
  accepted, fits, rounds,
}

abbrev pub is_special : ℕ → Bool
is_special c = eqb c b'*' || eqb c b'?' || eqb c b'\\' || eqb c b'['

-- No character of the pattern has a meaning of its own.
abbrev pub is_literal : List ℕ → Bool
is_literal cs = all (λ c. not (is_special c)) cs

abbrev lits : List ℕ → List Token
lits [] = []
lits (c ∷ cs) = lit c ∷ lits cs

abbrev same : List ℕ → List ℕ → Bool
same [] [] = true
same [] (d ∷ ds) = false
same (c ∷ cs) [] = false
same (c ∷ cs) (d ∷ ds) = eqb c d && same cs ds

same_iff : (cs ds : List ℕ) → (same cs ds ≡ true) ↔ (cs ≡ ds)
same_iff [] [] = ((λ h. refl), (λ h. refl))
same_iff [] (d ∷ ds) = ((λ h. cc), (λ h. cc))
same_iff (c ∷ cs) [] = ((λ h. cc), (λ h. cc))
same_iff (c ∷ cs) (d ∷ ds) = (
  (λ h. ground (arith, eqb_iff c d, (same_iff cs ds).0)),
  (λ h. ground (arith, eqb_iff c d, (same_iff cs ds).1)),
)

tokens_from-literal : (cs : List ℕ) → is_literal cs ≡ true → tokens_from plain cs ≡ some (lits cs)
unfolding tokens_from
tokens_from-literal [] h = refl
tokens_from-literal (c ∷ cs) h = ground (arith, tokens_from-literal cs)

after_chunk-lits : (cs : List ℕ) → after_chunk (lits cs) ≡ []
unfolding after_chunk
after_chunk-lits [] = refl
after_chunk-lits (c ∷ cs) = after_chunk-lits cs

accepted-lits : (cs ds : List ℕ) → accepted true (match_chunk (lits cs) ds) ≡ same cs ds
unfolding accepted match_chunk fits
accepted-lits [] [] = refl
accepted-lits [] (d ∷ ds) = refl
accepted-lits (c ∷ cs) [] = refl
accepted-lits (c ∷ cs) (d ∷ ds) = ground (arith, accepted-lits cs ds)

last_chunk :
    (f : ℕ) (r : Option (List ℕ))
    → (if accepted true r
        then (elim r [ none ↦ false | some rest ↦ match_loop (suc f) [] rest ])
        else false)
      ≡ accepted true r
unfolding accepted match_loop
last_chunk f none = refl
last_chunk f (some []) = refl
last_chunk f (some (c ∷ s)) = refl

abbrev goes_on : ℕ → List Token → Option (List ℕ) → Bool
goes_on g ts r =
    if accepted (is_empty ts) r
    then (elim r [ none ↦ false | some rest ↦ match_loop g ts rest ])
    else false

last_of :
    (g f : ℕ) (ts : List Token) (r : Option (List ℕ))
    → g ≡ suc f
    → ts ≡ []
    → goes_on g ts r ≡ accepted true r
last_of g f ts r eg e =
    subst (λ k. goes_on k ts r ≡ accepted true r) (sym eg)
      (subst (λ us. goes_on (suc f) us r ≡ accepted true r) (sym e) (last_chunk f r))

rounds-suc : (ts : List Token) → (f : ℕ) × (rounds ts ≡ suc f)
unfolding rounds
rounds-suc [] = (0, refl)
rounds-suc (t ∷ ts) = (rounds ts, refl)

match_loop-lits : (cs ds : List ℕ) → match_loop (rounds (lits cs)) (lits cs) ds ≡ same cs ds
unfolding match_loop rounds
match_loop-lits [] [] = refl
match_loop-lits [] (d ∷ ds) = refl
match_loop-lits (c ∷ cs) ds =
    let (f, e) = rounds-suc (lits cs) in
    let chunk = match_chunk (lits (c ∷ cs)) ds in
    last_of (rounds (lits cs)) f (after_chunk (lits (c ∷ cs))) chunk e (after_chunk-lits (c ∷ cs))
    ∙ accepted-lits (c ∷ cs) ds

codes-injective : (p s : String) → codes p ≡ codes s → p ≡ s
codes-injective String.[] String.[] h = refl
codes-injective String.[] (String.◌∷◌ d t) h = cc
codes-injective (String.◌∷◌ c s) String.[] h = cc
codes-injective (String.◌∷◌ c s) (String.◌∷◌ d t) h =
    ap₂ String.◌∷◌ (Char-path c d (cc)) (codes-injective s t (cc))

-- A pattern without special characters matches itself and nothing else.
pub glob_match-literal :
    (p s : String) → is_literal (codes p) ≡ true → (glob_match p s ≡ true) ↔ (p ≡ s)
unfolding glob_match
glob_match-literal p s h =
    rw (tokens_from-literal (codes p) h, glob_match)
      (
        (λ e.
            codes-injective p s
              ((same_iff (codes p) (codes s)).0 (sym (match_loop-lits (codes p) (codes s)) ∙ e))),
        (λ e. match_loop-lits (codes p) (codes s) ∙ (same_iff (codes p) (codes s)).1 (ap codes e)),
      )

runs :
    (glob_match "/usr/bin/*" "/usr/bin/git" ≡ true)
    × (glob_match "/usr/bin/*" "/usr/bin/x/git" ≡ false)
    × (glob_match "lo[a-h]in?" "login1" ≡ true)
    × (glob_match "*" "" ≡ true)
    × (glob_match "*a" "a/a" ≡ false)
    × (glob_match "*[^x]*b" "a/b" ≡ false)
    × (glob_match "a[" "a[" ≡ false)
    × (is_glob "a[" ≡ false)
    × (glob_match "*aab*c" "aaabxc" ≡ true)
unfolding glob_match is_glob
runs = (refl, refl, refl, refl, refl, refl, refl, refl, refl)

-- A lone star matches every text without a slash.
pub glob_match-star : (s : String) → glob_match "*" s ≡ not (any (eqb b'/') (codes s))
unfolding glob_match
glob_match-star s = refl
