-- ===== src/Approval/Match/Attributes.antt =====
-- The comparisons of attribute maps: `attributesEqual` and `attributesMatch` of
-- internal/approval/manager.go.
use secrets_dispatcher.Prelude.{
  String, ◌≡◌, ◌≢◌, refl, true, not, none, some, [], ◌∷◌, arith, All, all, any, eqb, ◌↔◌, ◌==◌,
  eq_iff, length, Option-cases, Bool-cases, inl, inr, sym,
}
use secrets_dispatcher.Prelude.Dict.{Dict, get}
use secrets_dispatcher.Text.{codes}
use secrets_dispatcher.Glob.Laws.{is_literal, glob_match-literal, glob_match-star}
use secrets_dispatcher.Approval.Match.{at, attributes_equal, attributes_match}

get_other : (k j v : String) → k ≢ j → get {V = String} k ((j, v) ∷ []) ≡ none
unfolding get
get_other k j v h = elim (Bool-cases (j == k)) [
  | inl e ↦ absurd (h (sym ((eq_iff j k).0 e)))
  | inr e ↦ rw e
]

-- A map with an empty value under one key and a map with any value under a different key pass for the
-- same, though neither has the other's key.
pub attributes_equal_confuses :
    (k j v : String)
    → k ≢ j
    → (attributes_equal ((k, "") ∷ []) ((j, v) ∷ []) ≡ true)
      × (get {V = String} k ((j, v) ∷ []) ≡ none)
      × (get {V = String} j ((k, "") ∷ []) ≡ none)
unfolding attributes_equal
attributes_equal_confuses k j v h =
    let other = get_other k j v h in
    (
      ground (arith, other, eq_iff (at k ((j, v) ∷ [])) ""),
      other,
      get_other j k "" (λ e. h (sym e)),
    )

at-some : (k : String) (m : Dict String) (v : String) → at k m ≡ v → v ≢ "" → get k m ≡ some v
at-some k m v e h = elim (Option-cases (get k m)) [
  | inl n ↦ absurd (h (ground arith))
  | inr (w, s) ↦ ground arith
]

-- Where no value of the first map is empty, maps that pass for the same have the same size, and the
-- second has every entry of the first.
pub attributes_equal_sound :
    (a b : Dict String)
    → attributes_equal a b ≡ true
    → All (λ kv. kv.1 ≢ "") a
    → (length a ≡ length b) × All (λ kv. get kv.0 b ≡ some kv.1) a
unfolding attributes_equal
attributes_equal_sound a b h values = (ground arith, entries a (ground arith) values)
  where
    entries :
        (xs : Dict String)
        → all (λ kv. at kv.0 b == kv.1) xs ≡ true
        → All (λ kv. kv.1 ≢ "") xs
        → All (λ kv. get kv.0 b ≡ some kv.1) xs
    entries [] e v = tt
    entries ((k, w) ∷ xs) e v =
        (at-some k b w (ground (arith, eq_iff (at k b) w)) v.0, entries xs (ground arith) v.1)

-- A rule whose values hold no special characters matches exactly the requests that have those values.
pub attributes_match-literal :
    (rule req : Dict String)
    → All (λ kv. is_literal (codes kv.1) ≡ true) rule
    → (attributes_match rule req ≡ true) ↔ All (λ kv. kv.1 ≡ at kv.0 req) rule
unfolding attributes_match
attributes_match-literal [] req h = ((λ _. tt), (λ _. refl))
attributes_match-literal ((k, v) ∷ rule) req h = (
  (λ e. ground (arith, glob_match-literal v (at k req), (attributes_match-literal rule req h.1).0)),
  (λ e. ground (arith, glob_match-literal v (at k req), (attributes_match-literal rule req h.1).1)),
)

-- The value "*" matches every value without a slash, and the absence of the key.
pub attributes_match-star :
    (k : String) (req : Dict String)
    → attributes_match ((k, "*") ∷ []) req ≡ not (any (eqb b'/') (codes (at k req)))
unfolding attributes_match
attributes_match-star k req = ground (arith, glob_match-star (at k req))
