-- ===== src/Proxy/ObjectPath/Named.antt =====
-- internal/proxy/item.go and collection.go: how the paths of items and collections are built.
use Prim.Native.Char.{code}
use Prim.Native.String.{String}
use Prim.Native.String
use text.Mathlib.TextLemmas.{nil-append, cons-append}
use text.Mathlib.TextEquality.{Char-path}
use secrets_dispatcher.Prelude.{
  ◌≡◌, ◌≢◌, refl, sym, ap, ap₂, ◌∙◌, true, false, ◌⊎◌, inl, inr, some, eqb, eqb_iff, eq_iff,
  Bool-cases, Option-cases, arith,
}
use secrets_dispatcher.Text.{cut_prefix}
use secrets_dispatcher.Dbus.{collection_prefix, aliases_prefix}
use secrets_dispatcher.Proxy.ObjectPath.{
  is_item_path, is_collection_path, has_slash, names_collection,
}

cut_prefix-joined : (p s rest : String) → cut_prefix p s ≡ some rest → s ≡ String.◌++◌ p rest
unfolding cut_prefix
cut_prefix-joined String.[] s rest h = let same : s ≡ rest = cc h in same ∙ sym (nil-append rest)
cut_prefix-joined (String.◌∷◌ c p) String.[] rest h = absurd (cc h)
cut_prefix-joined (String.◌∷◌ c p) (String.◌∷◌ d s) rest h =
    elim (Bool-cases (eqb (code c) (code d))) [
      | inl e ↦
          ap₂ String.◌∷◌ (Char-path d c (sym ((eqb_iff (code c) (code d)).0 e)))
            (cut_prefix-joined p s rest (sym (rw e refl) ∙ h))
          ∙ sym (cons-append c p rest)
      | inr e ↦ absurd (ground (arith, e, h))
    ]

-- The first slash of a text divides it.
divided :
    (s : String) → has_slash s ≡ true → (u v : String) × (s ≡ String.◌++◌ u (String.◌∷◌ "/" v))
divided String.[] h = absurd (cc h)
divided (String.◌∷◌ c s) h = elim (Bool-cases (eqb (code c) b'/')) [
  | inl e ↦ (
    "",
    s,
    ap (λ d. String.◌∷◌ d s) (Char-path c "/" ((eqb_iff (code c) b'/').0 e))
        ∙ sym (nil-append (String.◌∷◌ "/" s)),
  )
  | inr e ↦
      let (u, v, same) = divided s (ground (arith, e)) in
      (String.◌∷◌ c u, v, ap (String.◌∷◌ c) same ∙ sym (cons-append c u (String.◌∷◌ "/" v)))
]

-- The path of an item in a collection.
abbrev pub IsItem : String → Type 0
IsItem path =
    (collection item : String) × (path
      ≡ String.◌++◌ collection_prefix (String.◌++◌ collection (String.◌∷◌ "/" item)))

-- The path of a collection, or of an alias of one.
abbrev pub IsCollection : String → Type 0
IsCollection path =
    (name : String) × (name ≢ "")
    × (has_slash name ≡ false)
    × ((path ≡ String.◌++◌ collection_prefix name) ⊎ (path ≡ String.◌++◌ aliases_prefix name))

pub is_item_path-IsItem : (path : String) → is_item_path path ≡ true → IsItem path
unfolding is_item_path
is_item_path-IsItem path h = elim (Option-cases (cut_prefix collection_prefix path)) [
  | inl e ↦ absurd (ground (arith, e, h))
  | inr (rest, e) ↦
      let (u, v, same) = divided rest (ground (arith, e, h)) in
      (
        u,
        v,
        cut_prefix-joined collection_prefix path rest e ∙ ap (String.◌++◌ collection_prefix) same,
      )
]

named : (name : String) → names_collection name ≡ true → (name ≢ "") × (has_slash name ≡ false)
named name h = (λ e. ground (arith, (eq_iff name "").1 e, h), ground (arith, h))

pub is_collection_path-IsCollection :
    (path : String) → is_collection_path path ≡ true → IsCollection path
unfolding is_collection_path
is_collection_path-IsCollection path h = elim (Option-cases (cut_prefix collection_prefix path)) [
  | inr (rest, e) ↦
      let n = named rest (ground (arith, e, h)) in
      (rest, n.0, n.1, inl (cut_prefix-joined collection_prefix path rest e))
  | inl e ↦ elim (Option-cases (cut_prefix aliases_prefix path)) [
    | inr (rest, f) ↦
        let n = named rest (ground (arith, e, f, h)) in
        (rest, n.0, n.1, inr (cut_prefix-joined aliases_prefix path rest f))
    | inl f ↦ absurd (ground (arith, e, f, h))
  ]
]
