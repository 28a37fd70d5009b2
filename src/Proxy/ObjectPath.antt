-- ===== src/Proxy/ObjectPath.antt =====
-- internal/proxy/collection.go, item.go and prompt.go: which objects a path names.
pub mod Named
use secrets_dispatcher.Prelude.{
  String, ◌≡◌, Bool, false, not, ◌&&◌, none, some, eqb, any, Option-cases, inl, inr, ◌==◌, arith,
}
use secrets_dispatcher.Text.{cut_prefix, codes}
use secrets_dispatcher.Dbus.{collection_prefix, aliases_prefix}

abbrev pub has_slash : String → Bool
has_slash s = any (λ c. eqb c b'/') (codes s)

abbrev names_collection : String → Bool
names_collection rest = not (rest == "") && not (has_slash rest)

-- The loop over the two prefixes, unrolled.
unfoldable pub is_collection_path : String → Bool
unfolding cut_prefix
is_collection_path path = elim (cut_prefix collection_prefix path) [
  | some rest ↦ names_collection rest
  | none ↦ elim (cut_prefix aliases_prefix path) [
    | some rest ↦ names_collection rest
    | none ↦ false
  ]
]

unfoldable pub is_item_path : String → Bool
unfolding cut_prefix
is_item_path path = elim (cut_prefix collection_prefix path) [
  | some rest ↦ has_slash rest
  | none ↦ false
]

abbrev pub prompt_prefix : String
prompt_prefix = "/org/freedesktop/secrets/prompt/"

unfoldable pub is_prompt_path : String → Bool
unfolding cut_prefix
is_prompt_path path = elim (cut_prefix prompt_prefix path) [
  | some rest ↦ not (rest == "")
  | none ↦ false
]

-- No path names a collection and an item: a call is for one handler only.
pub paths_exclusive : (path : String) → (is_collection_path path && is_item_path path) ≡ false
unfolding is_collection_path is_item_path
paths_exclusive path = elim (Option-cases (cut_prefix collection_prefix path)) [
  | inl e ↦ rw e (and-false _)
  | inr (rest, e) ↦ rw e (ground arith)
]
  where
    and-false : (b : Bool) → (b && false) ≡ false
    and-false b = ground arith
