-- ===== src/Approval/Manager/RuleWidth.antt =====
-- The values that a rule copies from a request are read as patterns: `AddAutoApproveRule` and
-- `attributesMatch` of internal/approval/manager.go.
use secrets_dispatcher.Prelude.{
  ap₂, ◌==◌, ◌||◌, ◌&&◌, ◌∙◌, ◌≢◌, ℕ, String, ◌≡◌, refl, sym, ap, true, false, not, [], ◌∷◌, arith,
  any, eqb, eq_iff, subst,
}
use secrets_dispatcher.Prelude.Dict.{Dict}
use secrets_dispatcher.Text.{codes}
use secrets_dispatcher.Glob.{glob_match, is_glob}
use secrets_dispatcher.Dbus.{extract_collection}
use secrets_dispatcher.Approval.Types.{
  RequestType, Request, ItemInfo, AutoApproveRule, SenderInfo, search_items, is_type,
}
use secrets_dispatcher.Approval.Match.{
  at, rule_applies, auto_approve_covers_all, covers_item, attributes_match, invoker_exe_path,
}
use secrets_dispatcher.Approval.Match.Attributes.{attributes_match-star}
use secrets_dispatcher.Approval.Manager.{Manager}
use secrets_dispatcher.Approval.Manager.Rules.{rule_for, first_attributes, first_collection}
use secrets_dispatcher.Approval.Manager.RuleRetry.{is_type_refl}

glob_match-malformed : (p s : String) → is_glob p ≡ false → glob_match p s ≡ false
unfolding glob_match is_glob
glob_match-malformed p s h = ground arith

one_malformed :
    (k v : String) (attrs : Dict String)
    → is_glob v ≡ false
    → attributes_match ((k, v) ∷ []) attrs ≡ false
unfolding attributes_match
one_malformed k v attrs h = ground (arith, glob_match-malformed v (at k attrs) h)

not_covered :
    (r : AutoApproveRule) (s : SenderInfo) (x : ItemInfo) (t : RequestType)
    → attributes_match r.attributes x.attributes ≡ false
    → rule_applies r s (x ∷ []) t ≡ false
unfolding rule_applies auto_approve_covers_all covers_item
not_covered r s x t h = ground arith

module _ (m : Manager) (req : Request) (id : String) (now : ℕ) (it : ItemInfo) (k v : String)
    (single : req.items ≡ it ∷ []) (attrs : it.attributes ≡ (k, v) ∷ [])
    (search : is_type req.type search_items ≡ false) where
  rule-attributes : (rule_for m req id now).attributes ≡ (k, v) ∷ []
  unfolding rule_for
  rule-attributes = rw search (ap first_attributes single ∙ attrs)

  -- Where a request, not a search, is for one item with one attribute whose value is no well-formed
  -- pattern, such as one with an opening bracket, the rule made for it does not apply to the very same
  -- request.
  pub malformed_value_never_applies :
      is_glob v ≡ false
      → rule_applies (rule_for m req id now) req.sender_info req.items req.type ≡ false
  malformed_value_never_applies bad =
      let own = rule_for m req id now in
      subst (λ xs. rule_applies own req.sender_info xs req.type ≡ false) (sym single)
        (not_covered own req.sender_info it req.type (
          ap (λ b. attributes_match b it.attributes) rule-attributes
          ∙ one_malformed k v it.attributes bad))

  own_exe : (rule_for m req id now).invoker_exe ≡ invoker_exe_path req.sender_info
  unfolding rule_for
  own_exe = refl

  own_type : is_type (rule_for m req id now).request_type req.type ≡ true
  unfolding rule_for
  own_type = is_type_refl req.type

  own_collection : (rule_for m req id now).collection ≡ extract_collection it.path
  unfolding rule_for
  own_collection = ap first_collection single

  own_applies :
      (x : ItemInfo)
      → invoker_exe_path req.sender_info ≢ ""
      → rule_applies (rule_for m req id now) req.sender_info (x ∷ []) req.type ≡ (
          ((rule_for m req id now).collection == ""
            || (rule_for m req id now).collection == extract_collection x.path)
          && attributes_match (rule_for m req id now).attributes x.attributes)
  unfolding rule_applies auto_approve_covers_all covers_item
  own_applies x resolved =
      let own = rule_for m req id now in
      ground (
        arith,
        own_exe,
        own_type,
        eq_iff (invoker_exe_path req.sender_info) "",
        eq_iff own.invoker_exe (invoker_exe_path req.sender_info),
      )

  -- Where a request, not a search, of a resolved invoker is for one item with one attribute whose
  -- value is "*", the rule made for it applies to exactly the items of the same collection, or of every
  -- collection if the path of the request's item has none, whose value under that key has no slash, or
  -- that lack the key.
  pub star_value_widens :
      (x : ItemInfo)
      → v ≡ "*"
      → invoker_exe_path req.sender_info ≢ ""
      → rule_applies (rule_for m req id now) req.sender_info (x ∷ []) req.type ≡ (
          (extract_collection it.path == ""
            || extract_collection it.path == extract_collection x.path)
          && not (any (eqb b'/') (codes (at k x.attributes))))
  star_value_widens x star resolved =
      own_applies x resolved
      ∙ ap₂ (λ c b. (c == "" || c == extract_collection x.path) && b) own_collection
          (ap (λ b. attributes_match b x.attributes) rule-attributes
            ∙ ap (λ w. attributes_match ((k, w) ∷ []) x.attributes) star
            ∙ attributes_match-star k x.attributes)
