-- ===== src/Approval/Match/Scope.antt =====
-- How a trust rule and an auto-approve rule decide a batch of items: `matchTrustRule`, `matchSecret`
-- and `autoApproveCoversAll` of internal/approval/manager.go.
use secrets_dispatcher.Prelude.{
  not, eq_iff, sym, ◌↔◌, subst, ap, ◌∙◌, ◌==◌, fun_ext, String, ◌≡◌, refl, Bool, true, false, ◌&&◌,
  ◌||◌, Option, none, some, List, [], ◌∷◌, ◌++◌, arith, any, all, All, is_empty, Bool-cases, inl,
  inr,
}
use secrets_dispatcher.Prelude.Dict.{Dict}
use secrets_dispatcher.Approval.Types.{
  type_name, is_type, TrustRule, SecretMatcher, SenderInfo, ItemInfo, RequestType, AutoApproveRule,
}
use secrets_dispatcher.Approval.Match.{
  invoker_exe_path, match_secret, match_secret_item, match_trust_rule, process_ok,
  check_trust_rules, is_restrictive, secret_ok, is_unconstrained, rule_applies,
  auto_approve_covers_all, covers_item, attributes_match,
}

module _ {ℓ} {A : Type ℓ} (p q r : Bool) (f : A → Bool) where
  all-and :
      (x : A) (xs : List A)
      → all (λ i. p && q && f i && r) (x ∷ xs) ≡ (p && q && all f (x ∷ xs) && r)
  all-and x [] = ground arith
  all-and x (y ∷ ys) = ground (arith, all-and y ys)

  any-and :
      (x : A) (xs : List A)
      → any (λ i. p && q && f i && r) (x ∷ xs) ≡ (p && q && any f (x ∷ xs) && r)
  any-and x [] = ground arith
  any-and x (y ∷ ys) = ground (arith, any-and y ys)

module _ {ℓ} {A : Type ℓ} (u : Bool) (f : A → Bool) where
  all-or : (x : A) (xs : List A) → all (λ i. u || f i) (x ∷ xs) ≡ (u || all f (x ∷ xs))
  all-or x [] = ground arith
  all-or x (y ∷ ys) = ground (arith, all-or y ys)

  any-or : (x : A) (xs : List A) → any (λ i. u || f i) (x ∷ xs) ≡ (u || any f (x ∷ xs))
  any-or x [] = ground arith
  any-or x (y ∷ ys) = ground (arith, any-or y ys)

module _ (sm : SecretMatcher) where
  match_secret_one :
      (r : Bool) (i : ItemInfo)
      → match_secret sm (i ∷ []) r ≡ (is_unconstrained sm || match_secret_item sm i)
  unfolding match_secret
  match_secret_one r i = ground arith

  match_secret_permissive :
      (it : ItemInfo) (items : List ItemInfo)
      → match_secret sm (it ∷ items) false
        ≡ (is_unconstrained sm || all (match_secret_item sm) (it ∷ items))
  unfolding match_secret
  match_secret_permissive it items = ground arith

  match_secret_restrictive :
      (it : ItemInfo) (items : List ItemInfo)
      → match_secret sm (it ∷ items) true
        ≡ (is_unconstrained sm || any (match_secret_item sm) (it ∷ items))
  unfolding match_secret
  match_secret_restrictive it items = ground arith

  match_secret-all :
      (it : ItemInfo) (items : List ItemInfo)
      → match_secret sm (it ∷ items) false ≡ all (λ i. match_secret sm (i ∷ []) false) (it ∷ items)
  match_secret-all it items =
      match_secret_permissive it items
      ∙ sym (all-or (is_unconstrained sm) (match_secret_item sm) it items)
      ∙ sym (ap (λ g. all g (it ∷ items)) (fun_ext (match_secret_one false)))

  match_secret-any :
      (it : ItemInfo) (items : List ItemInfo)
      → match_secret sm (it ∷ items) true ≡ any (λ i. match_secret sm (i ∷ []) true) (it ∷ items)
  match_secret-any it items =
      match_secret_restrictive it items
      ∙ sym (any-or (is_unconstrained sm) (match_secret_item sm) it items)
      ∙ sym (ap (λ g. any g (it ∷ items)) (fun_ext (match_secret_one true)))

all-true {ℓ} : {A : Type ℓ} (xs : List A) → all (λ x. true) xs ≡ true
all-true [] = refl
all-true (x ∷ xs) = all-true xs

module _ (it : ItemInfo) (items : List ItemInfo) where
  secret_ok-all :
      (o : Option SecretMatcher)
      → secret_ok o (it ∷ items) false ≡ all (λ i. secret_ok o (i ∷ []) false) (it ∷ items)
  secret_ok-all none = sym (all-true (it ∷ items))
  secret_ok-all (some sm) = match_secret-all sm it items

  secret_ok-any :
      (o : Option SecretMatcher)
      → secret_ok o (it ∷ items) true ≡ any (λ i. secret_ok o (i ∷ []) true) (it ∷ items)
  secret_ok-any none = refl
  secret_ok-any (some sm) = match_secret-any sm it items

module _ (rule : TrustRule) (s : SenderInfo) (req_type : RequestType) (attrs : Dict String) where
  abbrev type_ok : Bool
  type_ok = is_empty rule.request_types || any (◌==◌ (type_name req_type)) rule.request_types

  abbrev search_ok : Bool
  search_ok = is_empty rule.search_attributes || attributes_match rule.search_attributes attrs

  -- The rule's test of a batch at a given polarity.
  abbrev under : Bool → List ItemInfo → Bool
  under r items = type_ok && process_ok rule.process s && secret_ok rule.secret items r && search_ok

  abbrev pub matches : List ItemInfo → Bool
  matches items = match_trust_rule rule s items req_type attrs

  -- The rule limits no item.
  abbrev pub is_unscoped : Option SecretMatcher → Bool
  is_unscoped none = true
  is_unscoped (some sm) = sm.collection == "" && sm.label == "" && is_empty sm.attributes

  -- A request without items: the rule limits none, and matches but for them.
  abbrev pub matches_nothing : Bool
  matches_nothing =
      is_unscoped rule.secret
      && match_trust_rule (record rule { secret = none }) s [] req_type attrs

  unscoped : (o : Option SecretMatcher) (q : Bool) → secret_ok o [] q ≡ is_unscoped o
  unfolding match_secret
  unscoped none q = refl
  unscoped (some sm) true = ground arith
  unscoped (some sm) false = ground arith

  no_items : matches [] ≡ matches_nothing
  unfolding match_trust_rule
  no_items =
      ap (λ b. type_ok && process_ok rule.process s && b && search_ok)
        (unscoped rule.secret (is_restrictive rule))
      ∙ moved type_ok (process_ok rule.process s) (is_unscoped rule.secret) search_ok
    where
      moved : (p q u t : Bool) → (p && q && u && t) ≡ (u && (p && q && true && t))
      moved p q u t = ground arith

  -- A rule that approves matches a batch of one item or more exactly when it matches each item of the
  -- batch alone, so an item out of its scope cannot ride along; a request without items it matches
  -- exactly when it limits no item and matches but for the items.
  pub approve_rule_batch :
      (it : ItemInfo) (items : List ItemInfo)
      → is_restrictive rule ≡ false
      → (matches (it ∷ items) ≡ all (λ i. matches (i ∷ [])) (it ∷ items))
        × (matches [] ≡ matches_nothing)
  unfolding match_trust_rule
  approve_rule_batch it items h = (
    subst (λ r. under r (it ∷ items) ≡ all (λ i. under r (i ∷ [])) (it ∷ items)) (sym h)
        (ap (λ b. type_ok && process_ok rule.process s && b && search_ok)
            (secret_ok-all it items rule.secret)
          ∙ sym (
              all-and type_ok (process_ok rule.process s) search_ok
                (λ i. secret_ok rule.secret (i ∷ []) false) it items)),
    no_items,
  )

  -- A rule that denies or ignores matches a batch of one item or more exactly when it matches some item
  -- of it alone, so a protected item cannot hide among others; a request without items it matches exactly
  -- when it limits no item and matches but for the items.
  pub deny_rule_batch :
      (it : ItemInfo) (items : List ItemInfo)
      → is_restrictive rule ≡ true
      → (matches (it ∷ items) ≡ any (λ i. matches (i ∷ [])) (it ∷ items))
        × (matches [] ≡ matches_nothing)
  unfolding match_trust_rule
  deny_rule_batch it items h = (
    subst (λ r. under r (it ∷ items) ≡ any (λ i. under r (i ∷ [])) (it ∷ items)) (sym h)
        (ap (λ b. type_ok && process_ok rule.process s && b && search_ok)
            (secret_ok-any it items rule.secret)
          ∙ sym (
              any-and type_ok (process_ok rule.process s) search_ok
                (λ i. secret_ok rule.secret (i ∷ []) true) it items)),
    no_items,
  )

all-and_last {ℓ} :
    {A : Type ℓ} (p q r : Bool) (f : A → Bool) (x : A) (xs : List A)
    → all (λ i. p && q && r && f i) (x ∷ xs) ≡ (p && q && r && all f (x ∷ xs))
all-and_last p q r f x [] = ground arith
all-and_last p q r f x (y ∷ ys) = ground (arith, all-and_last p q r f y ys)

module _ (rule : AutoApproveRule) (s : SenderInfo) (req_type : RequestType) where
  covers_all-one : (i : ItemInfo) → auto_approve_covers_all rule (i ∷ []) ≡ covers_item rule i
  unfolding auto_approve_covers_all
  covers_all-one i = ground arith

  -- An auto-approve rule applies to a batch exactly when it applies to each item of it alone.
  pub auto_approve_batch :
      (it : ItemInfo) (items : List ItemInfo)
      → rule_applies rule s (it ∷ items) req_type
        ≡ all (λ i. rule_applies rule s (i ∷ []) req_type) (it ∷ items)
  unfolding rule_applies auto_approve_covers_all
  auto_approve_batch it items =
      ap (λ b. caller_ok && exe_ok && type_ok' && b)
        (ap (λ g. all g (it ∷ items)) (sym (fun_ext covers_all-one)))
      ∙ sym (
          all-and_last caller_ok exe_ok type_ok' (λ i. auto_approve_covers_all rule (i ∷ [])) it
            items)
    where
      caller_ok : Bool
      caller_ok = not (invoker_exe_path s == "")

      exe_ok : Bool
      exe_ok = rule.invoker_exe == invoker_exe_path s

      type_ok' : Bool
      type_ok' = is_type rule.request_type req_type

  -- A rule with a scope never covers a request without items.
  pub auto_approve_empty :
      rule_applies rule s [] req_type ≡ true → (rule.collection ≡ "") × (rule.attributes ≡ [])
  unfolding rule_applies auto_approve_covers_all
  auto_approve_empty h = ground (arith, eq_iff rule.collection "")

module _ (s : SenderInfo) (items : List ItemInfo) (req_type : RequestType)
    (attrs : Dict String) where
  -- The rule that decides is the first one in the configured order that matches.
  pub check_trust_rules_first :
      (rules : List TrustRule) (rule : TrustRule)
      → check_trust_rules rules s items req_type attrs ≡ some rule
      → (earlier : List TrustRule) × (later : List TrustRule) × (rules ≡ earlier ++ rule ∷ later)
        × All (λ r. match_trust_rule r s items req_type attrs ≡ false) earlier
        × (match_trust_rule rule s items req_type attrs ≡ true)
  unfolding check_trust_rules
  check_trust_rules_first [] rule h = cc
  check_trust_rules_first (r ∷ rs) rule h =
      elim (Bool-cases (match_trust_rule r s items req_type attrs)) [
        | inl e ↦ ([], rs, ground arith, tt, ground arith)
        | inr e ↦
            let (earlier, later, split, misses, hit) =
              check_trust_rules_first rs rule (ground arith) in
            (r ∷ earlier, later, ap (◌∷◌ r) split, (e, misses), hit)
      ]

  -- No rule decides exactly when none matches.
  pub check_trust_rules-none :
      (rules : List TrustRule)
      → (check_trust_rules rules s items req_type attrs ≡ none)
        ↔ All (λ r. match_trust_rule r s items req_type attrs ≡ false) rules
  unfolding check_trust_rules
  check_trust_rules-none [] = ((λ h. tt), (λ h. refl))
  check_trust_rules-none (r ∷ rs) = (
    (λ h. ground (arith, (check_trust_rules-none rs).0)),
    (λ h. ground (arith, (check_trust_rules-none rs).1)),
  )
