-- ===== src/Config/Rules.antt =====
-- The trust rules that `Validate` of internal/config/config.go lets through.
use secrets_dispatcher.Prelude.{
  ℕ, suc, String, ◌≡◌, ◌≢◌, refl, Bool, true, false, not, ◌||◌, ◌&&◌, Option, none, some, List, [],
  ◌∷◌, ◌↔◌, ◌⊎◌, inl, All, any, arith, eq_iff, ◌==◌, ap, subst, if◌then◌else◌, sym, ◌∙◌,
}
use secrets_dispatcher.Glob.{is_glob}
use secrets_dispatcher.Prelude.Dict.{Dict}
use secrets_dispatcher.Approval.Types.{TrustRule}
use secrets_dispatcher.Config.{
  ConfigError, check_each, fail_if, or_next, check_attributes, check_patterns, request_types,
  text_or, process_patterns, secret_patterns, secret_attributes, validate_ignore, validate_action,
  validate_globs, validate_rule,
}

module _ {ℓ κ} {A : Type ℓ} {E : Type κ} (f : ℕ → A → Option E) (P : A → Type 0)
    (reads : (i : ℕ) (x : A) → (f i x ≡ none) ↔ P x) where
  pub check_each_iff : (i : ℕ) (xs : List A) → (check_each f i xs ≡ none) ↔ All P xs
  check_each_iff i [] = ((λ h. tt), (λ h. refl))
  check_each_iff i (x ∷ xs) = (
    (λ h. ground (arith, reads i x, check_each_iff (suc i) xs)),
    (λ h. ground (arith, reads i x, check_each_iff (suc i) xs)),
  )

abbrev pub IsAction : String → Type 0
IsAction a = (a ≡ "") ⊎ (a ≡ "approve") ⊎ (a ≡ "ignore") ⊎ (a ≡ "deny")

-- What the validation asks of a rule: a known action, an ignoring rule that is for writes alone, known
-- request types, and patterns that are well formed.
pub record IsRule (rule : TrustRule) : Type 0 where
  pub action : IsAction rule.action
  pub ignores :
      rule.action ≡ "ignore" → (rule.request_types ≢ []) × All (λ t. t ≡ "write") rule.request_types
  pub types : All (λ t. any (◌==◌ t) request_types ≡ true) rule.request_types
  pub process_globs : All (λ kv. is_glob kv.1 ≡ true) (process_patterns rule.process)
  pub secret_globs : All (λ kv. is_glob kv.1 ≡ true) (secret_patterns rule.secret)
  pub attribute_globs : All (λ kv. is_glob kv.1 ≡ true) (secret_attributes rule.secret)
  pub search_globs : All (λ kv. is_glob kv.1 ≡ true) rule.search_attributes

ignore_iff :
    (i : ℕ) (t : String)
    → (fail_if (not (t == "write")) (ConfigError.ignore_type i t) ≡ none) ↔ (t ≡ "write")
ignore_iff i t = ((λ h. ground (arith, eq_iff t "write")), (λ h. ground (arith, eq_iff t "write")))

validate_ignore_iff :
    (i : ℕ) (types : List String)
    → (validate_ignore i types ≡ none) ↔ ((types ≢ []) × All (λ t. t ≡ "write") types)
unfolding validate_ignore
validate_ignore_iff i [] = ((λ h. cc), (λ h. absurd (h.0 refl)))
validate_ignore_iff i (t ∷ ts) =
    let each =
      check_each_iff (λ _ t. fail_if (not (t == "write")) (ConfigError.ignore_type i t))
        (λ t. t ≡ "write") (λ _ t. ignore_iff i t) 0 (t ∷ ts) in
    ((λ h. ((λ e. cc), each.0 h)), (λ h. each.1 h.1))

pub both_iff {κ} :
    {E : Type κ} {P Q : Type 0} {a b : Option E}
    → (a ≡ none) ↔ P
    → (b ≡ none) ↔ Q
    → (or_next a b ≡ none) ↔ (P × Q)
both_iff {a = none} f g = ((λ h. (f.0 refl, g.0 h)), (λ h. g.1 h.1))
both_iff {a = some e} f g = ((λ h. cc), (λ h. f.1 h.0))

-- A statement about an action and the action that an empty one stands for.
by_default :
    (P : String → String → Type 0) (d a : String) → P "" d → (a ≢ "" → P a a) → P a (text_or d a)
by_default P d a p q =
    elim (a == "") as (λ b. a == "" ≡ b → P a (if b then d else a)) [
      | true ↦ λ h. subst (λ t. P t d) (sym ((eq_iff a "").0 h)) p
      | false ↦ λ h. q (λ e. differ_self (e) h)
    ]
      refl
  where
    differ_self : {t : String} → t ≡ "" → (t == "") ≡ false → ⊥
    differ_self {t} e h = ground (arith, eq_iff t "")

abbrev known : String → Bool
known a = a == "approve" || a == "ignore" || a == "deny"

known_iff : (a : String) → (known (text_or "approve" a) ≡ true) ↔ IsAction a
known_iff a =
    by_default (λ t b. (known b ≡ true) ↔ IsAction t) "approve" a ((λ h. inl refl), (λ h. refl))
      (λ n. (
        (λ h. ground (arith, eq_iff a "approve", eq_iff a "ignore", eq_iff a "deny")),
        (λ h. ground (arith, n, eq_iff a "approve", eq_iff a "ignore", eq_iff a "deny")),
      ))

ignores_iff : (a : String) → (text_or "approve" a == "ignore" ≡ true) ↔ (a ≡ "ignore")
ignores_iff a =
    by_default (λ t b. (b == "ignore" ≡ true) ↔ (t ≡ "ignore")) "approve" a ((λ h. cc), (λ h. cc))
      (λ n. eq_iff a "ignore")

validate_action_iff :
    (i : ℕ) (rule : TrustRule)
    → (validate_action i rule ≡ none) ↔ (
        IsAction rule.action
        × (rule.action ≡ "ignore"
            → (rule.request_types ≢ []) × All (λ t. t ≡ "write") rule.request_types))
unfolding validate_action
validate_action_iff i rule = (
  (λ h. ground (
    arith,
    known_iff rule.action,
    ignores_iff rule.action,
    validate_ignore_iff i rule.request_types,
  )),
  (λ h. ground (
    arith,
    known_iff rule.action,
    ignores_iff rule.action,
    validate_ignore_iff i rule.request_types,
  )),
)

empty_glob : is_glob "" ≡ true
unfolding is_glob
empty_glob = refl

empty_is_glob : (p : String) → p ≡ "" → is_glob p ≡ true
empty_is_glob p e = ap is_glob e ∙ empty_glob

glob_iff :
    (e : ConfigError) (p : String)
    → (fail_if (not (p == "") && not (is_glob p)) e ≡ none) ↔ (is_glob p ≡ true)
glob_iff e p = ((λ h. ground (arith, eq_iff p "", empty_is_glob p)), (λ h. ground (arith)))

validate_globs_iff :
    (i : ℕ) (rule : TrustRule)
    → (validate_globs i rule ≡ none) ↔ (
        All (λ kv. is_glob kv.1 ≡ true) (process_patterns rule.process)
        × All (λ kv. is_glob kv.1 ≡ true) (secret_patterns rule.secret)
        × All (λ kv. is_glob kv.1 ≡ true) (secret_attributes rule.secret)
        × All (λ kv. is_glob kv.1 ≡ true) rule.search_attributes)
unfolding validate_globs
validate_globs_iff i rule =
    let process = patterns_iff (process_patterns rule.process) in
    let secret = patterns_iff (secret_patterns rule.secret) in
    let attributes = attributes_iff (ConfigError.attribute i) (secret_attributes rule.secret) in
    let search = attributes_iff (ConfigError.search_attribute i) rule.search_attributes in
    let whole = both_iff (both_iff process secret) (both_iff attributes search) in
    (
      (λ h. let ((p, s), (a, q)) = whole.0 h in (p, s, a, q)),
      (λ h. whole.1 ((h.0, h.1), (h.2, h.3))),
    )
  where
    patterns_iff :
        (m : Dict String)
        → (check_patterns (ConfigError.pattern i) m ≡ none) ↔ All (λ kv. is_glob kv.1 ≡ true) m
    patterns_iff m =
        check_each_iff
          (λ _ kv. fail_if (not (kv.1 == "") && not (is_glob kv.1)) (ConfigError.pattern i kv.0))
          (λ kv. is_glob kv.1 ≡ true) (λ _ kv. glob_iff (ConfigError.pattern i kv.0) kv.1) 0 m

    attributes_iff :
        (err : String → ConfigError) (m : Dict String)
        → (check_attributes err m ≡ none) ↔ All (λ kv. is_glob kv.1 ≡ true) m
    attributes_iff err m =
        check_each_iff (λ _ kv. fail_if (not (is_glob kv.1)) (err kv.0)) (λ kv. is_glob kv.1 ≡ true)
          (λ _ kv. ((λ h. ground arith), (λ h. ground arith))) 0 m

types_iff :
    (i : ℕ) (t : String)
    → (fail_if (not (any (◌==◌ t) request_types)) (ConfigError.rule_type i t) ≡ none)
      ↔ (any (◌==◌ t) request_types ≡ true)
types_iff i t = ((λ h. ground arith), (λ h. ground arith))

pub validate_rule_iff : (i : ℕ) (rule : TrustRule) → (validate_rule i rule ≡ none) ↔ IsRule rule
unfolding validate_rule
validate_rule_iff i rule =
    let types =
      check_each_iff (λ _ t. fail_if (not (any (◌==◌ t) request_types)) (ConfigError.rule_type i t))
        (λ t. any (◌==◌ t) request_types ≡ true) (λ _ t. types_iff i t) 0 rule.request_types in
    let whole =
      both_iff (validate_action_iff i rule) (both_iff types (validate_globs_iff i rule)) in
    (
      (λ h.
          let ((a, g), (t, (p, s, m, q))) = whole.0 h in
          record {
            action = a;
            ignores = g;
            types = t;
            process_globs = p;
            secret_globs = s;
            attribute_globs = m;
            search_globs = q;
          }),
      (λ h. whole.1 (
        (h.action, h.ignores),
        (h.types, (h.process_globs, h.secret_globs, h.attribute_globs, h.search_globs)),
      )),
    )
