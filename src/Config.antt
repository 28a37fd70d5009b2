-- ===== src/Config.antt =====
-- internal/config/config.go: the configuration, its defaults and its validation. Durations are numbers
-- of nanoseconds and the history limit is a number; a pointer to a setting is an option.
pub mod Buses
pub mod Rules
pub mod Valid
pub mod Defaults
pub mod Tests
use secrets_dispatcher.Prelude.{
  ℕ, suc, String, Bool, true, false, not, ◌&&◌, ◌||◌, Option, none, some, List, [], ◌∷◌, any,
  is_empty, ◌==◌, eqb, if◌then◌else◌,
}
use secrets_dispatcher.Prelude.Dict.{Dict}
use secrets_dispatcher.Glob.{is_glob}
use secrets_dispatcher.Approval.Types.{TrustRule, TrustedSigner, ProcessMatcher, SecretMatcher}

pub record BusConfig : Type 0 where
  pub type : String
  pub path : String

pub record ServeConfig : Type 0 where
  pub upstream : BusConfig
  pub downstream : List BusConfig
  pub log_level : String
  pub log_format : String
  pub timeout : ℕ
  pub history_limit : ℕ
  pub notifications : Option Bool
  pub show_pids : Option Bool
  pub trim_process_chain : Option Bool
  pub approval_window : ℕ
  pub auto_approve_duration : ℕ
  pub notification_delay : ℕ
  pub trusted_signers : List TrustedSigner
  pub ignore_chrome_dummy_secret : Option Bool
  pub upstream_slow_threshold : Option ℕ
  pub upstream_slow_always : Option Bool
  pub rules : List TrustRule

pub record SshConfig : Type 0 where
  pub upstream : String
  pub listen : String

pub record Config : Type 0 where
  pub state_dir : String
  pub listen : String
  pub serve : ServeConfig
  pub ssh : Option SshConfig

-- The default, where the setting is missing.
abbrev pub text_or : String → String → String
text_or default s = if s == "" then default else s

abbrev pub number_or : ℕ → ℕ → ℕ
number_or default n = if eqb n 0 then default else n

abbrev pub set_or {ℓ} : {A : Type ℓ} → A → Option A → Option A
set_or default none = some default
set_or default (some a) = some a

abbrev pub upstream_or : BusConfig → BusConfig
upstream_or b = if b.type == "" then record { type = "session_bus"; path = "" } else b

-- The path is that of `defaultSocketsDir`: the runtime directory is the environment's.
abbrev pub downstream_or : String → List BusConfig → List BusConfig
downstream_or sockets_dir [] = record { type = "sockets"; path = sockets_dir } ∷ []
downstream_or sockets_dir (b ∷ bs) = b ∷ bs

unfoldable pub serve_defaults : String → ServeConfig → ServeConfig
serve_defaults sockets_dir s = record s {
  log_level = text_or "info" s.log_level;
  log_format = text_or "text" s.log_format;
  timeout = number_or 300000000000 s.timeout;
  history_limit = number_or 100 s.history_limit;
  notifications = set_or true s.notifications;
  show_pids = set_or false s.show_pids;
  trim_process_chain = set_or true s.trim_process_chain;
  ignore_chrome_dummy_secret = set_or true s.ignore_chrome_dummy_secret;
  approval_window = number_or 5000000000 s.approval_window;
  auto_approve_duration = number_or 120000000000 s.auto_approve_duration;
  notification_delay = number_or 500000000 s.notification_delay;
  upstream_slow_threshold = set_or 1500000000 s.upstream_slow_threshold;
  upstream = upstream_or s.upstream;
  downstream = downstream_or sockets_dir s.downstream;
}

unfoldable pub with_defaults : String → Config → Config
unfolding serve_defaults
with_defaults sockets_dir cfg = record cfg {
  listen = text_or "127.0.0.1:8484" cfg.listen;
  serve = serve_defaults sockets_dir cfg.serve;
}

-- The errors of `Validate`, with the index and the text that their messages print.
pub data ConfigError : Type 0 where
  upstream_type : String → ConfigError
  upstream_path : ConfigError
  second_session_bus : ℕ → ConfigError
  downstream_path downstream_type : ℕ → String → ConfigError
  same_bus : ConfigError
  rule_action ignore_type rule_type pattern attribute search_attribute : ℕ → String → ConfigError
  ignore_without_types : ℕ → ConfigError

-- An early return, and otherwise what follows.
abbrev pub or_next {ℓ} : {E : Type ℓ} → Option E → Option E → Option E
or_next none next = next
or_next (some e) next = some e

abbrev pub fail_if {ℓ} : {E : Type ℓ} → Bool → E → Option E
fail_if b e = if b then some e else none

-- A loop over a slice with its index that returns at the first error.
abbrev pub check_each {ℓ κ} :
    {A : Type ℓ} → {E : Type κ} → (ℕ → A → Option E) → ℕ → List A → Option E
check_each f i [] = none
check_each f i (x ∷ xs) = or_next (f i x) (check_each f (suc i) xs)

unfoldable pub validate_upstream : BusConfig → Option ConfigError
validate_upstream b =
    if not (b.type == "session_bus" || b.type == "socket")
    then some (upstream_type b.type)
    else fail_if (b.type == "socket" && b.path == "") upstream_path

-- The loop over `Downstream`: its error, and `hasSessionBusDown`.
unfoldable pub validate_downstream : ℕ → Bool → List BusConfig → Option ConfigError × Bool
validate_downstream i has [] = (none, has)
validate_downstream i has (d ∷ ds) =
    let after = validate_downstream (suc i) true ds in
    let rest = validate_downstream (suc i) has ds in
    if d.type == "session_bus"
    then if has then (some (second_session_bus i), has) else after
    else if d.type == "socket" || d.type == "sockets"
    then if d.path == "" then (some (downstream_path i d.type), has) else rest
    else (some (downstream_type i d.type), has)

abbrev pub request_types : List String
request_types = "get_secret" ∷ "search" ∷ "delete" ∷ "write" ∷ "unlock" ∷ []

-- The patterns that are checked, by the names that the errors print.
abbrev pub process_patterns : Option ProcessMatcher → Dict String
process_patterns none =
    ("process.exe", "")
    ∷ ("process.name", "")
    ∷ ("process.args", "")
    ∷ ("process.cwd", "")
    ∷ ("process.unit", "")
    ∷ []
process_patterns (some p) =
    ("process.exe", p.exe)
    ∷ ("process.name", p.name)
    ∷ ("process.args", p.args)
    ∷ ("process.cwd", p.cwd)
    ∷ ("process.unit", p.unit)
    ∷ []

abbrev pub secret_patterns : Option SecretMatcher → Dict String
secret_patterns none = ("secret.collection", "") ∷ ("secret.label", "") ∷ []
secret_patterns (some s) = ("secret.collection", s.collection) ∷ ("secret.label", s.label) ∷ []

abbrev pub secret_attributes : Option SecretMatcher → Dict String
secret_attributes none = []
secret_attributes (some s) = s.attributes

unfoldable pub validate_ignore : ℕ → List String → Option ConfigError
validate_ignore i types =
    if is_empty types
    then some (ignore_without_types i)
    else check_each (λ _ t. fail_if (not (t == "write")) (ignore_type i t)) 0 types

unfoldable pub validate_action : ℕ → TrustRule → Option ConfigError
unfolding validate_ignore
validate_action i rule =
    let action = text_or "approve" rule.action in
    if not (action == "approve" || action == "ignore" || action == "deny")
    then some (rule_action i rule.action)
    else if action == "ignore"
    then validate_ignore i rule.request_types
    else none

abbrev pub check_attributes : (String → ConfigError) → Dict String → Option ConfigError
check_attributes err m = check_each (λ _ kv. fail_if (not (is_glob kv.1)) (err kv.0)) 0 m

-- The loop over the patterns that a matcher may leave out.
abbrev pub check_patterns : (String → ConfigError) → Dict String → Option ConfigError
check_patterns err m =
    check_each (λ _ kv. fail_if (not (kv.1 == "") && not (is_glob kv.1)) (err kv.0)) 0 m

unfoldable pub validate_globs : ℕ → TrustRule → Option ConfigError
validate_globs i rule =
    or_next
      (or_next (check_patterns (pattern i) (process_patterns rule.process))
        (check_patterns (pattern i) (secret_patterns rule.secret)))
      (or_next (check_attributes (attribute i) (secret_attributes rule.secret))
        (check_attributes (search_attribute i) rule.search_attributes))

unfoldable pub validate_rule : ℕ → TrustRule → Option ConfigError
unfolding validate_action validate_globs
validate_rule i rule = or_next (validate_action i rule) (
    or_next
      (check_each (λ _ t. fail_if (not (any (◌==◌ t) request_types)) (rule_type i t)) 0
        rule.request_types)
      (validate_globs i rule))

unfoldable pub validate_buses : ServeConfig → Option ConfigError
unfolding validate_upstream validate_downstream
validate_buses s =
    let (failed, has) = validate_downstream 0 false s.downstream in
    or_next (validate_upstream s.upstream)
      (or_next failed (fail_if (s.upstream.type == "session_bus" && has) same_bus))

unfoldable pub validate : Config → Option ConfigError
unfolding validate_buses validate_rule
validate cfg = or_next (validate_buses cfg.serve) (check_each validate_rule 0 cfg.serve.rules)
