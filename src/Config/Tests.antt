-- ===== src/Config/Tests.antt =====
-- Examples of internal/config/config.go.
use secrets_dispatcher.Prelude.{◌≡◌, refl, true, none, [], ◌∷◌}
use secrets_dispatcher.Approval.Types.{TrustRule, write_item, type_name}
use secrets_dispatcher.Glob.{is_glob, glob_match}
use secrets_dispatcher.Dbus.{extract_collection}
use secrets_dispatcher.Approval.Match.{match_trust_rule, match_secret, match_secret_item}
use secrets_dispatcher.Approval.Tests.{caller, item, login_rule}
use secrets_dispatcher.Config.{Config, ServeConfig, validate}

abbrev empty_serve : ServeConfig
empty_serve = record {
  upstream = record { type = ""; path = "" };
  downstream = [];
  log_level = "";
  log_format = "";
  timeout = 0;
  history_limit = 0;
  notifications = none;
  show_pids = none;
  trim_process_chain = none;
  approval_window = 0;
  auto_approve_duration = 0;
  notification_delay = 0;
  trusted_signers = [];
  ignore_chrome_dummy_secret = none;
  upstream_slow_threshold = none;
  upstream_slow_always = none;
  rules = [];
}

abbrev empty_config : Config
empty_config = record { state_dir = ""; listen = ""; serve = empty_serve; ssh = none }

abbrev ignore_rule : TrustRule
ignore_rule = record (login_rule "ignore") { request_types = "write" ∷ [] }

abbrev full_config : Config
full_config = record empty_config {
  serve = record empty_serve {
    upstream = record { type = "session_bus"; path = "" };
    downstream = record { type = "sockets"; path = "/run" } ∷ [];
    rules = ignore_rule ∷ [];
  };
}

full_valid : validate full_config ≡ none
unfolding validate is_glob
full_valid = refl

ignores_write : match_trust_rule ignore_rule caller (item ∷ []) write_item [] ≡ true
unfolding match_trust_rule type_name match_secret match_secret_item glob_match extract_collection
ignores_write = refl
