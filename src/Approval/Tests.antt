-- ===== src/Approval/Tests.antt =====
-- The requests and managers that the examples of internal/approval run on.
pub mod Deciding
pub mod Matching
pub mod Reusing
use secrets_dispatcher.Prelude.{ℕ, String, true, false, none, some, List, [], ◌∷◌}
use secrets_dispatcher.Approval.Types.{
  ProcessInfo, SenderInfo, ItemInfo, TrustRule, SecretMatcher, TrustedSigner, Request, get_secret,
  AutoApproveRule,
}
use secrets_dispatcher.Approval.Manager.{Manager, Config, new_manager}
use secrets_dispatcher.Approval.Manager.Require.{Ask, request_of, require_approval}

abbrev pub git : ProcessInfo
git = record {
  name = "git";
  pid = 7;
  exe = "/usr/bin/git";
  args = "git" ∷ "push" ∷ [];
  cwd = "/src";
}

abbrev pub caller : SenderInfo
caller = record {
  sender = ":1.5";
  pid = 7;
  uid = 1000;
  user_name = "u";
  invoker_name = "git";
  systemd_unit = "user.slice";
  process_chain = git ∷ [];
  peer_trusted = true;
}

abbrev pub item : ItemInfo
item = record {
  path = "/org/freedesktop/secrets/collection/login/1";
  label = "token";
  attributes = ("host", "a.org") ∷ [];
}

abbrev pub other_item : ItemInfo
other_item = record {
  path = "/org/freedesktop/secrets/collection/work/2";
  label = "key";
  attributes = ("host", "b.org") ∷ [];
}

-- A rule for the collection "login".
abbrev pub login_rule : String → TrustRule
login_rule action = record {
  name = "login";
  action = action;
  request_types = [];
  process = none;
  secret = some (record { collection = "login"; label = ""; attributes = [] });
  search_attributes = [];
}

abbrev pub settings : Config
settings = record {
  timeout = 100;
  disabled = false;
  history_max = 2;
  approval_window = 10;
  auto_approve_duration = 50;
  trusted_signers = [];
  ignore_chrome_dummy = true;
  trust_rules = [];
}

abbrev pub start : Manager
start = new_manager settings

abbrev pub ask : Ask
ask = record {
  client = "local";
  items = item ∷ [];
  session = "/s/1";
  type = get_secret;
  search_attributes = [];
  sender_info = caller;
}

abbrev pub request : Request
request = request_of ask "r" 5 105

-- The manager with the request pending.
abbrev pub asked : Manager
asked = (require_approval start ask "r" 5).0
