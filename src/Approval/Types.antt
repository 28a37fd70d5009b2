-- ===== src/Approval/Types.antt =====
-- The data of internal/approval: manager.go, types.go and gpgsign.go. Times and durations are numbers
-- of nanoseconds, a duration that the code would find negative is 0, and a pointer to a request is the
-- request's ID, which is a fresh UUID.
use secrets_dispatcher.Prelude.{ℕ, ℤ, String, Bool, true, false, Option, List}
use secrets_dispatcher.Prelude.Dict.{Dict}

pub record ProcessInfo : Type 0 where
  pub name : String
  pub pid : ℕ
  pub exe : String
  pub args : List String
  pub cwd : String

pub record ProcessMatcher : Type 0 where
  pub exe : String
  pub name : String
  pub args : String
  pub cwd : String
  pub unit : String

pub record SecretMatcher : Type 0 where
  pub collection : String
  pub label : String
  pub attributes : Dict String

pub record TrustRule : Type 0 where
  pub name : String
  pub action : String
  pub request_types : List String
  pub process : Option ProcessMatcher
  pub secret : Option SecretMatcher
  pub search_attributes : Dict String

pub record SenderInfo : Type 0 where
  pub sender : String
  pub pid : ℕ
  pub uid : ℕ
  pub user_name : String
  pub invoker_name : String
  pub systemd_unit : String
  pub process_chain : List ProcessInfo
  pub peer_trusted : Bool

pub record ItemInfo : Type 0 where
  pub path : String
  pub label : String
  pub attributes : Dict String

pub data RequestType : Type 0 where
  get_secret search_items delete_item write_item ssh_sign unlock gpg_sign : RequestType

-- The strings that the constants stand for.
unfoldable pub type_name : RequestType → String
type_name get_secret = "get_secret"
type_name search_items = "search"
type_name delete_item = "delete"
type_name write_item = "write"
type_name ssh_sign = "ssh_sign"
type_name unlock = "unlock"
type_name gpg_sign = "gpg_sign"

pub record GpgSignInfo : Type 0 where
  pub repo_name : String
  pub kind : String
  pub commit_msg : String
  pub author : String
  pub committer : String
  pub key_id : String
  pub fingerprint : String
  pub changed_files : List String
  pub parent_hash : String
  pub tag_name : String
  pub target : String
  pub pushee : String
  pub commit_object : String

-- `is_done` is whether the channel `done` is closed.
pub record Request : Type 0 where
  pub id : String
  pub client : String
  pub items : List ItemInfo
  pub session : String
  pub created_at : ℕ
  pub expires_at : ℕ
  pub type : RequestType
  pub search_attributes : Dict String
  pub sender_info : SenderInfo
  pub gpg_sign_info : Option GpgSignInfo
  pub signature : List ℕ
  pub gpg_status : List ℕ
  pub gpg_exit_code : ℤ
  pub is_done : Bool
  pub result : Bool

pub data Resolution : Type 0 where
  approved denied expired cancelled auto_approved ignored : Resolution

pub record HistoryEntry : Type 0 where
  pub request : String
  pub resolution : Resolution
  pub resolved_at : ℕ

pub record TrustedSigner : Type 0 where
  pub exe_path : String
  pub repo_path : String
  pub file_prefix : String

pub record AutoApproveRule : Type 0 where
  pub id : String
  pub invoker_name : String
  pub invoker_exe : String
  pub request_type : RequestType
  pub collection : String
  pub attributes : Dict String
  pub expires_at : ℕ

pub data EventType : Type 0 where
  request_created request_approved request_denied request_expired request_cancelled : EventType
  request_auto_approved request_ignored rule_added rule_removed : EventType

pub record Event : Type 0 where
  pub type : EventType
  pub request : Option String
  pub rule : Option AutoApproveRule

pub data Error : Type 0 where
  err_denied err_timeout err_not_found err_ignored err_denied_by_rule : Error
  -- `ctx.Err()`, and the error on a missing signing context
  err_context err_no_sign_info : Error

abbrev pub is_type : RequestType → RequestType → Bool
is_type get_secret get_secret = true
is_type search_items search_items = true
is_type delete_item delete_item = true
is_type write_item write_item = true
is_type ssh_sign ssh_sign = true
is_type unlock unlock = true
is_type gpg_sign gpg_sign = true
is_type _ _ = false
