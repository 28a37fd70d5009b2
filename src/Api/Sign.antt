-- ===== src/Api/Sign.antt =====
-- internal/api/gpgsign.go: the request for a signature, and what it shows of the bytes to be signed.
pub mod Shown
use secrets_dispatcher.Prelude.{
  ℕ, String, Bool, true, false, not, ◌⊎◌, inl, inr, Option, none, some, List, [], ◌==◌,
  if◌then◌else◌,
}
use secrets_dispatcher.Text.{codes}
use secrets_dispatcher.Text.Bytes.{text_of}
use secrets_dispatcher.Approval.Types.{GpgSignInfo, SenderInfo, AutoApproveRule, Error, gpg_sign}
use secrets_dispatcher.Approval.Match.{check_trusted_signer}
use secrets_dispatcher.Approval.Manager.{Manager}
use secrets_dispatcher.Approval.Manager.Rules.{check_auto_approve_rules}
use secrets_dispatcher.Approval.Manager.Require.{
  create_gpg_sign_request, record_auto_approved_gpg_sign,
}
use secrets_dispatcher.Gpg.Payload.{
  PayloadKind, commit, tag, push, unknown, SignedPayload, parse_signed_payload,
}
use secrets_dispatcher.Api.Resolver.{GpgRunner, GpgResult, run_for}

abbrev pub kind_text : PayloadKind → String
kind_text commit = "commit"
kind_text tag = "tag"
kind_text push = "push"
kind_text unknown = "unknown"

abbrev pub shows : GpgSignInfo → SignedPayload → GpgSignInfo
shows info p = record info {
  kind = kind_text p.kind;
  author = text_of p.signer;
  committer = text_of p.committer;
  commit_msg = text_of p.message;
  parent_hash = text_of p.parent_hash;
  tag_name = text_of p.tag_name;
  target = text_of p.target;
  pushee = text_of p.pushee;
}

-- Without the warning.
unfoldable pub bind_display_to_signed_payload : GpgSignInfo → GpgSignInfo
unfolding parse_signed_payload text_of
bind_display_to_signed_payload info = shows info (parse_signed_payload (codes info.commit_object))

pub record GpgSignRequest : Type 0 where
  pub client : String
  pub gpg_sign_info : Option GpgSignInfo

-- The status of an error, or the ID of the request.
pub data SignReply : Type 0 where
  failed : ℕ → SignReply
  created : String → SignReply

abbrev pub sign_replied : Manager × (String ⊎ Error) → Manager × SignReply
sign_replied (m, inl id) = (m, created id)
sign_replied (m, inr e) = (m, failed 500)

-- What comes from outside while the call runs: the fresh UUID, the manager as the other goroutines leave
-- it while gpg runs, and the clock when the rules are checked and at the end.
pub record Course : Type 0 where
  pub id : String
  pub meanwhile : Manager → Manager
  pub checked_at : ℕ
  pub now : ℕ

abbrev pub recorded :
    GpgResult → Manager → String → GpgSignInfo → SenderInfo → Course → Manager × SignReply
recorded res m client info s c =
    if res.has_failed
    then (m, failed 500)
    else sign_replied
        (record_auto_approved_gpg_sign m client (some info) s res.sig res.status c.id c.now)

unfoldable pub sign_and_record_auto_approved :
    GpgRunner
    → Option String
    → Manager
    → String
    → GpgSignInfo
    → SenderInfo
    → Course
    → Manager × SignReply
sign_and_record_auto_approved g none m client info s c = (m, failed 500)
sign_and_record_auto_approved g (some path) m client info s c =
    recorded (run_for g path info) (c.meanwhile m) client info s c

abbrev pub by_rule :
    Option AutoApproveRule × Manager
    → GpgRunner
    → String
    → GpgSignInfo
    → SenderInfo
    → Course
    → Manager × SignReply
by_rule (some rule, m) g client info s c =
    sign_and_record_auto_approved g g.find_gpg m client info s c
by_rule (none, m) g client info s c =
    sign_replied (create_gpg_sign_request m client (some info) s c.id c.now)

-- From the binding on.
unfoldable pub sign_bound :
    GpgRunner → Manager → String → GpgSignInfo → SenderInfo → Course → Manager × SignReply
unfolding sign_and_record_auto_approved
sign_bound g m client info s c =
    if check_trusted_signer m.trusted_signers s info.repo_name info.changed_files
    then sign_and_record_auto_approved g g.find_gpg m client info s c
    else by_rule (check_auto_approve_rules m s [] gpg_sign c.checked_at) g client info s c

abbrev pub client_or_unknown : String → String
client_or_unknown client = if client == "" then "unknown" else client

abbrev pub with_info :
    Option GpgSignInfo → GpgRunner → Manager → String → SenderInfo → Course → Manager × SignReply
with_info none g m client s c = (m, failed 400)
with_info (some info) g m client s c =
    if info.commit_object == ""
    then (m, failed 400)
    else sign_bound g m (client_or_unknown client) (bind_display_to_signed_payload info) s c

abbrev pub with_body :
    Option GpgSignRequest → GpgRunner → Manager → SenderInfo → Course → Manager × SignReply
with_body none g m s c = (m, failed 400)
with_body (some req) g m s c = with_info req.gpg_sign_info g m req.client s c

-- `HandleGPGSignRequest`: whether the method is POST, the body if it can be decoded, and the peer.
unfoldable pub handle_gpg_sign_request :
    GpgRunner → Manager → Bool → Option GpgSignRequest → SenderInfo → Course → Manager × SignReply
unfolding sign_bound bind_display_to_signed_payload
handle_gpg_sign_request g m is_post body s c =
    if not is_post then (m, failed 405) else with_body body g m s c
