-- ===== src/Approval/Match.antt =====
-- internal/approval/manager.go: the matchers of auto-approve rules, trust rules and trusted signers.
pub mod Scope
pub mod Identity
pub mod Signer
pub mod Attributes
use secrets_dispatcher.Prelude.{
  ℕ, String, Bool, true, false, not, ◌&&◌, ◌||◌, Option, none, some, List, [], ◌∷◌, eqb, any, all,
  is_empty, length, ◌==◌, if◌then◌else◌,
}
use secrets_dispatcher.Prelude.Dict.{Dict, get}
use secrets_dispatcher.Text.{has_prefix}
use secrets_dispatcher.Glob.{glob_match}
use secrets_dispatcher.Dbus.{extract_collection}
use secrets_dispatcher.Approval.Types.{
  ProcessInfo, ProcessMatcher, SecretMatcher, TrustRule, SenderInfo, ItemInfo, RequestType,
  TrustedSigner, AutoApproveRule, type_name, is_type,
}

-- `m[k]` of a map of texts: the empty text where the key is missing.
abbrev pub at : String → Dict String → String
at k m = elim (get k m) [ none ↦ "" | some v ↦ v ]

unfoldable pub attributes_equal : Dict String → Dict String → Bool
attributes_equal a b = eqb (length a) (length b) && all (λ kv. at kv.0 b == kv.1) a

unfoldable pub attributes_match : Dict String → Dict String → Bool
attributes_match rule_attrs req_attrs = all (λ kv. glob_match kv.1 (at kv.0 req_attrs)) rule_attrs

unfoldable pub covers_item : AutoApproveRule → ItemInfo → Bool
covers_item rule it =
    (rule.collection == "" || rule.collection == extract_collection it.path)
    && attributes_match rule.attributes it.attributes

unfoldable pub auto_approve_covers_all : AutoApproveRule → List ItemInfo → Bool
auto_approve_covers_all rule [] = rule.collection == "" && is_empty rule.attributes
auto_approve_covers_all rule (it ∷ items) = all (covers_item rule) (it ∷ items)

unfoldable pub invoker_exe_in : ℕ → List ProcessInfo → String
invoker_exe_in pid [] = ""
invoker_exe_in pid (p ∷ chain) =
    if eqb p.pid pid && not (p.exe == "") then p.exe else invoker_exe_in pid chain

unfoldable pub invoker_exe_path : SenderInfo → String
unfolding invoker_exe_in
invoker_exe_path s = invoker_exe_in s.pid s.process_chain

-- A test that an empty pattern switches off.
abbrev pub unless_empty : String → Bool → Bool
unless_empty pattern test = pattern == "" || test

unfoldable pub match_process : ProcessMatcher → SenderInfo → Bool
match_process pm s =
    unless_empty pm.exe (any (λ p. glob_match pm.exe p.exe) s.process_chain)
    && unless_empty pm.name (any (λ p. glob_match pm.name p.name) s.process_chain)
    && unless_empty pm.args (any (λ p. any (glob_match pm.args) p.args) s.process_chain)
    && unless_empty pm.cwd (any (λ p. glob_match pm.cwd p.cwd) s.process_chain)
    && unless_empty pm.unit (glob_match pm.unit s.systemd_unit)

unfoldable pub match_secret_item : SecretMatcher → ItemInfo → Bool
match_secret_item sm item =
    unless_empty sm.collection (glob_match sm.collection (extract_collection item.path))
    && unless_empty sm.label (glob_match sm.label item.label)
    && (is_empty sm.attributes || attributes_match sm.attributes item.attributes)

abbrev pub is_unconstrained : SecretMatcher → Bool
is_unconstrained sm = sm.collection == "" && sm.label == "" && is_empty sm.attributes

unfoldable pub match_secret : SecretMatcher → List ItemInfo → Bool → Bool
match_secret sm items restrictive =
    if is_unconstrained sm
    then true
    else if restrictive
    then any (match_secret_item sm) items
    else if is_empty items
    then false
    else all (match_secret_item sm) items

abbrev pub is_restrictive : TrustRule → Bool
is_restrictive rule = rule.action == "deny" || rule.action == "ignore"

abbrev pub process_ok : Option ProcessMatcher → SenderInfo → Bool
process_ok none s = true
process_ok (some pm) s = match_process pm s

abbrev pub secret_ok : Option SecretMatcher → List ItemInfo → Bool → Bool
secret_ok none items restrictive = true
secret_ok (some sm) items restrictive = match_secret sm items restrictive

unfoldable pub match_trust_rule :
    TrustRule → SenderInfo → List ItemInfo → RequestType → Dict String → Bool
match_trust_rule rule s items req_type search_attrs =
    (is_empty rule.request_types || any (◌==◌ (type_name req_type)) rule.request_types)
    && process_ok rule.process s
    && secret_ok rule.secret items (is_restrictive rule)
    && (is_empty rule.search_attributes || attributes_match rule.search_attributes search_attrs)

-- The first rule that matches.
unfoldable pub check_trust_rules :
    List TrustRule → SenderInfo → List ItemInfo → RequestType → Dict String → Option TrustRule
check_trust_rules [] s items req_type search_attrs = none
check_trust_rules (rule ∷ rules) s items req_type search_attrs =
    if match_trust_rule rule s items req_type search_attrs
    then some rule
    else check_trust_rules rules s items req_type search_attrs

unfoldable pub all_files_match : List String → String → Bool
all_files_match files prefix = all (λ f. has_prefix f prefix) files

-- The inner loop: one process against one entry.
unfoldable pub signer_matches : ProcessInfo → String → List String → TrustedSigner → Bool
signer_matches proc repo_name changed_files ts =
    proc.exe == ts.exe_path
    && unless_empty ts.repo_path (repo_name == ts.repo_path)
    && unless_empty ts.file_prefix (all_files_match changed_files ts.file_prefix)

unfoldable pub check_trusted_signer : List TrustedSigner → SenderInfo → String → List String → Bool
check_trusted_signer signers s repo_name changed_files =
    if is_empty signers
    then false
    else if not s.peer_trusted
    then false
    else any
        (λ proc. not (proc.exe == "") && any (signer_matches proc repo_name changed_files) signers)
        s.process_chain

-- One rule against the caller: the identity that cannot be forged, the type, and every item.
unfoldable pub rule_applies : AutoApproveRule → SenderInfo → List ItemInfo → RequestType → Bool
unfolding invoker_exe_path
rule_applies rule s items req_type =
    let caller = invoker_exe_path s in
    not (caller == "")
    && rule.invoker_exe == caller
    && is_type rule.request_type req_type
    && auto_approve_covers_all rule items
