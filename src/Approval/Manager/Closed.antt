-- ===== src/Approval/Manager/Closed.antt =====
-- One induction over the calls: a property that the parts of the calls keep is kept by every call.
use secrets_dispatcher.Prelude.{
  if_elim, any, eqb, ℕ, ◌+◌, String, ◌≡◌, refl, ap, false, none, some, arith, ◌==◌, eq_iff, Option,
  ◌∙◌,
}
use secrets_dispatcher.Prelude.Dict.{get, get-insert}
use secrets_dispatcher.Approval.Types.{
  HistoryEntry, AutoApproveRule, request_ignored, request_denied, request_expired,
  request_cancelled, request_auto_approved, Request, TrustRule, EventType, request_created,
}
use secrets_dispatcher.Approval.Manager.{
  Manager, add_history_entry, notify, allocate, enter_pending, drop_pending, get_pending, subscribe,
  unsubscribe,
}
use secrets_dispatcher.Approval.Manager.Cache.{check_approval_cache}
use secrets_dispatcher.Approval.Manager.Resolve.{
  Call, resolve_found, resolve, approve, deny, cancel, approve_and_auto_approve,
  approve_with_signature, approve_gpg_failed, close_request, written, afterwards, event_of,
}
use secrets_dispatcher.Approval.Manager.Require.{
  Ask, Outcome, by_trust_rule, by_auto_rule, request_of, Wake, by_done, by_timer, by_context, wake,
  require_approval, require_by_rules, require_by_trust, apply_trust_rule, open_request,
  record_resolved, record_passthrough, record_ignored, record_denied, create_gpg_sign_request,
  expire_gpg_sign_request, record_auto_approved_gpg_sign, may_use_cache,
}
use secrets_dispatcher.Approval.Manager.Effects.{
  Quiet, cache_approval-Quiet, add_auto_approve_rule-Quiet, check_approval_cache-Quiet,
  check_auto_approve_rules-Quiet, cache_item_for_sender-Quiet, remove_auto_approve_rule-Quiet,
}
use secrets_dispatcher.Approval.Manager.Invariant.{OpenAt}
use secrets_dispatcher.Approval.Manager.Steps.{
  Op, require, wakes, resolves, create_gpg, expire_gpg, auto_gpg, passthrough, record_ignore,
  record_deny, cache_item, add_entry, check_rules, add_rule, remove_rule, subscribes, unsubscribes,
  step, IsFresh, Reach, here, next,
}

-- What the calls are made of, each part with what is known where it is used.
pub record Closed (P : Manager → Type 0) : Type 0 where
  pub quiet : (m : Manager) → P m → (m' : Manager) → Quiet m m' → P m'
  pub notifies :
      (m : Manager) → P m → (e : EventType) (id : String) (now : ℕ) → P (notify m e id now)
  pub logs : (m : Manager) → P m → (e : HistoryEntry) → P (add_history_entry m e)
  pub allocates : (m : Manager) → P m → (r : Request) → get r.id m.heap ≡ none → P (allocate m r)
  pub enters : (m : Manager) → P m → (id : String) → OpenAt m.heap id → P (enter_pending m id)
  pub drops : (m : Manager) → P m → (id : String) → P (drop_pending m id)
  pub closes :
      (m : Manager)
      → P m
      → (id : String) (r : Request) → get_pending m id ≡ some r
      → (r' : Request) → r'.id ≡ r.id
      → P (close_request m r')

pub written_id : (call : Call) (r : Request) → (written call r).id ≡ r.id
written_id approve r = refl
written_id _ r = refl

module _ {P : Manager → Type 0} (k : Closed P) (m : Manager) (v : P m) where
  record_resolved-Keeps :
      (a : Ask) (e : EventType) (id : String) (now : ℕ)
      → get id m.heap ≡ none
      → P (record_resolved m a e id now)
  unfolding record_resolved
  record_resolved-Keeps a e id now fresh =
      k.notifies _ (k.allocates m v (request_of a id now now) fresh) e id now

  -- A new object that waits: allocated, entered and announced.
  open-Keeps :
      (r : Request) (now : ℕ)
      → get r.id m.heap ≡ none
      → r.is_done ≡ false
      → P (notify (enter_pending (allocate m r) r.id) request_created r.id now)
  open-Keeps r now fresh undone =
      k.notifies _
        (k.enters (allocate m r) (k.allocates m v r fresh) r.id
          (r, ground (arith, get-insert r.id r.id r m.heap, eq_iff r.id r.id), refl, undone))
        request_created r.id now

  apply_trust_rule-Keeps :
      (a : Ask) (rule : TrustRule) (id : String) (now : ℕ)
      → get id m.heap ≡ none
      → P (apply_trust_rule m a rule id now).0
  unfolding apply_trust_rule
  apply_trust_rule-Keeps a rule id now fresh =
      if_elim (λ (r : Manager × Outcome). P r.0) (rule.action == "ignore") _ _
        (record_resolved-Keeps a request_ignored id now fresh)
        (if_elim (λ (r : Manager × Outcome). P r.0) (rule.action == "deny") _ _
          (record_resolved-Keeps a request_denied id now fresh)
          (record_resolved-Keeps a request_auto_approved id now fresh))

  by_trust_rule-Keeps :
      (o : Option TrustRule) (a : Ask) (id : String) (now : ℕ)
      → get id m.heap ≡ none
      → P (by_trust_rule o m a id now).0
  unfolding by_trust_rule open_request
  by_trust_rule-Keeps (some rule) a id now fresh = apply_trust_rule-Keeps a rule id now fresh
  by_trust_rule-Keeps none a id now fresh =
      open-Keeps (request_of a id now (now + m.timeout)) now fresh refl

  require_by_trust-Keeps :
      (a : Ask) (id : String) (now : ℕ) → get id m.heap ≡ none → P (require_by_trust m a id now).0
  unfolding require_by_trust
  require_by_trust-Keeps a id now fresh = by_trust_rule-Keeps _ a id now fresh

  by_auto_rule-Keeps :
      (o : Option AutoApproveRule) (a : Ask) (id : String) (now : ℕ)
      → get id m.heap ≡ none
      → P (by_auto_rule o m a id now).0
  unfolding by_auto_rule
  by_auto_rule-Keeps (some rule) a id now fresh =
      record_resolved-Keeps a request_auto_approved id now fresh
  by_auto_rule-Keeps none a id now fresh = require_by_trust-Keeps a id now fresh

module _ {P : Manager → Type 0} (k : Closed P) (m : Manager) (v : P m) where
  require_by_rules-Keeps :
      (a : Ask) (id : String) (now : ℕ) → get id m.heap ≡ none → P (require_by_rules m a id now).0
  unfolding require_by_rules
  require_by_rules-Keeps a id now fresh =
      let q = check_auto_approve_rules-Quiet m a.sender_info a.items a.type now in
      by_auto_rule-Keeps k _ (k.quiet m v _ q) _ a id now (ap (get id) q.heap ∙ fresh)

module _ {P : Manager → Type 0} (k : Closed P) (m : Manager) (v : P m) where
  require_approval-Keeps :
      (a : Ask) (id : String) (now : ℕ) → get id m.heap ≡ none → P (require_approval m a id now).0
  unfolding require_approval
  require_approval-Keeps a id now fresh =
      let q = check_approval_cache-Quiet m a.sender_info.sender a.items now in
      let hit = check_approval_cache m a.sender_info.sender a.items now in
      if_elim (λ (r : Manager × Outcome). P r.0) m.disabled _ _ v
        (if_elim (λ (r : Manager × Outcome). P r.0) (may_use_cache m a) _ _
          (if_elim (λ (r : Manager × Outcome). P r.0) hit.0 _ _ (k.quiet m v hit.1 q)
            (require_by_rules-Keeps k hit.1 (k.quiet m v hit.1 q) a id now
              (ap (get id) q.heap ∙ fresh)))
          (require_by_rules-Keeps k m v a id now fresh))

  afterwards-Keeps : (call : Call) (req : Request) (now : ℕ) → P (afterwards call m req now)
  afterwards-Keeps approve req now = k.quiet m v _ (cache_approval-Quiet m req now)
  afterwards-Keeps (approve_and_auto_approve id) req now =
      k.quiet _ (k.quiet m v _ (cache_approval-Quiet m req now)) _
        (add_auto_approve_rule-Quiet _ req id now)
  afterwards-Keeps (approve_with_signature sig status) req now =
      k.quiet m v _ (cache_approval-Quiet m req now)
  afterwards-Keeps deny req now = v
  afterwards-Keeps cancel req now = v
  afterwards-Keeps (approve_gpg_failed status code) req now = v

module _ {P : Manager → Type 0} (k : Closed P) (m : Manager) (v : P m) where
  resolve_found-Keeps :
      (call : Call) (id : String) (o : Option Request) (now : ℕ)
      → get_pending m id ≡ o
      → P (resolve_found call o m now).0
  unfolding resolve_found
  resolve_found-Keeps call id none now e = v
  resolve_found-Keeps call id (some req) now e =
      let req' = written call req in
      afterwards-Keeps k _
        (k.notifies _ (k.closes m v id req e req' (written_id call req)) (event_of call) req.id now)
        call req' now

  subscribe-Keeps : (o : ℕ) → P (subscribe m o)
  unfolding subscribe
  subscribe-Keeps o =
      if_elim P (any (eqb o) m.observers) _ _ v
        (k.quiet m v _ (record { heap = refl; pending = refl; history = refl; config = refl }))

  wake-Keeps : (w : Wake) (id : String) (now : ℕ) → P (wake w m id now).0
  unfolding wake
  wake-Keeps by_done id now = k.drops m v id
  wake-Keeps by_timer id now = k.drops _ (k.notifies m v request_expired id now) id
  wake-Keeps by_context id now = k.drops _ (k.notifies m v request_cancelled id now) id

pub step-Keeps :
    {P : Manager → Type 0} → Closed P → (m : Manager) (op : Op) → P m → IsFresh m op → P (step m op)
unfolding step
step-Keeps k m (require a id now) v fresh = require_approval-Keeps k m v a id now fresh
step-Keeps k m (wakes w id now) v fresh = wake-Keeps k m v w id now
step-Keeps k m (resolves call id now) v fresh =
    unfold resolve in resolve_found-Keeps k m v call id _ now refl
step-Keeps k m (create_gpg client none s id now) v fresh = unfold create_gpg_sign_request in v
step-Keeps k m (create_gpg client (some info) s id now) v fresh =
    unfold create_gpg_sign_request in open-Keeps k m v _ now fresh refl
step-Keeps k m (expire_gpg id now) v fresh =
    unfold expire_gpg_sign_request in k.notifies _ (k.drops m v id) request_expired id now
step-Keeps k m (auto_gpg client none s sig status id now) v fresh =
    unfold record_auto_approved_gpg_sign in v
step-Keeps k m (auto_gpg client (some info) s sig status id now) v fresh =
    unfold record_auto_approved_gpg_sign in
    k.notifies _ (k.allocates m v _ fresh) request_auto_approved id now
step-Keeps k m (passthrough a id now) v fresh =
    unfold record_passthrough in record_resolved-Keeps k m v a request_auto_approved id now fresh
step-Keeps k m (record_ignore a id now) v fresh =
    unfold record_ignored in record_resolved-Keeps k m v _ request_ignored id now fresh
step-Keeps k m (record_deny a id now) v fresh =
    unfold record_denied in record_resolved-Keeps k m v a request_denied id now fresh
step-Keeps k m (cache_item sender path now) v fresh =
    k.quiet m v _ (cache_item_for_sender-Quiet m sender path now)
step-Keeps k m (add_entry entry) v fresh = k.logs m v entry
step-Keeps k m (check_rules s items t now) v fresh =
    k.quiet m v _ (check_auto_approve_rules-Quiet m s items t now)
step-Keeps k m (add_rule req id now) v fresh =
    k.quiet m v _ (add_auto_approve_rule-Quiet m req id now)
step-Keeps k m (remove_rule id) v fresh = k.quiet m v _ (remove_auto_approve_rule-Quiet m id)
step-Keeps k m (subscribes o) v fresh = subscribe-Keeps k m v o
step-Keeps k m (unsubscribes o) v fresh =
    unfold unsubscribe in
    k.quiet m v _ (record { heap = refl; pending = refl; history = refl; config = refl })

pub Reach-Keeps : {P : Manager → Type 0} → Closed P → {m t : Manager} → P m → Reach m t → P t
Reach-Keeps k v here = v
Reach-Keeps k v (next {t = t} r op fresh) = step-Keeps k t op (Reach-Keeps k v r) fresh
