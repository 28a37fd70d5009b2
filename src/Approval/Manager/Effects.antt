-- ===== src/Approval/Manager/Effects.antt =====
-- What the parts of the calls leave alone, so that proofs about a call need not open them.
use secrets_dispatcher.Prelude.{
  ◌∙◌, ℕ, ◌≤◌, String, ◌≡◌, refl, not, ◌&&◌, none, some, List, [], ◌∷◌, arith, any, keep, length,
  length-take, take, ◌==◌, eq_iff, ltb, if◌then◌else◌, Option,
}
use secrets_dispatcher.Approval.Types.{
  Request, EventType, Resolution, AutoApproveRule, ItemInfo, HistoryEntry, RequestType, SenderInfo,
}
use secrets_dispatcher.Approval.Manager.{
  Manager, add_resolution, notify, notify_rule, resolution_of,
}
use secrets_dispatcher.Approval.Manager.Cache.{
  check_approval_cache, cache_approval, cache_item_for_sender,
}
use secrets_dispatcher.Approval.Manager.Rules.{
  add_auto_approve_rule, check_auto_approve_rules, remove_auto_approve_rule,
}

-- The requests, the history and the configuration are as before.
pub record Quiet (m m' : Manager) : Type 0 where
  pub heap : m'.heap ≡ m.heap
  pub pending : m'.pending ≡ m.pending
  pub history : m'.history ≡ m.history
  pub config : m'.config ≡ m.config

pub Quiet-refl : (m : Manager) → Quiet m m
Quiet-refl m = record { heap = refl; pending = refl; history = refl; config = refl }

pub Quiet-trans : {m n o : Manager} → Quiet m n → Quiet n o → Quiet m o
Quiet-trans p q = record {
  heap = q.heap ∙ p.heap;
  pending = q.pending ∙ p.pending;
  history = q.history ∙ p.history;
  config = q.config ∙ p.config;
}

pub length-trim {ℓ} :
    {A : Type ℓ} (n : ℕ) (xs : List A) → length (if ltb n (length xs) then take n xs else xs) ≤ n
length-trim n xs = ground (arith, length-take n xs)

length-add_resolution :
    (o : Option Resolution) (m : Manager) (id : String) (now : ℕ)
    → length m.history ≤ m.history_max
    → length (add_resolution o m id now).history ≤ m.history_max
unfolding add_resolution
length-add_resolution none m id now h = h
length-add_resolution (some r) m id now h = length-trim m.history_max (
    let entry : HistoryEntry = record { request = id; resolution = r; resolved_at = now } in
    entry ∷ m.history)

module _ (m : Manager) where
  pub notify_rule-Quiet : (e : EventType) (r : AutoApproveRule) → Quiet m (notify_rule m e r)
  unfolding notify_rule
  notify_rule-Quiet e r = record { heap = refl; pending = refl; history = refl; config = refl }

  pub cache_approval-Quiet : (req : Request) (now : ℕ) → Quiet m (cache_approval m req now)
  unfolding cache_approval
  cache_approval-Quiet req now = ground arith

  pub cache_item_for_sender-Quiet :
      (sender path : String) (now : ℕ) → Quiet m (cache_item_for_sender m sender path now)
  unfolding cache_item_for_sender
  cache_item_for_sender-Quiet sender path now = ground arith

  pub check_approval_cache-Quiet :
      (sender : String) (items : List ItemInfo) (now : ℕ)
      → Quiet m (check_approval_cache m sender items now).1
  unfolding check_approval_cache
  check_approval_cache-Quiet sender items now = ground arith

  pub check_auto_approve_rules-Quiet :
      (s : SenderInfo) (items : List ItemInfo) (t : RequestType) (now : ℕ)
      → Quiet m (check_auto_approve_rules m s items t now).1
  unfolding check_auto_approve_rules
  check_auto_approve_rules-Quiet s items t now = record {
    heap = refl;
    pending = refl;
    history = refl;
    config = refl;
  }

  pub add_auto_approve_rule-Quiet :
      (req : Request) (id : String) (now : ℕ) → Quiet m (add_auto_approve_rule m req id now).0
  unfolding add_auto_approve_rule notify_rule
  add_auto_approve_rule-Quiet req id now = ground arith

  pub remove_auto_approve_rule-Quiet : (id : String) → Quiet m (remove_auto_approve_rule m id).0
  unfolding remove_auto_approve_rule notify_rule
  remove_auto_approve_rule-Quiet id = ground arith

  pub heap-notify : (e : EventType) (id : String) (now : ℕ) → (notify m e id now).heap ≡ m.heap
  unfolding notify
  heap-notify e id now = ground arith

  pub pending-notify :
      (e : EventType) (id : String) (now : ℕ) → (notify m e id now).pending ≡ m.pending
  unfolding notify
  pending-notify e id now = ground arith

  pub config-notify :
      (e : EventType) (id : String) (now : ℕ) → (notify m e id now).config ≡ m.config
  unfolding notify
  config-notify e id now = ground arith

  pub length-notify :
      (e : EventType) (id : String) (now : ℕ)
      → length m.history ≤ m.history_max
      → length (notify m e id now).history ≤ m.history_max
  unfolding notify
  length-notify e id now h = length-add_resolution (resolution_of e) _ id now h

-- Membership in the keys of `pending` after a `delete`.
pub any-keep :
    (k id : String) (ids : List String)
    → any (◌==◌ id) (keep (λ j. not (k == j)) ids) ≡ (not (k == id) && any (◌==◌ id) ids)
any-keep k id [] = ground arith
any-keep k id (j ∷ ids) = ground (arith, any-keep k id ids, eq_iff k j, eq_iff k id, eq_iff id j)
