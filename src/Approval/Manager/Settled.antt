-- ===== src/Approval/Manager/Settled.antt =====
-- The resolution of a pending request, the calls that come after it, and the call that waits for it:
-- `Approve` and the other resolutions of internal/approval/manager.go, and the end of `RequireApproval`.
use secrets_dispatcher.Prelude.{
  ℕ, String, ◌≡◌, refl, sym, ap, ◌∙◌, subst, true, false, none, some, any, ◌==◌, Option, eq_refl,
}
use secrets_dispatcher.Prelude.Dict.{get, get-insert}
use secrets_dispatcher.Approval.Types.{Request, Error, err_not_found, err_denied}
use secrets_dispatcher.Approval.Manager.{Manager, Config, notify, is_pending, get_pending}
use secrets_dispatcher.Approval.Manager.Resolve.{
  Call, approve, deny, cancel, approve_and_auto_approve, approve_with_signature, approve_gpg_failed,
  resolve, resolve_found, close_request, written, afterwards, event_of,
}
use secrets_dispatcher.Approval.Manager.Require.{Outcome, returned}
use secrets_dispatcher.Approval.Manager.Effects.{
  Quiet, Quiet-trans, Quiet-refl, heap-notify, pending-notify, any-keep, cache_approval-Quiet,
  add_auto_approve_rule-Quiet,
}
use secrets_dispatcher.Approval.Manager.Invariant.{Inv, get_pending_open}
use secrets_dispatcher.Approval.Manager.Closed.{Closed, written_id}
use secrets_dispatcher.Approval.Manager.Safe.{Inv-Closed}

-- The object of that ID is `r`.
abbrev pub Holds : String → Request → Manager → Type 0
Holds id r m = get id m.heap ≡ some r

module _ (c : Config) (id : String) (r : Request) (done : r.is_done ≡ true) where
  abbrev Settled : Manager → Type 0
  Settled m = Inv c m × Holds id r m × (is_pending m id ≡ false)

afterwards-Quiet :
    (call : Call) (m : Manager) (req : Request) (now : ℕ) → Quiet m (afterwards call m req now)
afterwards-Quiet approve m req now = cache_approval-Quiet m req now
afterwards-Quiet (approve_and_auto_approve id) m req now =
    Quiet-trans (cache_approval-Quiet m req now) (add_auto_approve_rule-Quiet _ req id now)
afterwards-Quiet (approve_with_signature sig status) m req now = cache_approval-Quiet m req now
afterwards-Quiet deny m req now = Quiet-refl m
afterwards-Quiet cancel m req now = Quiet-refl m
afterwards-Quiet (approve_gpg_failed status code) m req now = Quiet-refl m

-- The request as the locked section leaves it.
abbrev pub settled : Call → Request → Request
settled call r = record (written call r) { is_done = true }

-- A call for a request that is not pending reports that it was not found, and changes nothing.
pub resolve_missing :
    (call : Call) (m : Manager) (id : String) (now : ℕ)
    → is_pending m id ≡ false
    → resolve call m id now ≡ (m, some err_not_found)
unfolding resolve resolve_found get_pending
resolve_missing call m id now h = rw (h, resolve, get_pending)

-- What the waiting call returns.
abbrev pub answer : Call → Outcome
answer deny = returned false (some err_denied)
answer cancel = returned false (some err_denied)
answer _ = returned false none

module _ (c : Config) (m : Manager) (v : Inv c m) (id : String) (call : Call) (now : ℕ) where
  -- What a resolution of `r` leaves behind.
  abbrev pub IsSettledBy : Request → Manager × Option Error → Type 0
  IsSettledBy r (m', e) =
      (e ≡ none) × Inv c m' × Holds id (settled call r) m' × (is_pending m' id ≡ false)

  resolve_found_settles :
      (r : Request) → get_pending m id ≡ some r → IsSettledBy r (resolve_found call (some r) m now)
  unfolding resolve_found close_request
  resolve_found_settles r h =
      let k = Inv-Closed c in
      let r' = written call r in
      let m1 = close_request m r' in
      let m2 = notify m1 (event_of call) r.id now in
      let q = afterwards-Quiet call m2 r' now in
      let hit : (r'.id == id) ≡ true =
        ap (λ x. x == id) (written_id call r ∙ (get_pending_open m v id r h).0) ∙ eq_refl id in
      (
        refl,
        k.quiet m2
            (k.notifies m1 (k.closes m v id r h r' (written_id call r)) (event_of call) r.id now) _
            q,
        ap (get id) (q.heap ∙ heap-notify m1 (event_of call) r.id now)
            ∙ get-insert r'.id id (settled call r) m.heap
            ∙ rw hit,
        ap (any (◌==◌ id)) (q.pending ∙ pending-notify m1 (event_of call) r.id now)
            ∙ any-keep r'.id id m.pending
            ∙ rw hit,
      )

  pub resolve_settles :
      (r : Request) → get_pending m id ≡ some r → IsSettledBy r (resolve call m id now)
  unfolding resolve
  resolve_settles r h =
      subst (λ o. IsSettledBy r (resolve_found call o m now)) (sym h) (resolve_found_settles r h)
