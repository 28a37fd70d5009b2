-- ===== src/Approval/Manager/Race.antt =====
-- The end of `RequireApproval` in two steps, as other calls can see it: the branch of the `select` that
-- fires, and the deferred deletion. Another call can come between them.
use secrets_dispatcher.Prelude.{
  ◌<◌, String, ◌≡◌, refl, sym, ap, ap₂, subst, ℕ, ◌∙◌, true, false, none, some, List, ◌∷◌, arith,
  any, ◌==◌, eq_refl, if◌then◌else◌, take, ltb, length,
}
use secrets_dispatcher.Prelude.Dict.{get}
use secrets_dispatcher.Approval.Types.{
  Request, EventType, request_expired, request_cancelled, request_approved, approved, err_denied,
  err_timeout, err_context, err_not_found, HistoryEntry,
}
use secrets_dispatcher.Approval.Manager.{
  Manager, Config, notify, add_history_entry, deliver, drop_pending, get_pending, get_history_entry,
  find_entry,
}
use secrets_dispatcher.Approval.Manager.Resolve.{
  Call, approve, resolve, resolve_found, close_request,
}
use secrets_dispatcher.Approval.Manager.Require.{
  Outcome, returned, Wake, by_done, by_timer, by_context, wake,
}
use secrets_dispatcher.Approval.Manager.Effects.{
  heap-notify, pending-notify, any-keep, config-notify, cache_approval-Quiet,
}
use secrets_dispatcher.Approval.Manager.Settled.{resolve_missing}

-- The branch that fired.
unfoldable pub fire : Wake → Manager → String → ℕ → Manager × Outcome
fire by_done m id now = (
  m,
  elim (get id m.heap) [
    | none ↦ returned false (some err_denied)
    | some req ↦ if req.result then returned false none else returned false (some err_denied)
  ],
)
fire by_timer m id now = (notify m request_expired id now, returned false (some err_timeout))
fire by_context m id now = (notify m request_cancelled id now, returned false (some err_context))

-- `delete(m.pending, req.ID)`
unfoldable pub leave : Manager → String → Manager
leave m id = drop_pending m id

-- With nothing in between, the two steps are the one step.
wake_split :
    (w : Wake) (m : Manager) (id : String) (now : ℕ)
    → wake w m id now ≡ (leave (fire w m id now).0 id, (fire w m id now).1)
unfolding wake fire leave
wake_split by_done m id now = refl
wake_split by_timer m id now = refl
wake_split by_context m id now = refl

-- Once the call that waits for a request has left, whichever branch of its select fired, a resolution
-- of the request reports that it was not found, and changes nothing.
pub left_not_found :
    (w : Wake) (call : Call) (m : Manager) (id : String) (now later : ℕ)
    → resolve call (leave (fire w m id now).0 id) id later
      ≡ (leave (fire w m id now).0 id, some err_not_found)
unfolding leave
left_not_found w call m id now later =
    resolve_missing call (leave (fire w m id now).0 id) id later
      (any-keep id id (fire w m id now).0.pending ∙ rw (eq_refl id))

find-head :
    (n : ℕ) (e : HistoryEntry) (es : List HistoryEntry)
    → 0 < n
    → find_entry e.request (take n (e ∷ es)) ≡ some e
unfolding find_entry
find-head ℕ.zero e es h = absurd (omega arith)
find-head (ℕ.suc n) e es h = rw (eq_refl e.request)

find-whole : (e : HistoryEntry) (es : List HistoryEntry) → find_entry e.request (e ∷ es) ≡ some e
unfolding find_entry
find-whole e es = rw (eq_refl e.request)

-- With room in the history, the entry that was added last is the one that is found.
get_history_entry-add :
    (m : Manager) (e : HistoryEntry)
    → 0 < m.history_max
    → get_history_entry (add_history_entry m e) e.request ≡ some e
unfolding get_history_entry add_history_entry
get_history_entry-add m e room =
    elim (ltb m.history_max (length (e ∷ m.history)))
      as (λ b.
        find_entry e.request (if b then take m.history_max (e ∷ m.history) else e ∷ m.history)
        ≡ some e) [
          | true ↦ find-head m.history_max e m.history room
          | false ↦ find-whole e m.history
        ]

get_pending-notify :
    (m : Manager) (e : EventType) (id : String) (now : ℕ)
    → get_pending (notify m e id now) id ≡ get_pending m id
unfolding get_pending
get_pending-notify m e id now =
    ap₂ (λ ids heap. if any (◌==◌ id) ids then get id heap else none) (pending-notify m e id now)
      (heap-notify m e id now)

approved_found :
    (m : Manager) (id : String) (now : ℕ)
    → 0 < m.history_max
    → find_entry id (notify m request_approved id now).history
      ≡ some (record { request = id; resolution = approved; resolved_at = now })
unfolding notify get_history_entry
approved_found m id now room =
    get_history_entry-add
      (record m {
        deliveries =
            deliver m.observers (record { type = request_approved; request = some id; rule = none })
              m.deliveries;
      })
      (record { request = id; resolution = approved; resolved_at = now }) room

approve_found :
    (m : Manager) (r : Request) (later : ℕ)
    → 0 < m.history_max
    → ((resolve_found approve (some r) m later).1 ≡ none)
      × (find_entry r.id (resolve_found approve (some r) m later).0.history
          ≡ some (record { request = r.id; resolution = approved; resolved_at = later }))
unfolding resolve_found close_request
approve_found m r later room =
    let r' = record r { result = true } in
    let t = notify (close_request m r') request_approved r.id later in
    (
      refl,
      ap (find_entry r.id) (cache_approval-Quiet t r' later).history
          ∙ approved_found (close_request m r') r.id later room,
    )

-- An approval that comes after the timer and before the deferred deletion succeeds, and the history names
-- the request as approved, though the call that asked for it gets the timeout, where the request is
-- pending and the history has room for an entry.
pub late_approval :
    (m : Manager) (r : Request) (now later : ℕ)
    → get_pending m r.id ≡ some r
    → 0 < m.history_max
    → ((fire by_timer m r.id now).1 ≡ returned false (some err_timeout))
      × ((resolve approve (fire by_timer m r.id now).0 r.id later).1 ≡ none)
      × (get_history_entry (resolve approve (fire by_timer m r.id now).0 r.id later).0 r.id
          ≡ some (record { request = r.id; resolution = approved; resolved_at = later }))
unfolding fire resolve get_history_entry
late_approval m r now later h room =
    let t = notify m request_expired r.id now in
    let found = get_pending-notify m request_expired r.id now ∙ h in
    let room' : 0 < t.history_max =
      subst (λ (c : Config). 0 < c.history_max) (sym (config-notify m request_expired r.id now))
        room in
    let (ok, entry) =
      subst
        (λ o.
          ((resolve_found approve o t later).1 ≡ none)
          × (find_entry r.id (resolve_found approve o t later).0.history
              ≡ some (record { request = r.id; resolution = approved; resolved_at = later })))
        (sym found) (approve_found t r later room') in
    (refl, ok, entry)
