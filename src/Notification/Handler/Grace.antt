-- ===== src/Notification/Handler/Grace.antt =====
-- internal/notification/desktop.go: the grace period before a notification.
use secrets_dispatcher.Prelude.{
  ℕ, ◌+◌, ◌≤◌, String, ◌≡◌, ◌≢◌, refl, ap, ◌∙◌, Option, none, some, List, [], ◌∷◌, inl, inr, eqb,
  eq_iff, eq_refl, Option-cases, Bool-cases, if_elim, arith, All, le→leb,
}
use secrets_dispatcher.Prelude.Dict.{get, erase, get-insert, get-erase}
use secrets_dispatcher.Approval.Types.{
  Request, EventType, request_created, request_approved, request_denied, request_expired,
  request_cancelled, request_auto_approved, request_ignored, rule_added, rule_removed,
}
use secrets_dispatcher.Notification.Handler.{
  Handler, Effect, notify, Timer, shown_for, store_notification, fire_timer, handle_created,
  close_notification, handle_resolved, handle_cancelled, on_event, handle_action, Input, event,
  click, elapsed, answered, handle, run, approval_notice, schedule,
}

-- The events that end a request.
abbrev pub Ends : EventType → Type 0
Ends request_approved = Unit
Ends request_denied = Unit
Ends request_expired = Unit
Ends request_cancelled = Unit
Ends request_auto_approved = Unit
Ends _ = ⊥

ends_silently :
    (h : Handler) (e : EventType) (req : Request) (now : ℕ) (t : Timer)
    → Ends e
    → get req.id h.timers ≡ some t
    → on_event h e req now ≡ (record h { timers = erase req.id h.timers }, [])
unfolding on_event handle_resolved handle_cancelled
ends_silently h request_approved req now t f e = rw e refl
ends_silently h request_denied req now t f e = rw e refl
ends_silently h request_expired req now t f e = rw e refl
ends_silently h request_cancelled req now t f e = rw e refl
ends_silently h request_auto_approved req now t f e = rw e refl
ends_silently h request_created req now t f e = absurd f
ends_silently h request_ignored req now t f e = absurd f
ends_silently h rule_added req now t f e = absurd f
ends_silently h rule_removed req now t f e = absurd f

fires_nothing :
    (h : Handler) (id : String) (now : ℕ) → get id h.timers ≡ none → fire_timer h id now ≡ (h, [])
unfolding fire_timer
fires_nothing h id now e = rw e refl

scheduled :
    (h : Handler) (req : Request) (now : ℕ)
    → h.notification_delay ≢ 0
    → get req.id (handle_created h req now).0.timers
      ≡ some (record { due = now + h.notification_delay; request = req })
unfolding handle_created
scheduled h req now d = elim (Bool-cases (eqb h.notification_delay 0)) [
  | inl e ↦ absurd (d (ground arith))
  | inr e ↦ rw e (
      get-insert req.id req.id (record { due = now + h.notification_delay; request = req }) h.timers
      ∙ rw (eq_refl req.id) refl)
]

-- The timer of a request, and what its notification is written with, are as before.
record Keeps (id : String) (h h' : Handler) : Type 0 where
  timer : get id h'.timers ≡ get id h.timers
  pids : h'.show_pids ≡ h.show_pids
  duration : h'.auto_approve_duration ≡ h.auto_approve_duration

Keeps-refl : (id : String) (h : Handler) → Keeps id h h
Keeps-refl id h = record { timer = refl; pids = refl; duration = refl }

-- The input is not about the request's own events or timer.
abbrev pub Elsewhere : String → Input → Type 0
Elsewhere id (event e req now) = req.id ≢ id
Elsewhere id (elapsed j now) = j ≢ id
Elsewhere id (click n key) = Unit
Elsewhere id (answered j o) = Unit

module _ (id : String) (h : Handler) where
  erase-Keeps : (j : String) → j ≢ id → Keeps id h (record h { timers = erase j h.timers })
  erase-Keeps j d = record {
    timer = ground (arith, get-erase j id h.timers, eq_iff j id, d);
    pids = refl;
    duration = refl;
  }

  close-Keeps : (j : String) → Keeps id h (close_notification h j).0
  unfolding close_notification
  close-Keeps j = elim (Option-cases (get j h.notifications)) [
    | inl e ↦ rw e (Keeps-refl id h)
    | inr (n, e) ↦ rw e (record { timer = refl; pids = refl; duration = refl })
  ]

  resolved-Keeps : (j : String) → j ≢ id → Keeps id h (handle_resolved h j).0
  unfolding handle_resolved
  resolved-Keeps j d = elim (Option-cases (get j h.timers)) [
    | inl e ↦ rw e (close-Keeps j)
    | inr (t, e) ↦ rw e (erase-Keeps j d)
  ]

  cancelled-Keeps :
      (req : Request) (now : ℕ) → req.id ≢ id → Keeps id h (handle_cancelled h req now).0
  unfolding handle_cancelled
  cancelled-Keeps req now d = elim (Option-cases (get req.id h.timers)) [
    | inl e ↦ rw e (record {
      timer = (close-Keeps req.id).timer;
      pids = (close-Keeps req.id).pids;
      duration = (close-Keeps req.id).duration;
    })
    | inr (t, e) ↦ rw e (erase-Keeps req.id d)
  ]

  created-Keeps : (req : Request) (now : ℕ) → req.id ≢ id → Keeps id h (handle_created h req now).0
  unfolding handle_created
  created-Keeps req now d =
      let timer : Timer = record { due = now + h.notification_delay; request = req } in
      if_elim (λ (r : Handler × List Effect). Keeps id h r.0) (eqb h.notification_delay 0)
        (h, notify req.id (approval_notice h req) ∷ []) (schedule h req now, []) (Keeps-refl id h)
        (record {
          timer = ground (arith, get-insert req.id id timer h.timers, eq_iff req.id id, d);
          pids = refl;
          duration = refl;
        })

  event-Keeps :
      (e : EventType) (req : Request) (now : ℕ) → req.id ≢ id → Keeps id h (on_event h e req now).0
  unfolding on_event
  event-Keeps request_created req now d = created-Keeps req now d
  event-Keeps request_cancelled req now d = cancelled-Keeps req now d
  event-Keeps request_approved req now d = resolved-Keeps req.id d
  event-Keeps request_denied req now d = resolved-Keeps req.id d
  event-Keeps request_expired req now d = resolved-Keeps req.id d
  event-Keeps request_auto_approved req now d = resolved-Keeps req.id d
  event-Keeps _ req now d = Keeps-refl id h

  fire-Keeps : (j : String) (now : ℕ) → j ≢ id → Keeps id h (fire_timer h j now).0
  unfolding fire_timer
  fire-Keeps j now d = elim (Option-cases (get j h.timers)) [
    | inl e ↦ rw e (Keeps-refl id h)
    | inr (t, e) ↦ rw e (
        if_elim (λ (r : Handler × List Effect). Keeps id h r.0) _ _ _ (erase-Keeps j d)
          (Keeps-refl id h))
  ]

  action-Keeps : (n : ℕ) (key : String) → Keeps id h (handle_action h n key).0
  unfolding handle_action
  action-Keeps n key = elim (Option-cases (shown_for n h.requests)) [
    | inl e ↦ rw e (Keeps-refl id h)
    | inr (j, e) ↦ rw e (record { timer = refl; pids = refl; duration = refl })
  ]

  store-Keeps : (j : String) (o : Option ℕ) → Keeps id h (store_notification h j o)
  unfolding store_notification
  store-Keeps j none = Keeps-refl id h
  store-Keeps j (some n) = record { timer = refl; pids = refl; duration = refl }

  handle-Keeps : (i : Input) → Elsewhere id i → Keeps id h (handle h i).0
  unfolding handle
  handle-Keeps (event e req now) d = event-Keeps e req now d
  handle-Keeps (click n key) d = action-Keeps n key
  handle-Keeps (elapsed j now) d = fire-Keeps j now d
  handle-Keeps (answered j o) d = store-Keeps j o

run-Keeps :
    (id : String) (h : Handler) (is : List Input) → All (Elsewhere id) is → Keeps id h (run h is)
unfolding run
run-Keeps id h [] d = Keeps-refl id h
run-Keeps id h (i ∷ is) d =
    let first = handle-Keeps id h i d.0 in
    let rest = run-Keeps id (handle h i).0 is d.1 in
    record {
      timer = rest.timer ∙ first.timer;
      pids = rest.pids ∙ first.pids;
      duration = rest.duration ∙ first.duration;
    }

notice-Keeps :
    (id : String) (h h' : Handler) (req : Request)
    → Keeps id h h'
    → approval_notice h' req ≡ approval_notice h req
unfolding approval_notice
notice-Keeps id h h' req k = rw (k.pids, k.duration) refl

-- The handler that has learnt of a request and then handled other inputs.
abbrev pub waited : Handler → Request → ℕ → List Input → Handler
waited h req now is = run (on_event h request_created req now).0 is

module _ (h : Handler) (req : Request) (now : ℕ) (delay : h.notification_delay ≢ 0)
    (is : List Input) (others : All (Elsewhere req.id) is) where
  still_scheduled :
      get req.id (waited h req now is).timers
      ≡ some (record { due = now + h.notification_delay; request = req })
  unfolding on_event
  still_scheduled =
      (run-Keeps req.id (on_event h request_created req now).0 is others).timer
      ∙ scheduled h req now delay

  created_silently : (on_event h request_created req now).1 ≡ []
  unfolding on_event handle_created
  created_silently = elim (Bool-cases (eqb h.notification_delay 0)) [
    | inl e ↦ absurd (delay (ground arith))
    | inr e ↦ rw e refl
  ]

  created_notice :
      approval_notice (on_event h request_created req now).0 req ≡ approval_notice h req
  unfolding on_event handle_created approval_notice
  created_notice =
      if_elim (λ (r : Handler × List Effect). approval_notice r.0 req ≡ approval_notice h req)
        (eqb h.notification_delay 0) (h, notify req.id (approval_notice h req) ∷ [])
        (schedule h req now, []) refl refl

  -- A request whose grace period ends undecided is shown: whatever else happened to the handler, the
  -- timer's callback asks for its notification, if there is a grace period at all.
  pub undecided_shown :
      (later : ℕ)
      → now + h.notification_delay ≤ later
      → (fire_timer (waited h req now is) req.id later).1
        ≡ notify req.id (approval_notice h req) ∷ []
  unfolding fire_timer
  undecided_shown later due =
      rw (still_scheduled, le→leb _ _ due)
        (ap (λ n. notify req.id n ∷ [])
          (notice-Keeps req.id (on_event h request_created req now).0 (waited h req now is) req
              (run-Keeps req.id (on_event h request_created req now).0 is others)
            ∙ created_notice))

  -- A request that ends within its grace period is never shown: its creation, its end and what the
  -- timer does afterwards ask nothing of the notification server, if there is a grace period at all.
  pub short_request_silent :
      (e : EventType) (t later : ℕ)
      → Ends e
      → ((on_event h request_created req now).1 ≡ [])
        × ((on_event (waited h req now is) e req t).1 ≡ [])
        × (fire_timer (on_event (waited h req now is) e req t).0 req.id later
            ≡ ((on_event (waited h req now is) e req t).0, []))
        × ((on_event (waited h req now is) e req t).0.notifications
            ≡ (waited h req now is).notifications)
  short_request_silent e t later f =
      let ended = ends_silently (waited h req now is) e req t _ f still_scheduled in
      (
        created_silently,
        ap (λ (r : Handler × List Effect). r.1) ended,
        fires_nothing (on_event (waited h req now is) e req t).0 req.id later (
            ap (λ (r : Handler × List Effect). get req.id r.0.timers) ended
            ∙ get-erase req.id req.id (waited h req now is).timers
            ∙ rw (eq_refl req.id) refl),
        ap (λ (r : Handler × List Effect). r.0.notifications) ended,
      )
