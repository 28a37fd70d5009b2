-- ===== src/Notification/Handler/Clicks.antt =====
-- internal/notification/desktop.go: what a click decides, and what reaches the approver.
use secrets_dispatcher.Prelude.{
  ℕ, ◌≤◌, String, ◌≡◌, ◌↔◌, refl, ap, ◌∙◌, none, some, [], ◌∷◌, ◌⊎◌, inl, inr, eq_iff, eq_refl,
  Option-cases, arith, le→leb,
}
use secrets_dispatcher.Prelude.Dict.{get, erase, get-insert, get-erase}
use secrets_dispatcher.Approval.Types.{Request, EventType, request_approved, request_denied}
use secrets_dispatcher.Notification.Handler.{
  Handler, Command, approve, approve_and_auto_approve, deny, auto_approve, notify, ask, shown_for,
  store_notification, fire_timer, close_notification, handle_resolved, on_event, handle_action,
  click_effects, approval_notice,
}
use secrets_dispatcher.Notification.Handler.Linked.{shown_for-erase}

-- The button that sends a command.
abbrev pub key_of : Command → String
key_of approve = "approve"
key_of approve_and_auto_approve = "approve_and_auto_approve"
key_of deny = "deny"
key_of auto_approve = "auto_approve"

forgotten :
    (h : Handler) (n : ℕ) (key : String) → shown_for n (handle_action h n key).0.requests ≡ none
unfolding handle_action
forgotten h n key = elim (Option-cases (shown_for n h.requests)) [
  | inl e ↦ rw e e
  | inr (id, e) ↦ rw e (ground (arith, shown_for-erase n n h.requests))
]

unknown_ignored :
    (h : Handler) (n : ℕ) (key : String)
    → shown_for n h.requests ≡ none
    → handle_action h n key ≡ (h, [])
unfolding handle_action
unknown_ignored h n key e = rw e refl

-- A second click on a notification does nothing, whichever the buttons: the server's duplicate signal
-- does not reach the approver.
pub click_once :
    (h : Handler) (n : ℕ) (key again : String)
    → handle_action (handle_action h n key).0 n again ≡ ((handle_action h n key).0, [])
click_once h n key again = unknown_ignored (handle_action h n key).0 n again (forgotten h n key)

keys_sound :
    (base_url key id r : String) (c : Command)
    → click_effects base_url key r ≡ ask c id ∷ []
    → (r ≡ id) × (key ≡ key_of c)
unfolding click_effects
keys_sound base_url key id r approve e = ground (
  arith,
  eq_iff key "default",
  eq_iff key "approve",
  eq_iff key "approve_and_auto_approve",
  eq_iff key "deny",
  eq_iff key "auto_approve",
)
keys_sound base_url key id r _ e = ground (
  arith,
  eq_iff key "default",
  eq_iff key "approve",
  eq_iff key "approve_and_auto_approve",
  eq_iff key "deny",
  eq_iff key "auto_approve",
)

keys_complete :
    (base_url id : String) (c : Command) → click_effects base_url (key_of c) id ≡ ask c id ∷ []
unfolding click_effects
keys_complete base_url id approve = refl
keys_complete base_url id approve_and_auto_approve = refl
keys_complete base_url id deny = refl
keys_complete base_url id auto_approve = refl

-- A click reaches the approver with a command exactly when the notification stands for a request, the
-- button is the command's, and then for this request.
pub click_asks_iff :
    (h : Handler) (n : ℕ) (key id : String) (c : Command)
    → ((handle_action h n key).1 ≡ ask c id ∷ [])
      ↔ ((shown_for n h.requests ≡ some id) × (key ≡ key_of c))
unfolding handle_action
click_asks_iff h n key id c = elim (Option-cases (shown_for n h.requests)) [
  | inl e ↦ rw e ((λ f. cc), λ f. cc)
  | inr (r, e) ↦ rw e (
    (λ f. let s = keys_sound h.base_url key id r c f in (ap some s.0, s.1)),
    λ f. ground (arith, f.0, f.1, keys_complete h.base_url id c),
  )
]

silent :
    (h : Handler) (n : ℕ) (key id : String)
    → shown_for n h.requests ≡ some id
    → get id h.timers ≡ none
    → (handle_resolved (handle_action h n key).0 id).1 ≡ []
unfolding handle_action handle_resolved close_notification
silent h n key id shown idle = rw (shown, idle, get-erase id id h.notifications, eq_refl id) refl

-- Where a click has taken a request, the event by which the approver reports its decision closes
-- nothing, since the server has closed the notification, if no timer of the request is pending.
pub own_decision_silent :
    (h : Handler) (n : ℕ) (key : String) (req : Request) (now : ℕ) (e : EventType)
    → shown_for n h.requests ≡ some req.id
    → get req.id h.timers ≡ none
    → (e ≡ request_approved) ⊎ (e ≡ request_denied)
    → (on_event (handle_action h n key).0 e req now).1 ≡ []
unfolding on_event handle_resolved
own_decision_silent h n key req now e shown idle (inl f) = rw f (silent h n key req.id shown idle)
own_decision_silent h n key req now e shown idle (inr f) = rw f (silent h n key req.id shown idle)

fired :
    (h : Handler) (req : Request) (due later : ℕ)
    → get req.id h.timers ≡ some (record { due = due; request = req })
    → due ≤ later
    → fire_timer h req.id later
      ≡ (record h { timers = erase req.id h.timers }, notify req.id (approval_notice h req) ∷ [])
unfolding fire_timer
fired h req due later timer at = rw (timer, le→leb due later at) refl

nothing_to_resolve :
    (h : Handler) (id : String)
    → get id h.timers ≡ none
    → get id h.notifications ≡ none
    → handle_resolved h id ≡ (h, [])
unfolding handle_resolved close_notification
nothing_to_resolve h id idle unshown = rw (idle, unshown) refl

stored :
    (h : Handler) (id : String) (n : ℕ)
    → get id (store_notification h id (some n)).notifications ≡ some n
unfolding store_notification
stored h id n = get-insert id id n h.notifications ∙ rw (eq_refl id) refl

-- A request that is resolved while its timer's callback waits for the server's answer: the resolution
-- finds neither timer nor notification, and closes nothing. Then the answer comes, and the notification of the resolved request stays, with its buttons.
pub resolved_while_sending :
    (h : Handler) (req : Request) (due later n : ℕ)
    → get req.id h.timers ≡ some (record { due = due; request = req })
    → get req.id h.notifications ≡ none
    → due ≤ later
    → ((fire_timer h req.id later).1 ≡ notify req.id (approval_notice h req) ∷ [])
      × ((handle_resolved (fire_timer h req.id later).0 req.id).1 ≡ [])
      × (get req.id
            (store_notification
              (handle_resolved (fire_timer h req.id later).0 req.id).0
              req.id
              (some n)).notifications
          ≡ some n)
resolved_while_sending h req due later n timer unshown at =
    let gone = get-erase req.id req.id h.timers ∙ rw (eq_refl req.id) refl in
    rw
      (
        fired h req due later timer at,
        nothing_to_resolve (record h { timers = erase req.id h.timers }) req.id gone unshown,
      )
      (refl, refl, stored (record h { timers = erase req.id h.timers }) req.id n)
