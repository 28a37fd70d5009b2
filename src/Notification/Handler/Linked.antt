-- ===== src/Notification/Handler/Linked.antt =====
-- internal/notification/desktop.go: the two maps of the handler agree.
use secrets_dispatcher.Prelude.{
  ℕ, String, ◌≡◌, refl, Option, none, some, List, [], ◌∷◌, eqb, eq_iff, if◌then◌else◌, arith, inl,
  inr, Option-cases, Bool, if_elim,
}
use secrets_dispatcher.Prelude.Dict.{Dict, get, insert, erase, get-insert, get-erase}
use secrets_dispatcher.Approval.Types.{
  Request, EventType, request_created, request_approved, request_denied, request_expired,
  request_cancelled, request_auto_approved,
}
use secrets_dispatcher.Notification.Handler.{
  Handler, Effect, shown_for, put_request, erase_request, store_notification, fire_timer,
  handle_created, close_notification, handle_resolved, handle_cancelled, on_event, handle_action,
  Input, event, click, elapsed, answered, handle, run, new_handler,
}

pub shown_for-put :
    (n j : ℕ) (r : String) (m : List (ℕ × String))
    → shown_for j (put_request n r m) ≡ (if eqb n j then some r else shown_for j m)
unfolding shown_for put_request
shown_for-put n j r [] = refl
shown_for-put n j r ((k, q) ∷ m) = ground (arith, shown_for-put n j r m)

pub shown_for-erase :
    (n j : ℕ) (m : List (ℕ × String))
    → shown_for j (erase_request n m) ≡ (if eqb n j then none else shown_for j m)
unfolding shown_for erase_request
shown_for-erase n j [] = ground arith
shown_for-erase n j ((k, q) ∷ m) = ground (arith, shown_for-erase n j m)

-- The reverse map knows every notification of the other one.
abbrev Agree : Dict ℕ → List (ℕ × String) → Type 0
Agree ns rs = (id : String) (n : ℕ) → get id ns ≡ some n → shown_for n rs ≡ some id

abbrev pub Linked : Handler → Type 0
Linked h = Agree h.notifications h.requests

erase-Agree :
    (ns : Dict ℕ) (rs : List (ℕ × String)) (id : String) (n : ℕ)
    → shown_for n rs ≡ some id
    → Agree ns rs
    → Agree (erase id ns) (erase_request n rs)
erase-Agree ns rs id n e a j k f =
    ground (arith, get-erase id j ns, shown_for-erase n k rs, eq_iff id j, a j k)

insert-Agree :
    (ns : Dict ℕ) (rs : List (ℕ × String)) (id : String) (n : ℕ)
    → shown_for n rs ≡ none
    → Agree ns rs
    → Agree (insert id n ns) (put_request n id rs)
insert-Agree ns rs id n e a j k f =
    ground (arith, get-insert id j n ns, shown_for-put n k id rs, eq_iff id j, a j k)

store-Linked :
    (h : Handler) (id : String) (o : Option ℕ)
    → ((n : ℕ) → o ≡ some n → shown_for n h.requests ≡ none)
    → Linked h
    → Linked (store_notification h id o)
unfolding store_notification
store-Linked h id none fresh a = a
store-Linked h id (some n) fresh a = insert-Agree h.notifications h.requests id n (fresh n refl) a

close-Linked : (h : Handler) (id : String) → Linked h → Linked (close_notification h id).0
unfolding close_notification
close-Linked h id a = elim (Option-cases (get id h.notifications)) [
  | inl e ↦ rw e a
  | inr (n, e) ↦ rw e (erase-Agree h.notifications h.requests id n (a id n e) a)
]

action-Linked : (h : Handler) (n : ℕ) (key : String) → Linked h → Linked (handle_action h n key).0
unfolding handle_action
action-Linked h n key a = elim (Option-cases (shown_for n h.requests)) [
  | inl e ↦ rw e a
  | inr (id, e) ↦ rw e (erase-Agree h.notifications h.requests id n e a)
]

resolved-Linked : (h : Handler) (id : String) → Linked h → Linked (handle_resolved h id).0
unfolding handle_resolved
resolved-Linked h id a = elim (Option-cases (get id h.timers)) [
  | inl e ↦ rw e (close-Linked h id a)
  | inr (t, e) ↦ rw e a
]

cancelled-Linked :
    (h : Handler) (req : Request) (now : ℕ) → Linked h → Linked (handle_cancelled h req now).0
unfolding handle_cancelled
cancelled-Linked h req now a = elim (Option-cases (get req.id h.timers)) [
  | inl e ↦ rw e (close-Linked h req.id a)
  | inr (t, e) ↦ rw e a
]

created-Linked :
    (h : Handler) (req : Request) (now : ℕ) → Linked h → Linked (handle_created h req now).0
unfolding handle_created
created-Linked h req now a = if_elim (λ (r : Handler × List Effect). Linked r.0) _ _ _ a a

fire-Linked : (h : Handler) (id : String) (now : ℕ) → Linked h → Linked (fire_timer h id now).0
unfolding fire_timer
fire-Linked h id now a = elim (Option-cases (get id h.timers)) [
  | inl e ↦ rw e a
  | inr (t, e) ↦ rw e (if_elim (λ (r : Handler × List Effect). Linked r.0) _ _ _ a a)
]

event-Linked :
    (h : Handler) (e : EventType) (req : Request) (now : ℕ)
    → Linked h
    → Linked (on_event h e req now).0
unfolding on_event
event-Linked h request_created req now a = created-Linked h req now a
event-Linked h request_cancelled req now a = cancelled-Linked h req now a
event-Linked h request_approved req now a = resolved-Linked h req.id a
event-Linked h request_denied req now a = resolved-Linked h req.id a
event-Linked h request_expired req now a = resolved-Linked h req.id a
event-Linked h request_auto_approved req now a = resolved-Linked h req.id a
event-Linked h _ req now a = a

-- The server's answer is an ID that the handler has for no other notification.
abbrev pub Fresh : Handler → Input → Type 0
Fresh h (answered id o) = (n : ℕ) → o ≡ some n → shown_for n h.requests ≡ none
Fresh h _ = Unit

handle-Linked : (h : Handler) (i : Input) → Fresh h i → Linked h → Linked (handle h i).0
unfolding handle
handle-Linked h (event e req now) f a = event-Linked h e req now a
handle-Linked h (click n key) f a = action-Linked h n key a
handle-Linked h (elapsed id now) f a = fire-Linked h id now a
handle-Linked h (answered id o) f a = store-Linked h id o f a

-- Every answer of the inputs is fresh where it comes.
abbrev pub AllFresh : Handler → List Input → Type 0
AllFresh h [] = Unit
AllFresh h (i ∷ is) = Fresh h i × AllFresh (handle h i).0 is

run-Linked : (h : Handler) (is : List Input) → AllFresh h is → Linked h → Linked (run h is)
unfolding run
run-Linked h [] f a = a
run-Linked h (i ∷ is) f a = run-Linked (handle h i).0 is f.1 (handle-Linked h i f.0 a)

-- After any events, clicks, timers and answers from a new handler on, in any order, a notification
-- that stands for a request leads a click on it back to this request, and no two requests share one,
-- if the server never answers with the ID of a notification that is still known.
pub run_linked :
    (base_url : String) (show_pids : Bool) (auto delay : ℕ) (is : List Input) (a b : String) (n : ℕ)
    → AllFresh (new_handler base_url show_pids auto delay) is
    → get a (run (new_handler base_url show_pids auto delay) is).notifications ≡ some n
    → (shown_for n (run (new_handler base_url show_pids auto delay) is).requests ≡ some a)
      × (get b (run (new_handler base_url show_pids auto delay) is).notifications ≡ some n → a ≡ b)
run_linked base_url show_pids auto delay is a b n fresh here =
    let linked =
      run-Linked (new_handler base_url show_pids auto delay) is fresh (unfold get in λ j k e. cc) in
    (linked a n here, λ there. cc (linked a n here, linked b n there))
