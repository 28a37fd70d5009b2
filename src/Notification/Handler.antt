-- ===== src/Notification/Handler.antt =====
-- internal/notification/desktop.go: the handler, which shows a notification for each request and turns
-- a click into a call of the approver. A call of the notification server is an effect and its answer
-- an input: the goroutine that sends a notification stores its ID in a later step.
pub mod Linked
pub mod Grace
pub mod Clicks
use secrets_dispatcher.Prelude.{
  ℕ, ◌+◌, ◌*◌, String, Bool, true, false, Option, none, some, List, [], ◌∷◌, ◌++◌, ◌==◌, eqb, leb,
  ltb, not, if◌then◌else◌,
}
use secrets_dispatcher.Prelude.Dict.{Dict, get, insert, erase}
use secrets_dispatcher.Text.{concat}
use secrets_dispatcher.Approval.Types.{
  Request, EventType, request_created, request_approved, request_denied, request_expired,
  request_cancelled, request_auto_approved, request_ignored, rule_added, rule_removed,
}
use secrets_dispatcher.Notification.Markup.{format_body, format_duration_short, notification_meta}

-- The arguments of `Notify`.
pub record Notice : Type 0 where
  pub summary : String
  pub body : String
  pub icon : String
  pub actions : List String

-- The methods of the approver.
pub data Command : Type 0 where
  approve approve_and_auto_approve deny auto_approve : Command

-- What the handler asks of the notification server, of the approver and of the browser. `notify`
-- carries the request for whose ID the answer will be stored.
pub data Effect : Type 0 where
  notify : String → Notice → Effect
  close : ℕ → Effect
  ask : Command → String → Effect
  open_url : String → Effect

-- A timer of the delay group: when it fires, and the request that its callback sends.
pub record Timer : Type 0 where
  pub due : ℕ
  pub request : Request

pub record Handler : Type 0 where
  pub base_url : String
  pub show_pids : Bool
  pub auto_approve_duration : ℕ
  pub notification_delay : ℕ
  pub notifications : Dict ℕ
  pub requests : List (ℕ × String)
  pub timers : Dict Timer
  pub cancelled_requests : Dict ℕ

-- `h.requests[id]`, its update and its deletion.
unfoldable pub shown_for : ℕ → List (ℕ × String) → Option String
shown_for n [] = none
shown_for n ((k, r) ∷ rest) = if eqb k n then some r else shown_for n rest

unfoldable pub put_request : ℕ → String → List (ℕ × String) → List (ℕ × String)
put_request n r [] = (n, r) ∷ []
put_request n r ((k, q) ∷ rest) = if eqb k n then (n, r) ∷ rest else (k, q) ∷ put_request n r rest

unfoldable pub erase_request : ℕ → List (ℕ × String) → List (ℕ × String)
erase_request n [] = []
erase_request n ((k, q) ∷ rest) =
    let others = erase_request n rest in if eqb k n then others else (k, q) ∷ others

-- `delayGroup.Schedule`: an older timer of the key is replaced.
abbrev pub schedule : Handler → Request → ℕ → Handler
schedule h req now = record h {
  timers = insert req.id (record { due = now + h.notification_delay; request = req }) h.timers;
}

-- `delayGroup.Cancel` of a pending timer.
abbrev pub cancel_timer : Handler → String → Handler
cancel_timer h id = record h { timers = erase id h.timers }

-- The call of `Notify` in `sendNotification`.
unfoldable pub approval_notice : Handler → Request → Notice
approval_notice h req = record {
  summary = (notification_meta req.type).0;
  body = format_body h.show_pids req;
  icon = (notification_meta req.type).1;
  actions =
      "default"
      ∷ ""
      ∷ "approve"
      ∷ "Approve"
      ∷ "approve_and_auto_approve"
      ∷ concat ("Approve " ∷ format_duration_short h.auto_approve_duration ∷ [])
      ∷ "deny"
      ∷ "Deny"
      ∷ [];
}

-- The rest of `sendNotification`, once the server has answered.
unfoldable pub store_notification : Handler → String → Option ℕ → Handler
store_notification h id none = h
store_notification h id (some n) = record h {
  notifications = insert id n h.notifications;
  requests = put_request n id h.requests;
}

-- The callback of a timer, which does nothing if the timer is no longer pending.
abbrev pub fire_found : Option Timer → Handler → String → ℕ → Handler × List Effect
fire_found none h id now = (h, [])
fire_found (some t) h id now =
    if leb t.due now
    then (
      record h { timers = erase id h.timers },
      notify t.request.id (approval_notice h t.request) ∷ [],
    )
    else (h, [])

unfoldable pub fire_timer : Handler → String → ℕ → Handler × List Effect
fire_timer h id now = fire_found (get id h.timers) h id now

unfoldable pub handle_created : Handler → Request → ℕ → Handler × List Effect
handle_created h req now =
    if eqb h.notification_delay 0
    then (h, notify req.id (approval_notice h req) ∷ [])
    else (schedule h req now, [])

-- The notification of a request, forgotten and closed.
abbrev pub close_shown : Option ℕ → Handler → String → Handler × List Effect
close_shown none h id = (h, [])
close_shown (some n) h id = (
  record h { notifications = erase id h.notifications; requests = erase_request n h.requests },
  close n ∷ [],
)

unfoldable pub close_notification : Handler → String → Handler × List Effect
close_notification h id = close_shown (get id h.notifications) h id

-- With the timer that `Cancel` finds.
abbrev pub resolved_with : Option Timer → Handler → String → Handler × List Effect
resolved_with none h id = close_notification h id
resolved_with (some _) h id = (cancel_timer h id, [])

unfoldable pub handle_resolved : Handler → String → Handler × List Effect
unfolding close_notification
handle_resolved h id = resolved_with (get id h.timers) h id

-- Five minutes.
abbrev pub remembered : ℕ
remembered = 300 * 1000000000

unfoldable pub drop_expired : ℕ → Dict ℕ → Dict ℕ
drop_expired now [] = []
drop_expired now ((id, at) ∷ rest) =
    let others = drop_expired now rest in if ltb at now then others else (id, at) ∷ others

unfoldable pub follow_up_notice : Handler → Request → Notice
follow_up_notice h req =
    let invoker =
      if req.sender_info.invoker_name == "" then "client" else req.sender_info.invoker_name in
    record {
      summary = concat (invoker ∷ " timed out" ∷ []);
      body = concat (
          "Auto-approve similar requests for "
          ∷ format_duration_short h.auto_approve_duration
          ∷ "?"
          ∷ []);
      icon = "dialog-question";
      actions = "auto_approve" ∷ "Auto-approve" ∷ "dismiss" ∷ "Dismiss" ∷ [];
    }

abbrev pub remember : Handler → String → ℕ → Handler
remember h id now = record h {
  cancelled_requests = drop_expired now (insert id (now + remembered) h.cancelled_requests);
}

abbrev pub cancelled_with : Option Timer → Handler → Request → ℕ → Handler × List Effect
cancelled_with none h req now =
    let (h', closed) = close_notification h req.id in
    (remember h' req.id now, closed ++ notify req.id (follow_up_notice h req) ∷ [])
cancelled_with (some _) h req now = (cancel_timer h req.id, [])

unfoldable pub handle_cancelled : Handler → Request → ℕ → Handler × List Effect
unfolding close_notification drop_expired follow_up_notice
handle_cancelled h req now = cancelled_with (get req.id h.timers) h req now

unfoldable pub on_event : Handler → EventType → Request → ℕ → Handler × List Effect
unfolding handle_created handle_cancelled handle_resolved
on_event h request_created req now = handle_created h req now
on_event h request_cancelled req now = handle_cancelled h req now
on_event h request_approved req now = handle_resolved h req.id
on_event h request_denied req now = handle_resolved h req.id
on_event h request_expired req now = handle_resolved h req.id
on_event h request_auto_approved req now = handle_resolved h req.id
on_event h request_ignored req now = (h, [])
on_event h rule_added req now = (h, [])
on_event h rule_removed req now = (h, [])

-- The switch over the key of the button; any other key, "dismiss" too, does nothing.
unfoldable pub click_effects : String → String → String → List Effect
click_effects base_url key id =
    if key == "default"
    then open_url (concat (base_url ∷ "?request=" ∷ id ∷ [])) ∷ []
    else if key == "approve"
    then ask approve id ∷ []
    else if key == "approve_and_auto_approve"
    then ask approve_and_auto_approve id ∷ []
    else if key == "deny"
    then ask deny id ∷ []
    else if key == "auto_approve"
    then ask auto_approve id ∷ []
    else []

abbrev pub forget : Handler → ℕ → String → Handler
forget h n id = record h {
  notifications = erase id h.notifications;
  requests = erase_request n h.requests;
}

abbrev pub act_on : Option String → Handler → ℕ → String → Handler × List Effect
act_on none h n key = (h, [])
act_on (some id) h n key = (forget h n id, click_effects h.base_url key id)

unfoldable pub handle_action : Handler → ℕ → String → Handler × List Effect
unfolding click_effects
handle_action h n key = act_on (shown_for n h.requests) h n key

-- `NewHandler`.
abbrev pub new_handler : String → Bool → ℕ → ℕ → Handler
new_handler base_url show_pids auto_approve_duration notification_delay = record {
  base_url = base_url;
  show_pids = show_pids;
  auto_approve_duration = auto_approve_duration;
  notification_delay = notification_delay;
  notifications = [];
  requests = [];
  timers = [];
  cancelled_requests = [];
}

-- What can happen to the handler: an event of the manager, a click on a button, the end of a grace
-- period, and the server's answer to a notification that was sent for a request.
pub data Input : Type 0 where
  event : EventType → Request → ℕ → Input
  click : ℕ → String → Input
  elapsed : String → ℕ → Input
  answered : String → Option ℕ → Input

unfoldable pub handle : Handler → Input → Handler × List Effect
unfolding on_event handle_action fire_timer store_notification
handle h (event e req now) = on_event h e req now
handle h (click n key) = handle_action h n key
handle h (elapsed id now) = fire_timer h id now
handle h (answered id o) = (store_notification h id o, [])

unfoldable pub run : Handler → List Input → Handler
unfolding handle
run h [] = h
run h (i ∷ is) = run (handle h i).0 is
