-- ===== src/Notification/Tests.antt =====
-- Examples of internal/notification.
use secrets_dispatcher.Prelude.{◌≤◌, String, ◌≡◌, refl, true, some, List, [], ◌∷◌, differ, arith}
use secrets_dispatcher.Prelude.Dict.{get, insert, erase}
use secrets_dispatcher.Text.Decimal.{decimal}
use secrets_dispatcher.Approval.Types.{Request, get_secret, request_created, request_denied}
use secrets_dispatcher.Approval.Manager.Require.{request_of, Ask}
use secrets_dispatcher.Approval.Tests.{caller, item}
use secrets_dispatcher.Notification.Markup.{
  escape_markup, format_body, format_duration_short, detail_text, chain_text,
}
use secrets_dispatcher.Notification.Markup.Tags.{tags, tags-format_body-le}
use secrets_dispatcher.Notification.Handler.{
  Handler, Input, event, click, answered, new_handler, run, shown_for, handle_resolved, fire_timer,
  approval_notice, notify, on_event, store_notification, put_request,
}
use secrets_dispatcher.Notification.Handler.Linked.{run_linked}
use secrets_dispatcher.Notification.Handler.Grace.{waited, undecided_shown, short_request_silent}
use secrets_dispatcher.Notification.Handler.Clicks.{resolved_while_sending}

abbrev asked : Ask
asked = record {
  client = "laptop";
  items = record item { label = "a<b" } ∷ [];
  session = "";
  type = get_secret;
  search_attributes = [];
  sender_info = caller;
}

abbrev first : Request
first = request_of asked "r1" 0 1000

abbrev second : Request
second = request_of asked "r2" 0 1000

-- No grace period, and one of 100 ns.
abbrev at_once : Handler
at_once = new_handler "http://localhost" true 120000000000 0

abbrev patient : Handler
patient = new_handler "http://localhost" true 120000000000 100

body_test :
    (format_body true first ≡ "<b>a&lt;b</b>\ngit[7]")
    × (format_duration_short 90000000000 ≡ "1m30s")
    × (format_duration_short 120000000000 ≡ "2m")
unfolding format_body detail_text format_duration_short escape_markup chain_text decimal
body_test = (refl, refl, refl)

tags-format_body-le_example : tags (format_body true first) ≤ 4
tags-format_body-le_example = tags-format_body-le true first

-- Two requests are shown, and the first one is denied by a click.
abbrev two_shown : List Input
two_shown =
    event request_created first 0
    ∷ answered "r1" (some 7)
    ∷ event request_created second 1
    ∷ answered "r2" (some 8)
    ∷ click 7 "deny"
    ∷ []

run_linked_example :
    (shown_for 8 (run at_once two_shown).requests ≡ some "r2")
    × (get "r1" (run at_once two_shown).notifications ≡ some 8 → ◌≡◌ {A = String} "r2" "r1")
unfolding run get shown_for put_request erase insert
run_linked_example =
    run_linked "http://localhost" true 120000000000 0 two_shown "r2" "r1" 8
      (tt, ((λ n e. refl), (tt, ((λ n e. ground arith), (tt, tt))))) refl

undecided_shown_example :
    (fire_timer (waited patient first 5 (event request_created second 6 ∷ [])) "r1" 200).1
    ≡ notify "r1" (approval_notice patient first) ∷ []
undecided_shown_example =
    undecided_shown patient first 5 (omega arith) (event request_created second 6 ∷ [])
      (λ e. differ "r2" "r2" "r1" refl refl e, tt) 200 (omega arith)

short_request_silent_example :
    ((on_event patient request_created first 5).1 ≡ [])
    × ((on_event (waited patient first 5 []) request_denied first 50).1 ≡ [])
    × (fire_timer (on_event (waited patient first 5 []) request_denied first 50).0 "r1" 200
        ≡ ((on_event (waited patient first 5 []) request_denied first 50).0, []))
    × ((on_event (waited patient first 5 []) request_denied first 50).0.notifications
        ≡ (waited patient first 5 []).notifications)
short_request_silent_example =
    short_request_silent patient first 5 (omega arith) [] tt request_denied 50 200 tt

-- The request is resolved while the server still works on its notification.
abbrev due_now : Handler
due_now = record patient { timers = ("r1", record { due = 105; request = first }) ∷ [] }

resolved_while_sending_example :
    ((fire_timer due_now "r1" 105).1 ≡ notify "r1" (approval_notice due_now first) ∷ [])
    × ((handle_resolved (fire_timer due_now "r1" 105).0 "r1").1 ≡ [])
    × (get "r1"
          (store_notification
            (handle_resolved (fire_timer due_now "r1" 105).0 "r1").0
            "r1"
            (some 7)).notifications
        ≡ some 7)
unfolding get
resolved_while_sending_example =
    resolved_while_sending due_now first 105 105 7 refl refl (omega arith)
