-- ===== src/Proxy/Tests/Prompting.antt =====
-- Examples of the bridge between the prompters.
use secrets_dispatcher.Prelude.{◌≡◌, refl, true, false, none, some, List, [], ◌∷◌}
use secrets_dispatcher.Prelude.Dict.{get, insert}
use secrets_dispatcher.Proxy.Upstream.{answered}
use secrets_dispatcher.Proxy.Prompter.{
  primary_owner, activate, callback_target, new_bridge, begin_prompting,
}
use secrets_dispatcher.Proxy.Prompter.Clean.{
  PromptEvent, activates, begins, closed_after, after_events, closed_clean,
}

abbrev events : List PromptEvent
events = activates primary_owner true ∷ begins "/p1" ":1.7" true (answered tt) ∷ []

-- Before it is closed, the bridge forwards to the keyring.
target_test : callback_target (after_events new_bridge events) "/p1" ≡ some ":1.7"
unfolding callback_target after_events activate begin_prompting get insert
target_test = refl

closed_clean_example :
    (callback_target (closed_after events) "/p1" ≡ none)
    × ((closed_after events).name_held ≡ false)
    × (activate (closed_after events) primary_owner true ≡ (closed_after events, true))
closed_clean_example = closed_clean events "/p1" primary_owner true
