-- ===== src/Proxy/Prompter.antt =====
-- internal/proxy/prompter.go: the bridge between the keyring's prompts and the prompter of the session.
pub mod Clean
use secrets_dispatcher.Prelude.{
  ℕ, String, Bool, true, false, not, ◌||◌, Option, none, some, List, [], ◌∷◌, ◌==◌, any, keep,
  if◌then◌else◌,
}
use secrets_dispatcher.Prelude.Dict.{Dict, insert, erase, get}
use secrets_dispatcher.Proxy.Upstream.{Reply}

-- `exported` is what stands on the front connection: the callback proxies by their paths, each with the
-- keyring that it forwards to. `name_held` is whether the connection to the backend has the prompter's
-- name, and `bridge_exported` whether the bridge stands there.
pub record Bridge : Type 0 where
  pub callbacks : List String
  pub owned : Bool
  pub active : Bool
  pub closed : Bool
  pub exported : Dict String
  pub name_held : Bool
  pub bridge_exported : Bool

abbrev pub new_bridge : Bridge
new_bridge = record {
  callbacks = [];
  owned = false;
  active = false;
  closed = false;
  exported = [];
  name_held = false;
  bridge_exported = false;
}

-- The reply to `RequestName`.
pub data Claim : Type 0 where
  claim_failed primary_owner other_owner : Claim

-- Whether the call returns no error, beside the state.
abbrev pub claimed : Claim → Bool → Bridge → Bridge × Bool
claimed claim_failed exports b = (b, false)
claimed other_owner exports b = (b, true)
claimed primary_owner exports b =
    if exports
    then (record b { owned = true; active = true; name_held = true; bridge_exported = true }, true)
    else (record b { owned = false; name_held = false }, false)

-- Releasing the name and taking a proxy down do what they should: the code ignores their errors.
-- `exports` is whether the library's `Export` succeeds, here and below.
unfoldable pub activate : Bridge → Claim → Bool → Bridge × Bool
activate b claim exports = if b.closed || b.active then (b, true) else claimed claim exports b

abbrev pub has_callback : Bridge → String → Bool
has_callback b path = any (◌==◌ path) b.callbacks

unfoldable pub export_callback : Bridge → String → String → Bool → Bridge × Bool
export_callback b path keyring exports =
    if has_callback b path
    then (b, true)
    else if exports
    then (
      record b { callbacks = path ∷ b.callbacks; exported = insert path keyring b.exported },
      true,
    )
    else (b, false)

-- The reply to the keyring: the bridge's own error, or what the session's prompter said.
pub data PromptReply : Type 0 where
  export_failed : PromptReply
  forwarded : Reply (Unit {0}) → PromptReply

abbrev pub begun : Bridge × Bool → Reply (Unit {0}) → Bridge × PromptReply
begun (b, false) reply = (b, export_failed)
begun (b, true) reply = (b, forwarded reply)

unfoldable pub begin_prompting :
    Bridge → String → String → Bool → Reply (Unit {0}) → Bridge × PromptReply
unfolding export_callback
begin_prompting b callback keyring exports reply =
    begun (export_callback b callback keyring exports) reply

unfoldable pub unexport_callback : Bridge → String → Bridge
unexport_callback b path = if not (has_callback b path) then b else record b {
  callbacks = keep (λ p. not (path == p)) b.callbacks;
  exported = erase path b.exported;
}

unfoldable pub stop_prompting : Bridge → String → Reply (Unit {0}) → Bridge × PromptReply
unfolding unexport_callback
stop_prompting b callback reply = (unexport_callback b callback, forwarded reply)

unfoldable pub erase_all : List String → Dict String → Dict String
erase_all [] m = m
erase_all (p ∷ ps) m = erase_all ps (erase p m)

-- `close`. The loop empties the map of callbacks.
unfoldable pub close_bridge : Bridge → Bridge
unfolding erase_all
close_bridge b = record b {
  closed = true;
  callbacks = [];
  exported = erase_all b.callbacks b.exported;
  owned = false;
  name_held = if b.owned then false else b.name_held;
}

-- The keyring that a call of the session's prompter on this path is forwarded to.
unfoldable pub callback_target : Bridge → String → Option String
callback_target b path = get path b.exported
