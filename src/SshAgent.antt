-- ===== src/SshAgent.antt =====
-- internal/sshagent/proxy.go: the SSH agent that asks before it lets the upstream agent sign.
pub mod Gate
pub mod Tests
use secrets_dispatcher.Prelude.{
  ℕ, String, Bool, true, false, Option, none, some, List, [], ◌∷◌, ◌==◌, eqb, if◌then◌else◌,
}
use secrets_dispatcher.Prelude.Dict.{Dict}
use secrets_dispatcher.Approval.Types.{ItemInfo, SenderInfo, Error, ssh_sign}
use secrets_dispatcher.Approval.Manager.Require.{Ask}
use secrets_dispatcher.Proxy.Upstream.{Reply}
use secrets_dispatcher.Proxy.World.{World, Peer, authorize}

-- A key by its marshalled form.
pub record Key : Type 0 where
  pub blob : List ℕ
  pub comment : String

-- SHA-256 of a key's marshalled form, and `ssh.FingerprintSHA256`, which writes it as a text.
pub record Digests : Type 0 where
  pub sha256 : List ℕ → String
  pub fingerprint : List ℕ → String

-- `extended` is whether the upstream agent is an `agent.ExtendedAgent`.
pub record ProxyAgent : Type 0 where
  pub destination : String
  pub extended : Bool
  pub keys : List Key

-- The calls of the upstream agent.
pub data AgentCall : Type 0 where
  list_keys remove_all : AgentCall
  sign : List ℕ → List ℕ → AgentCall
  sign_with_flags : List ℕ → List ℕ → ℕ → AgentCall
  remove add : List ℕ → AgentCall
  lock unlock : List ℕ → AgentCall
  extension : String → List ℕ → AgentCall

abbrev pub keys_read : ProxyAgent → Reply (List Key) → ProxyAgent
keys_read p (Reply.failed e) = p
keys_read p (Reply.answered keys) = record p { keys = keys }

-- `List`: the proxy, with the keys that it remembers, and the reply.
unfoldable pub agent_list : ProxyAgent → Reply (List Key) → ProxyAgent × Reply (List Key)
agent_list p reply = (keys_read p reply, reply)

unfoldable pub comment_in : Digests → List ℕ → List Key → String
comment_in h key [] = ""
comment_in h key (k ∷ ks) =
    if h.sha256 key == h.sha256 k.blob then k.comment else comment_in h key ks

unfoldable pub find_key_comment : Digests → ProxyAgent → List ℕ → String
unfolding comment_in
find_key_comment h p key = comment_in h key p.keys

abbrev pub sign_label : Digests → ProxyAgent → List ℕ → String
sign_label h p key =
    let comment = find_key_comment h p key in if comment == "" then h.fingerprint key else comment

abbrev pub sign_attributes : Digests → ProxyAgent → List ℕ → Dict String
sign_attributes h p key =
    let print : String × String = ("fingerprint", h.fingerprint key) in
    if p.destination == "" then print ∷ [] else print ∷ ("destination", p.destination) ∷ []

-- What is asked of the manager.
unfoldable pub sign_ask : Digests → ProxyAgent → SenderInfo → List ℕ → Ask
unfolding find_key_comment
sign_ask h p sender_info key = record {
  client = "ssh-agent";
  items =
      record {
        path = h.fingerprint key;
        label = sign_label h p key;
        attributes = sign_attributes h p key;
      }
      ∷ [];
  session = "";
  type = ssh_sign;
  search_attributes = [];
  sender_info = sender_info;
}

-- The error of the decision, or the reply of the upstream agent.
pub data SignResult : Type 0 where
  sign_denied : Error → SignResult
  passed : Reply (List ℕ) → SignResult

-- The call that an approved request becomes.
abbrev pub sign_call : ProxyAgent → List ℕ → List ℕ → ℕ → AgentCall
sign_call p key data_ flags =
    if eqb flags 0
    then sign key data_
    else if p.extended
    then sign_with_flags key data_ flags
    else sign key data_

abbrev pub sign_decided :
    World × Option Error → AgentCall → Reply (List ℕ) → World × List AgentCall × SignResult
sign_decided (w, some e) call reply = (w, [], sign_denied e)
sign_decided (w, none) call reply = (w, call ∷ [], passed reply)

-- `signWithApproval`, with the reply of the upstream agent; `Sign` has no flags, 0. The sender is the
-- one that the connection was made with.
unfoldable pub sign_with_approval :
    Digests
    → ProxyAgent
    → World
    → Peer
    → List ℕ
    → List ℕ
    → ℕ
    → Reply (List ℕ)
    → World × List AgentCall × SignResult
unfolding sign_ask
sign_with_approval h p w peer key data_ flags reply =
    sign_decided (authorize w (sign_ask h p peer.sender_info key) peer)
      (sign_call p key data_ flags) reply

-- The operations that a client asks for.
pub data Operation : Type 0 where
  to_list to_remove_all : Operation
  to_sign : List ℕ → List ℕ → ℕ → Operation
  to_remove to_add to_lock to_unlock : List ℕ → Operation
  to_extend : String → List ℕ → Operation

-- The calls of the upstream agent that an operation makes.
unfoldable pub agent_calls :
    Digests → ProxyAgent → World → Peer → Operation → Reply (List ℕ) → List AgentCall
unfolding sign_with_approval
agent_calls h p w peer to_list reply = list_keys ∷ []
agent_calls h p w peer to_remove_all reply = remove_all ∷ []
agent_calls h p w peer (to_sign key data_ flags) reply =
    (sign_with_approval h p w peer key data_ flags reply).1
agent_calls h p w peer (to_remove key) reply = remove key ∷ []
agent_calls h p w peer (to_add key) reply = add key ∷ []
agent_calls h p w peer (to_lock pass) reply = lock pass ∷ []
agent_calls h p w peer (to_unlock pass) reply = unlock pass ∷ []
agent_calls h p w peer (to_extend kind contents) reply =
    if p.extended then extension kind contents ∷ [] else []
