-- ===== src/SshAgent/Gate.antt =====
-- internal/sshagent with internal/approval: the upstream agent signs what was approved, and no more.
use secrets_dispatcher.Prelude.{
  String, ◌==◌, Bool-cases, if◌then◌else◌, ℕ, ◌≡◌, refl, ◌⊎◌, inl, inr, Option, none, some, List,
  [], ◌∷◌, eqb, if_elim,
}
use secrets_dispatcher.Approval.Types.{Error, ItemInfo, SenderInfo, ssh_sign}
use secrets_dispatcher.Approval.Manager.Require.{Ask}
use secrets_dispatcher.Prelude.Dict.{Dict, get}
use secrets_dispatcher.Proxy.Upstream.{Reply}
use secrets_dispatcher.Proxy.World.{World, Peer, authorize}
use secrets_dispatcher.Proxy.Gate.{Grounds, authorize-Grounds}
use secrets_dispatcher.SshAgent.{
  sign_label, sign_attributes, AgentCall, sign, sign_with_flags, Digests, ProxyAgent, SignResult,
  sign_denied, passed, sign_ask, sign_call, sign_decided, sign_with_approval,
}

-- The call signs this with this key.
pub data Signs (key text : List ℕ) : AgentCall → Type 0 where
  plain : Signs key text (sign key text)
  flagged : (flags : ℕ) → Signs key text (sign_with_flags key text flags)

sign_call-Signs :
    (p : ProxyAgent) (key text : List ℕ) (flags : ℕ) → Signs key text (sign_call p key text flags)
sign_call-Signs p key text flags =
    if_elim (Signs key text) (eqb flags 0) _ _ plain
      (if_elim (Signs key text) p.extended _ _ (flagged flags) plain)

-- The upstream agent got one call that signs this, and the client its reply.
abbrev pub Passed : List ℕ → List ℕ → Reply (List ℕ) → World × List AgentCall × SignResult → Type 0
Passed key text reply r =
    (call : AgentCall) × Signs key text call × (r.1 ≡ call ∷ []) × (r.2 ≡ passed reply)

-- Nothing was called, and the client got this error.
abbrev pub Denied : Error → World × List AgentCall × SignResult → Type 0
Denied e r = (r.1 ≡ []) × (r.2 ≡ sign_denied e)

decided :
    (p : ProxyAgent) (key text : List ℕ) (flags : ℕ) (reply : Reply (List ℕ))
    (o : World × Option Error)
    → ((e : Error) × (o.1 ≡ some e) × Denied e (sign_decided o (sign_call p key text flags) reply))
      ⊎ ((o.1 ≡ none) × Passed key text reply (sign_decided o (sign_call p key text flags) reply))
decided p key text flags reply (w, some e) = inl (e, refl, (refl, refl))
decided p key text flags reply (w, none) =
    inr (refl, (sign_call p key text flags, sign_call-Signs p key text flags, refl, refl))

-- The request is of this caller and for one item: the key, by its fingerprint, with the destination if one
-- is known.
pub record AsksToSign (h : Digests) (p : ProxyAgent) (s : SenderInfo) (key : List ℕ) (a : Ask)
    : Type 0 where
  pub item : ItemInfo
  pub only : a.items ≡ item ∷ []
  pub path : item.path ≡ h.fingerprint key
  pub print : get "fingerprint" item.attributes ≡ some (h.fingerprint key)
  pub destination :
      get "destination" item.attributes ≡ (if p.destination == "" then none else some p.destination)
  pub type : a.type ≡ ssh_sign
  pub client : a.client ≡ "ssh-agent"
  pub sender : a.sender_info ≡ s

sign_ask-Asks :
    (h : Digests) (p : ProxyAgent) (s : SenderInfo) (key : List ℕ)
    → AsksToSign h p s key (sign_ask h p s key)
unfolding sign_ask
sign_ask-Asks h p s key = record {
  item = record {
    path = h.fingerprint key;
    label = sign_label h p key;
    attributes = sign_attributes h p key;
  };
  only = refl;
  path = refl;
  print =
      if_elim (λ (d : Dict String). get "fingerprint" d ≡ some (h.fingerprint key))
        (p.destination == "") _ _ (unfold get in refl) (unfold get in refl);
  destination = elim (Bool-cases (p.destination == "")) [
    | inl e ↦ rw e (unfold get in refl)
    | inr e ↦ rw e (unfold get in refl)
  ];
  type = refl;
  client = refl;
  sender = refl;
}

-- A request to sign reaches the upstream agent only on grounds for a request of this caller for this one
-- key, by its fingerprint and with the known destination, and then as one call, with this key and these
-- bytes, whose reply the client gets; else nothing is called and the client gets the error of the decision
-- on such a request.
pub sign_gated :
    (h : Digests) (p : ProxyAgent) (w : World) (peer : Peer) (key text : List ℕ) (flags : ℕ)
    (reply : Reply (List ℕ))
    → (a : Ask) × AsksToSign h p peer.sender_info key a
      × (((e : Error) × ((authorize w a peer).1 ≡ some e)
            × Denied e (sign_with_approval h p w peer key text flags reply))
          ⊎ (Grounds w a peer
              × Passed key text reply (sign_with_approval h p w peer key text flags reply)))
unfolding sign_with_approval
sign_gated h p w peer key text flags reply =
    let a = sign_ask h p peer.sender_info key in
    (
      a,
      sign_ask-Asks h p peer.sender_info key,
      elim (decided p key text flags reply (authorize w a peer)) [
        | inl denied ↦ inl denied
        | inr (approved, through) ↦ inr (authorize-Grounds w a peer approved, through)
      ],
    )
