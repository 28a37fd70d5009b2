-- ===== src/Api/Sign/Shown.antt =====
-- internal/api/gpgsign.go: what the user sees of a request for a signature comes from the bytes that gpg
-- gets.
use secrets_dispatcher.Prelude.{
  ℕ, ◌+◌, String, ◌≡◌, refl, ap, subst, ◌∙◌, inl, inr, ◌⊎◌, Bool, true, Option, none, some, [],
  ◌==◌, eq_refl, if_elim, not,
}
use secrets_dispatcher.Prelude.Dict.{get, get-insert}
use secrets_dispatcher.Approval.Types.{
  Request, GpgSignInfo, SenderInfo, AutoApproveRule, gpg_sign, request_created,
  request_auto_approved,
}
use secrets_dispatcher.Approval.Match.{check_trusted_signer}
use secrets_dispatcher.Approval.Manager.{Manager, allocate, enter_pending, is_pending, notify}
use secrets_dispatcher.Approval.Manager.Effects.{heap-notify}
use secrets_dispatcher.Approval.Manager.Rules.{check_auto_approve_rules}
use secrets_dispatcher.Approval.Manager.Require.{
  gpg_ask, request_of, create_gpg_sign_request, record_auto_approved_gpg_sign,
}
use secrets_dispatcher.Text.{codes}
use secrets_dispatcher.Text.Bytes.{text_of}
use secrets_dispatcher.Gpg.Payload.{parse_signed_payload}
use secrets_dispatcher.Api.Resolver.{GpgRunner, run_for}
use secrets_dispatcher.Api.Sign.{
  kind_text, SignReply, failed, created, sign_replied, Course, recorded,
  sign_and_record_auto_approved, by_rule, sign_bound, client_or_unknown,
  bind_display_to_signed_payload, handle_gpg_sign_request,
}

-- The same request with what a client says of its bytes.
abbrev pub claiming : GpgSignInfo → GpgSignInfo → GpgSignInfo
claiming info says = record info {
  kind = says.kind;
  author = says.author;
  committer = says.committer;
  commit_msg = says.commit_msg;
  parent_hash = says.parent_hash;
  tag_name = says.tag_name;
  target = says.target;
  pushee = says.pushee;
}

-- What a client says of the kind, the author, the committer, the message, the parent, the tag, the target
-- and the pushee has no effect: neither on the reply, nor on the manager, so that no prompt, notification,
-- history entry or rule depends on it.
pub claims_ignored :
    (g : GpgRunner) (m : Manager) (client : String) (info says : GpgSignInfo) (s : SenderInfo)
    (c : Course)
    → handle_gpg_sign_request g m true
        (some (record { client = client; gpg_sign_info = some (claiming info says) }))
        s
        c
      ≡ handle_gpg_sign_request g m true
          (some (record { client = client; gpg_sign_info = some info }))
          s
          c
unfolding handle_gpg_sign_request bind_display_to_signed_payload
claims_ignored g m client info says s c = refl

-- The request of that ID is for the signature of these bytes, and what signature it carries is of them.
pub record Holds (g : GpgRunner) (info : GpgSignInfo) (id : String) (m : Manager) : Type 0 where
  pub stored : Request
  pub found : get id m.heap ≡ some stored
  pub shown : stored.gpg_sign_info ≡ some info
  pub signed :
      (stored.signature ≡ [])
      ⊎ ((path : String) × (stored.signature ≡ (g.run_gpg path info.key_id info.commit_object).sig))

-- What a request shows is what the parser reads in the bytes of the client's request, and the bytes, the
-- key and the rest are the client's.
pub record Reads (info context : GpgSignInfo) : Type 0 where
  pub kind : context.kind ≡ kind_text (parse_signed_payload (codes info.commit_object)).kind
  pub author : context.author ≡ text_of (parse_signed_payload (codes info.commit_object)).signer
  pub committer :
      context.committer ≡ text_of (parse_signed_payload (codes info.commit_object)).committer
  pub message :
      context.commit_msg ≡ text_of (parse_signed_payload (codes info.commit_object)).message
  pub parent_hash :
      context.parent_hash ≡ text_of (parse_signed_payload (codes info.commit_object)).parent_hash
  pub tag_name :
      context.tag_name ≡ text_of (parse_signed_payload (codes info.commit_object)).tag_name
  pub target : context.target ≡ text_of (parse_signed_payload (codes info.commit_object)).target
  pub pushee : context.pushee ≡ text_of (parse_signed_payload (codes info.commit_object)).pushee
  pub bytes : context.commit_object ≡ info.commit_object
  pub key_id : context.key_id ≡ info.key_id
  pub repo_name : context.repo_name ≡ info.repo_name
  pub changed_files : context.changed_files ≡ info.changed_files

bind-Reads : (info : GpgSignInfo) → Reads info (bind_display_to_signed_payload info)
unfolding bind_display_to_signed_payload
bind-Reads info = record {
  kind = refl;
  author = refl;
  committer = refl;
  message = refl;
  parent_hash = refl;
  tag_name = refl;
  target = refl;
  pushee = refl;
  bytes = refl;
  key_id = refl;
  repo_name = refl;
  changed_files = refl;
}

-- The stored request shows the bytes of the client's request, and holds them.
pub record Bound (g : GpgRunner) (info : GpgSignInfo) (id : String) (m : Manager) : Type 0 where
  pub context : GpgSignInfo
  pub reads : Reads info context
  pub holds : Holds g context id m

allocated : (m : Manager) (r : Request) → get r.id (allocate m r).heap ≡ some r
allocated m r = get-insert r.id r.id r m.heap ∙ rw (eq_refl r.id) refl

module _ (g : GpgRunner) (info : GpgSignInfo) where
  -- A reply with an ID is for a request that is bound.
  abbrev Creates : Manager × SignReply → Type 0
  Creates (m, reply) = (id : String) → reply ≡ created id → Holds g info id m

  refused-Creates : (m : Manager) (status : ℕ) → Creates (m, failed status)
  refused-Creates m status id e = absurd (cc e)

  created-Creates :
      (m : Manager) (client : String) (s : SenderInfo) (id : String) (now : ℕ)
      → Creates (sign_replied (create_gpg_sign_request m client (some info) s id now))
  unfolding create_gpg_sign_request
  created-Creates m client s id now j e =
      let r = record (request_of (gpg_ask client s) id now (now + m.timeout)) {
        gpg_sign_info = some info;
      } in
      let t = allocate m r in
      let same : id ≡ j = cc e in
      subst (λ k. Holds g info k (notify (enter_pending t id) request_created id now)) same
        (record {
          stored = r;
          found =
              ap (get id) (heap-notify (enter_pending t id) request_created id now)
              ∙ if_elim (λ (x : Manager). get id x.heap ≡ some r) (is_pending t id) _ _
                  (allocated m r) (allocated m r);
          shown = refl;
          signed = inl refl;
        })

  recorded-Creates :
      (path : String) (m : Manager) (client : String) (s : SenderInfo) (c : Course)
      → Creates (recorded (run_for g path info) m client info s c)
  unfolding record_auto_approved_gpg_sign
  recorded-Creates path m client s c =
      if_elim Creates (run_for g path info).has_failed _ _ (refused-Creates m 500) (λ j e.
        let res = run_for g path info in
        let r = record (request_of (gpg_ask client s) c.id c.now c.now) {
          gpg_sign_info = some info;
          signature = res.sig;
          gpg_status = res.status;
          is_done = true;
        } in
        let same : c.id ≡ j = cc e in
        subst (λ k. Holds g info k (notify (allocate m r) request_auto_approved c.id c.now)) same
          (record {
            stored = r;
            found =
                ap (get c.id) (heap-notify (allocate m r) request_auto_approved c.id c.now)
                ∙ allocated m r;
            shown = refl;
            signed = inr (path, refl);
          }))

  signed-Creates :
      (o : Option String) (m : Manager) (client : String) (s : SenderInfo) (c : Course)
      → Creates (sign_and_record_auto_approved g o m client info s c)
  unfolding sign_and_record_auto_approved
  signed-Creates none m client s c = refused-Creates m 500
  signed-Creates (some path) m client s c = recorded-Creates path (c.meanwhile m) client s c

  rule-Creates :
      (o : Option AutoApproveRule × Manager) (client : String) (s : SenderInfo) (c : Course)
      → Creates (by_rule o g client info s c)
  rule-Creates (none, m) client s c = created-Creates m client s c.id c.now
  rule-Creates (some rule, m) client s c = signed-Creates g.find_gpg m client s c

  bound-Creates :
      (m : Manager) (client : String) (s : SenderInfo) (c : Course)
      → Creates (sign_bound g m client info s c)
  unfolding sign_bound
  bound-Creates m client s c =
      if_elim Creates (check_trusted_signer m.trusted_signers s info.repo_name info.changed_files) _
        _ (signed-Creates g.find_gpg m client s c)
        (rule-Creates (check_auto_approve_rules m s [] gpg_sign c.checked_at) client s c)

-- A reply with an ID is for a stored request that shows what the parser reads in the bytes to be signed,
-- whatever the client said of them, and that carries no signature, or one that gpg made of those bytes
-- with the key asked for, on whichever way the request was taken.
pub created-Bound :
    (g : GpgRunner) (m : Manager) (is_post : Bool) (client id : String) (info : GpgSignInfo)
    (s : SenderInfo) (c : Course)
    → (handle_gpg_sign_request g m is_post
        (some (record { client = client; gpg_sign_info = some info }))
        s
        c).1
      ≡ created id
    → Bound g info id
        (handle_gpg_sign_request g m is_post
          (some (record { client = client; gpg_sign_info = some info }))
          s
          c).0
unfolding handle_gpg_sign_request
created-Bound g m is_post client id info s c made =
    let bound = bind_display_to_signed_payload info in
    record {
      context = bound;
      reads = bind-Reads info;
      holds =
          if_elim (Creates g bound) (not is_post) _ _ (refused-Creates g bound m 405)
            (if_elim (Creates g bound) (info.commit_object == "") _ _
              (refused-Creates g bound m 400)
              (bound-Creates g bound m (client_or_unknown client) s c))
            id made;
    }
