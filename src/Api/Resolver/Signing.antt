-- ===== src/Api/Resolver/Signing.antt =====
-- internal/api/resolver.go: what is signed is what the request holds, and a request is answered once.
use secrets_dispatcher.Prelude.{
  pos, ◌⊎◌, ◌≢◌, true, ℕ, String, ◌≡◌, refl, ◌∙◌, inl, inr, false, some, Bool-cases, if◌then◌else◌,
}
use secrets_dispatcher.Approval.Types.{Request, GpgSignInfo, err_not_found, gpg_sign}
use secrets_dispatcher.Approval.Manager.{Manager, get_pending, is_pending}
use secrets_dispatcher.Approval.Manager.Resolve.{
  Call, approve_with_signature, approve_gpg_failed, resolve,
}
use secrets_dispatcher.Approval.Manager.Settled.{resolve_missing}
use secrets_dispatcher.Api.Resolver.{
  GpgResult, GpgRunner, Outside, is_signed, after_gpg, approve_gpg_sign, resolver_approve,
}

-- How a run of gpg settles the request.
abbrev call_of : GpgResult → Call
call_of res =
    if is_signed res
    then approve_with_signature res.sig res.status
    else approve_gpg_failed res.status res.exit_code

after_gpg-resolve :
    (m : Manager) (id : String) (res : GpgResult) (now : ℕ)
    → after_gpg m id res now ≡ resolve (call_of res) m id now
after_gpg-resolve m id res now = elim (Bool-cases (is_signed res)) [
  | inl e ↦ rw e refl
  | inr e ↦ rw e refl
]

approve_runs :
    (g : GpgRunner) (m : Manager) (id path : String) (r : Request) (info : GpgSignInfo)
    (o : Outside)
    → get_pending m id ≡ some r
    → r.type ≡ gpg_sign
    → r.gpg_sign_info ≡ some info
    → g.find_gpg ≡ some path
    → resolver_approve g m id o
      ≡ resolve (call_of (g.run_gpg path info.key_id info.commit_object)) (o.meanwhile m) id o.now
unfolding resolver_approve approve_gpg_sign
approve_runs g m id path r info o found t i p =
    rw (found, t, i, p)
      (after_gpg-resolve (o.meanwhile m) id (g.run_gpg path info.key_id info.commit_object) o.now)

-- How a run of gpg settles a request: a signature counts exactly if there was no error and the exit code
-- is zero.
pub data Settles (res : GpgResult) : Call → Type 0 where
  signed :
      res.has_failed ≡ false
      → res.exit_code ≡ pos 0
      → Settles res (approve_with_signature res.sig res.status)
  unsigned :
      (res.has_failed ≡ true) ⊎ (res.exit_code ≢ pos 0)
      → Settles res (approve_gpg_failed res.status res.exit_code)

-- If the request for a signature is answered otherwise, or expires, while gpg runs, the approval reports
-- that it was not found and changes nothing: what gpg made is dropped.
pub late_signature_dropped :
    (g : GpgRunner) (m : Manager) (id path : String) (r : Request) (info : GpgSignInfo)
    (o : Outside)
    → get_pending m id ≡ some r
    → r.type ≡ gpg_sign
    → r.gpg_sign_info ≡ some info
    → g.find_gpg ≡ some path
    → is_pending (o.meanwhile m) id ≡ false
    → resolver_approve g m id o ≡ (o.meanwhile m, some err_not_found)
late_signature_dropped g m id path r info o found t i p gone =
    approve_runs g m id path r info o found t i p
    ∙ resolve_missing (call_of (g.run_gpg path info.key_id info.commit_object)) (o.meanwhile m) id
        o.now gone
