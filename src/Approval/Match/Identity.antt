-- ===== src/Approval/Match/Identity.antt =====
-- What the comm of a process, which it chooses itself, changes in the decisions: `invokerExePath`,
-- `checkAutoApproveRules`, `CheckTrustedSigner` and `matchProcess` of internal/approval/manager.go.
use secrets_dispatcher.Prelude.{
  ℕ, String, ◌≡◌, refl, Bool, List, [], ◌∷◌, arith, not, ◌&&◌, any, ◌==◌, eq_iff,
}
use secrets_dispatcher.Glob.{glob_match}
use secrets_dispatcher.Approval.Types.{
  ProcessInfo, ProcessMatcher, SenderInfo, ItemInfo, RequestType, AutoApproveRule, TrustedSigner,
}
use secrets_dispatcher.Approval.Match.{
  invoker_exe_in, rule_applies, match_process, signer_matches, check_trusted_signer,
}

-- Every process of the chain takes another comm.
abbrev pub rename_chain : (String → String) → List ProcessInfo → List ProcessInfo
rename_chain f [] = []
rename_chain f (p ∷ ps) = record p { name = f p.name } ∷ rename_chain f ps

-- The caller, as it would look after such renamings.
abbrev pub renamed : (String → String) → String → SenderInfo → SenderInfo
renamed f invoker s = record s {
  invoker_name = invoker;
  process_chain = rename_chain f s.process_chain;
}

any-rename_chain :
    (f : String → String) (test : ProcessInfo → Bool)
    → ((p : ProcessInfo) → test (record p { name = f p.name }) ≡ test p)
    → (ps : List ProcessInfo) → any test (rename_chain f ps) ≡ any test ps
any-rename_chain f test same [] = refl
any-rename_chain f test same (p ∷ ps) = ground (arith, same p, any-rename_chain f test same ps)

invoker_exe_in-rename :
    (f : String → String) (pid : ℕ) (ps : List ProcessInfo)
    → invoker_exe_in pid (rename_chain f ps) ≡ invoker_exe_in pid ps
unfolding invoker_exe_in
invoker_exe_in-rename f pid [] = refl
invoker_exe_in-rename f pid (p ∷ ps) = ground (arith, invoker_exe_in-rename f pid ps)

module _ (f : String → String) (invoker : String) (s : SenderInfo) where
  -- Whatever comm the caller and its ancestors take, an auto-approve rule applies to it or not as
  -- before.
  pub rule_applies-renamed :
      (rule : AutoApproveRule) (items : List ItemInfo) (t : RequestType)
      → rule_applies rule (renamed f invoker s) items t ≡ rule_applies rule s items t
  unfolding rule_applies
  rule_applies-renamed rule items t = ground (arith, invoker_exe_in-rename f s.pid s.process_chain)

  -- Whatever comm the caller and its ancestors take, the check of the trusted signers gives the same
  -- result.
  pub check_trusted_signer-renamed :
      (signers : List TrustedSigner) (repo : String) (files : List String)
      → check_trusted_signer signers (renamed f invoker s) repo files
        ≡ check_trusted_signer signers s repo files
  unfolding check_trusted_signer signer_matches
  check_trusted_signer-renamed signers repo files = rw (
      any-rename_chain f
        (λ proc. not (proc.exe == "") && any (signer_matches proc repo files) signers) (λ p. refl)
        s.process_chain)

  -- A process matcher that sets no pattern for the comm matches a caller or not whatever comm the
  -- caller and its ancestors take.
  pub match_process-renamed :
      (pm : ProcessMatcher)
      → pm.name ≡ ""
      → match_process pm (renamed f invoker s) ≡ match_process pm s
  unfolding match_process
  match_process-renamed pm h =
      rw
        (
          any-rename_chain f (λ p. glob_match pm.exe p.exe) (λ p. refl) s.process_chain,
          any-rename_chain f (λ p. any (glob_match pm.args) p.args) (λ p. refl) s.process_chain,
          any-rename_chain f (λ p. glob_match pm.cwd p.cwd) (λ p. refl) s.process_chain,
        )
        (ground (arith, eq_iff pm.name ""))
