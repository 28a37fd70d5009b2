-- ===== src/Approval/Match/Signer.antt =====
-- Which signing requests the trusted signers let through: `CheckTrustedSigner` of
-- internal/approval/manager.go.
use secrets_dispatcher.Prelude.{
  any_reads, inl, inr, ◌==◌, ◌&&◌, not, String, ◌≡◌, ◌≢◌, true, List, [], ◌∷◌, arith, ◌↔◌, ◌⊎◌, All,
  Has, all_iff, any, eq_iff,
}
use secrets_dispatcher.Text.{has_prefix}
use secrets_dispatcher.Approval.Types.{ProcessInfo, SenderInfo, TrustedSigner}
use secrets_dispatcher.Approval.Match.{signer_matches, check_trusted_signer, all_files_match}

-- An entry trusts a process with a request: each field that it sets agrees.
pub record Trusts (ts : TrustedSigner) (proc : ProcessInfo) (repo : String) (files : List String)
    : Type 0 where
  pub exe : proc.exe ≡ ts.exe_path
  pub in_repo : (ts.repo_path ≡ "") ⊎ (repo ≡ ts.repo_path)
  pub in_files : (ts.file_prefix ≡ "") ⊎ All (λ f. has_prefix f ts.file_prefix ≡ true) files

module _ (repo : String) (files : List String) where
  signer_matches_iff :
      (proc : ProcessInfo) (ts : TrustedSigner)
      → (signer_matches proc repo files ts ≡ true) ↔ Trusts ts proc repo files
  unfolding signer_matches all_files_match
  signer_matches_iff proc ts = (
    (λ h. ground (
      arith,
      eq_iff proc.exe ts.exe_path,
      eq_iff ts.repo_path "",
      eq_iff repo ts.repo_path,
      eq_iff ts.file_prefix "",
      all_iff (λ f. has_prefix f ts.file_prefix) files,
    )),
    (λ h. ground (
      arith,
      eq_iff proc.exe ts.exe_path,
      eq_iff ts.repo_path "",
      eq_iff repo ts.repo_path,
      eq_iff ts.file_prefix "",
      all_iff (λ f. has_prefix f ts.file_prefix) files,
    )),
  )

  -- The process is resolved, and some entry trusts it.
  abbrev pub IsTrusted : List TrustedSigner → ProcessInfo → Type 0
  IsTrusted signers proc = (proc.exe ≢ "") × Has (λ ts. Trusts ts proc repo files) signers

  proc-IsTrusted_iff :
      (signers : List TrustedSigner) (proc : ProcessInfo)
      → ((not (proc.exe == "") && any (signer_matches proc repo files) signers) ≡ true)
        ↔ IsTrusted signers proc
  proc-IsTrusted_iff signers proc =
      let trust =
        any_reads (signer_matches proc repo files) (λ ts. Trusts ts proc repo files)
          (signer_matches_iff proc) signers in
      (
        (λ h. ((λ e. ground (arith, eq_iff proc.exe "")), trust.0 (ground arith))),
        (λ h. ground (arith, eq_iff proc.exe "", trust.1 h.1)),
      )

  nobody_trusted : (ps : List ProcessInfo) → Has (IsTrusted []) ps → ⊥
  nobody_trusted [] h = h
  nobody_trusted (p ∷ ps) (inl h) = h.1
  nobody_trusted (p ∷ ps) (inr h) = nobody_trusted ps h

  chain-IsTrusted_iff :
      (signers : List TrustedSigner) (ps : List ProcessInfo)
      → (any (λ proc. not (proc.exe == "") && any (signer_matches proc repo files) signers) ps
          ≡ true)
        ↔ Has (IsTrusted signers) ps
  chain-IsTrusted_iff signers ps =
      any_reads (λ proc. not (proc.exe == "") && any (signer_matches proc repo files) signers)
        (IsTrusted signers) (proc-IsTrusted_iff signers) ps

  -- The check of the trusted signers passes exactly when the request came through a trusted transport and
  -- some resolved process of its chain is trusted by an entry, for this repository and all its files.
  pub check_trusted_signer_iff :
      (signers : List TrustedSigner) (s : SenderInfo)
      → (check_trusted_signer signers s repo files ≡ true)
        ↔ ((s.peer_trusted ≡ true) × Has (IsTrusted signers) s.process_chain)
  unfolding check_trusted_signer
  check_trusted_signer_iff [] s = ((λ h. cc), (λ h. absurd (nobody_trusted s.process_chain h.1)))
  check_trusted_signer_iff (t ∷ ts) s = (
    (λ h. ground (arith, (chain-IsTrusted_iff (t ∷ ts) s.process_chain).0)),
    (λ h. ground (arith, (chain-IsTrusted_iff (t ∷ ts) s.process_chain).1)),
  )
