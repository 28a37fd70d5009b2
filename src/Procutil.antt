-- ===== src/Procutil.antt =====
-- internal/procutil/procutil.go: the walks up the process tree. What the functions read under /proc is a
-- view of it, one for a whole walk; a walk runs on fuel, and is `none` where the fuel runs out.
pub mod Walks
pub mod Tests
use secrets_dispatcher.Prelude.{
  ℕ, zero, suc, String, Bool, true, false, not, ◌&&◌, Option, none, some, List, [], ◌∷◌, ltb, any,
  ◌==◌, if◌then◌else◌,
}

-- What `ReadComm`, `ReadPPID`, `IsSessionLeader`, `ReadExe`, `ReadCmdline` and `ReadCWD` return.
pub record ProcView : Type 0 where
  pub comm : ℕ → String
  pub ppid : ℕ → ℕ
  pub is_leader : ℕ → Bool
  pub exe : ℕ → String
  pub args : ℕ → List String
  pub cwd : ℕ → String

abbrev pub shells : List String
shells = "sh" ∷ "bash" ∷ "zsh" ∷ "fish" ∷ "dash" ∷ "csh" ∷ "tcsh" ∷ "ksh" ∷ []

unfoldable pub is_shell : String → Bool
is_shell comm = any (◌==◌ comm) shells

pub record ProcEntry : Type 0 where
  pub comm : String
  pub pid : ℕ
  pub exe : String
  pub args : List String
  pub cwd : String

abbrev pub entry_of : ProcView → ℕ → ProcEntry
entry_of v p = record { comm = v.comm p; pid = p; exe = v.exe p; args = v.args p; cwd = v.cwd p }

-- The parent of a session leader, where it is above PID 1 and can be read.
unfoldable pub leader_parent : ProcView → ℕ → List ProcEntry
leader_parent v p =
    if ltb 1 (v.ppid p) && not (v.comm (v.ppid p) == "") then entry_of v (v.ppid p) ∷ [] else []

abbrev pub behind_entry : ProcEntry → Option (List ProcEntry) → Option (List ProcEntry)
behind_entry e none = none
behind_entry e (some es) = some (e ∷ es)

unfoldable pub read_process_chain : ProcView → Bool → ℕ → ℕ → Option (List ProcEntry)
unfolding leader_parent
read_process_chain v trim zero p = none
read_process_chain v trim (suc f) p =
    let rest = read_process_chain v trim f (v.ppid p) in
    if not (ltb 1 p)
    then some []
    else if v.comm p == ""
    then some []
    else if trim && v.is_leader p
    then some (entry_of v p ∷ leader_parent v p)
    else behind_entry (entry_of v p) rest

-- The loop of `ResolveInvoker`: the first ancestor that is no shell, or nothing at its end.
unfoldable pub walk_up : ProcView → ℕ → ℕ → Option (Option (String × ℕ))
unfolding is_shell
walk_up v zero p = none
walk_up v (suc f) p =
    let rest = walk_up v f (v.ppid p) in
    if not (ltb 1 p)
    then some none
    else if v.comm p == ""
    then some none
    else if not (is_shell (v.comm p))
    then some (some (v.comm p, p))
    else rest

-- What `ResolveInvoker` returns after the loop.
abbrev pub invoker_or : String × ℕ → Option (Option (String × ℕ)) → Option (String × ℕ)
invoker_or own none = none
invoker_or own (some none) = some own
invoker_or own (some (some found)) = some found

unfoldable pub resolve_invoker : ProcView → ℕ → ℕ → Option (String × ℕ)
unfolding walk_up is_shell
resolve_invoker v f pid =
    let own : String × ℕ = (v.comm pid, pid) in
    let above = invoker_or own (walk_up v f (v.ppid pid)) in
    if v.comm pid == ""
    then some ("", 0)
    else if not (is_shell (v.comm pid))
    then some own
    else above
