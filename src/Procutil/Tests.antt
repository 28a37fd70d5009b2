-- ===== src/Procutil/Tests.antt =====
-- Examples of internal/procutil/procutil.go.
use secrets_dispatcher.Prelude.{ℕ, ◌-◌, String, ◌≡◌, some, [], arith, eqb, if◌then◌else◌}
use secrets_dispatcher.Procutil.{ProcView, resolve_invoker}
use secrets_dispatcher.Procutil.Walks.{IsTree, IsInvoker, resolve_invoker_ends}

-- An editor with a shell that runs git; each parent has the PID before.
abbrev view : ProcView
view = record {
  comm = λ p. if eqb p 4 then "git" else if eqb p 3 then "bash" else "editor";
  ppid = λ p. p - 1;
  is_leader = λ p. eqb p 3;
  exe = λ _. "/bin/x";
  args = λ _. [];
  cwd = λ _. "/";
}

view-IsTree : IsTree view (λ p. p)
view-IsTree p h = omega arith

resolve_invoker_ends_example :
    (found : String × ℕ) × (resolve_invoker view 4 3 ≡ some found) × IsInvoker view 3 found
resolve_invoker_ends_example = resolve_invoker_ends view (λ p. p) view-IsTree 4 3 (omega arith)
