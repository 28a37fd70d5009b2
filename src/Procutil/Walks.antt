-- ===== src/Procutil/Walks.antt =====
-- The ends of the walks of internal/procutil/procutil.go, in a process tree.
use secrets_dispatcher.Prelude.{
  ℕ, zero, suc, ◌<◌, String, ◌≡◌, ◌≢◌, refl, sym, subst, Bool, true, false, not, ◌&&◌, Option, none,
  some, List, [], ◌∷◌, ◌⊎◌, inl, inr, arith, ltb, ltb→lt, All, ◌==◌, eq_iff, if◌then◌else◌,
  Bool-cases, if_elim,
}
use secrets_dispatcher.Procutil.{
  ProcView, ProcEntry, entry_of, leader_parent, behind_entry, read_process_chain, is_shell, walk_up,
  invoker_or, resolve_invoker,
}

-- A process above PID 1 lies deeper in the tree than its parent.
abbrev pub IsTree : ProcView → (ℕ → ℕ) → Type 0
IsTree v depth = (p : ℕ) → 1 < p → depth (v.ppid p) < depth p

-- The entry is of a process above PID 1 whose comm could be read.
abbrev pub IsReadable : ProcEntry → Type 0
IsReadable e = (1 < e.pid) × (e.comm ≢ "")

abbrev Ends : Option (List ProcEntry) → Type 0
Ends o = (es : List ProcEntry) × (o ≡ some es) × All IsReadable es

readable :
    (v : ProcView) (p : ℕ) → ltb 1 p ≡ true → (v.comm p == "") ≡ false → IsReadable (entry_of v p)
readable v p h n = (ltb→lt 1 p h, λ e. ground (arith, eq_iff (v.comm p) ""))

leader_parent-IsReadable : (v : ProcView) (p : ℕ) → All IsReadable (leader_parent v p)
unfolding leader_parent
leader_parent-IsReadable v p =
    elim (ltb 1 (v.ppid p) && not (v.comm (v.ppid p) == ""))
        as (λ b.
          (ltb 1 (v.ppid p) && not (v.comm (v.ppid p) == "")) ≡ b
          → All IsReadable (if b then entry_of v (v.ppid p) ∷ [] else [])) [
            | true ↦ λ h. (readable v (v.ppid p) (ground arith) (ground arith), tt)
            | false ↦ λ h. tt
          ]
      refl

behind-Ends :
    (e : ProcEntry) (o : Option (List ProcEntry)) → IsReadable e → Ends o → Ends (behind_entry e o)
behind-Ends e none r (es, h, all) = absurd (cc)
behind-Ends e (some fs) r (es, h, all) =
    (e ∷ fs, refl, (r, subst (All IsReadable) (sym (same h)) all))
  where
    same : ◌≡◌ {A = Option (List ProcEntry)} (some fs) (some es) → fs ≡ es
    same e = cc

-- The ancestors from a process on, through shells only: each is above PID 1, and its comm is a shell's.
pub data ThroughShells (v : ProcView) : ℕ → ℕ → Type 0 where
  there : {p : ℕ} → ThroughShells v p p
  above :
      {p q : ℕ}
      → 1 < p
      → v.comm p ≢ ""
      → is_shell (v.comm p) ≡ true
      → ThroughShells v (v.ppid p) q
      → ThroughShells v p q

-- The first ancestor behind the shells: it is found if it is above PID 1 and its comm can be read and is
-- no shell's; if it is not above PID 1, or cannot be read, none is.
pub data FirstBehind (v : ProcView) (p : ℕ) : Option (String × ℕ) → Type 0 where
  behind_shells :
      {q : ℕ}
      → ThroughShells v p q
      → 1 < q
      → v.comm q ≢ ""
      → is_shell (v.comm q) ≡ false
      → FirstBehind v p (some (v.comm q, q))
  shells_only : {q : ℕ} → ThroughShells v p q → (¬ (1 < q)) ⊎ (v.comm q ≡ "") → FirstBehind v p none

-- What the invoker is: nobody, if the caller's comm cannot be read; the caller, if it is no shell; else the
-- first ancestor behind its shells, or the caller if there is none.
pub data IsInvoker (v : ProcView) (pid : ℕ) : String × ℕ → Type 0 where
  nobody : v.comm pid ≡ "" → IsInvoker v pid ("", 0)
  itself : v.comm pid ≢ "" → is_shell (v.comm pid) ≡ false → IsInvoker v pid (v.comm pid, pid)
  ancestor :
      {found : String × ℕ}
      → is_shell (v.comm pid) ≡ true
      → FirstBehind v (v.ppid pid) (some found)
      → IsInvoker v pid found
  shell_itself :
      is_shell (v.comm pid) ≡ true
      → FirstBehind v (v.ppid pid) none
      → IsInvoker v pid (v.comm pid, pid)

module _ (v : ProcView) (depth : ℕ → ℕ) (tree : IsTree v depth) where
  -- In a process tree, with fuel for more than the depth of a process, its chain is read to its end, and
  -- every entry of it is a process above PID 1 whose comm could be read.
  pub chain_ends :
      (trim : Bool) (f p : ℕ)
      → depth p < f
      → (es : List ProcEntry) × (read_process_chain v trim f p ≡ some es) × All IsReadable es
  unfolding read_process_chain
  chain_ends trim zero p h = absurd (omega arith)
  chain_ends trim (suc f) p h = elim (Bool-cases (ltb 1 p)) [
    | inr low ↦ rw (low, read_process_chain) ([], refl, tt)
    | inl high ↦ elim (Bool-cases (v.comm p == "")) [
      | inl lost ↦ rw (high, lost, read_process_chain) ([], refl, tt)
      | inr known ↦
          rw (high, known, read_process_chain)
            (if_elim Ends (trim && v.is_leader p) _ _
              (
                entry_of v p ∷ leader_parent v p,
                refl,
                (readable v p high known, leader_parent-IsReadable v p),
              )
              (behind-Ends (entry_of v p) _ (readable v p high known)
                (chain_ends trim f (v.ppid p) (omega (arith, tree p (ltb→lt 1 p high))))))
    ]
  ]

  unreadable : (p : ℕ) → (v.comm p == "") ≡ false → v.comm p ≢ ""
  unreadable p n e = ground (arith, eq_iff (v.comm p) "")

  climb :
      (p : ℕ) (r : Option (String × ℕ))
      → 1 < p
      → v.comm p ≢ ""
      → is_shell (v.comm p) ≡ true
      → FirstBehind v (v.ppid p) r
      → FirstBehind v p r
  climb p (some found) high known skip (behind_shells way up read plain) =
      behind_shells (above high known skip way) up read plain
  climb p none high known skip (shells_only way end) = shells_only (above high known skip way) end

  walk_ends :
      (f p : ℕ)
      → depth p < f
      → (r : Option (String × ℕ)) × (walk_up v f p ≡ some r) × FirstBehind v p r
  unfolding walk_up
  walk_ends zero p h = absurd (omega arith)
  walk_ends (suc f) p h = elim (Bool-cases (ltb 1 p)) [
    | inr low ↦ rw (low, walk_up) (none, refl, shells_only there (inl (λ b. ground arith)))
    | inl high ↦ elim (Bool-cases (v.comm p == "")) [
      | inl lost ↦
          rw (high, lost, walk_up)
            (none, refl, shells_only there (inr ((eq_iff (v.comm p) "").0 lost)))
      | inr known ↦ elim (Bool-cases (is_shell (v.comm p))) [
        | inr found ↦
            rw (high, known, found, walk_up)
              (
                some (v.comm p, p),
                refl,
                behind_shells there (ltb→lt 1 p high) (unreadable p known) found,
              )
        | inl skip ↦
            let (r, e, first) = walk_ends f (v.ppid p) (omega (arith, tree p (ltb→lt 1 p high))) in
            rw (high, known, skip, walk_up)
              (r, e, climb p r (ltb→lt 1 p high) (unreadable p known) skip first)
      ]
    ]
  ]

  above-Invoker :
      (pid : ℕ) (r : Option (String × ℕ))
      → is_shell (v.comm pid) ≡ true
      → FirstBehind v (v.ppid pid) r
      → (found : String × ℕ) × (invoker_or (v.comm pid, pid) (some r) ≡ some found)
        × IsInvoker v pid found
  above-Invoker pid none shell first = ((v.comm pid, pid), refl, shell_itself shell first)
  above-Invoker pid (some found) shell first = (found, refl, ancestor shell first)

  -- In a process tree, with fuel for more than the depth of the caller's parent, the walk ends with the
  -- invoker: no name and PID 0 if the caller's comm cannot be read, the caller if it is no shell, else
  -- the first ancestor behind it and its shells, with its own PID, or the caller if no such ancestor is
  -- above PID 1 and readable.
  pub resolve_invoker_ends :
      (f pid : ℕ)
      → depth (v.ppid pid) < f
      → (found : String × ℕ) × (resolve_invoker v f pid ≡ some found) × IsInvoker v pid found
  unfolding resolve_invoker
  resolve_invoker_ends f pid h = elim (Bool-cases (v.comm pid == "")) [
    | inl lost ↦
        rw (lost, resolve_invoker) (("", 0), refl, nobody ((eq_iff (v.comm pid) "").0 lost))
    | inr known ↦ elim (Bool-cases (is_shell (v.comm pid))) [
      | inr own ↦
          rw (known, own, resolve_invoker)
            ((v.comm pid, pid), refl, itself (unreadable pid known) own)
      | inl skip ↦
          let (r, e, first) = walk_ends f (v.ppid pid) h in
          rw (known, skip, e, resolve_invoker) (above-Invoker pid r skip first)
    ]
  ]
