-- ===== src/Proc/Search.antt =====
-- kernel/proc.c: what the searches of the process table find.
use leoman.Base.{ℕ, zero, suc, ◌+◌, ◌^◌, ◌<◌}
use leoman.Base.{◌≡◌, ◌≢◌, refl, ap, ◌∙◌, ◌⊎◌, inl, inr, Bool, true, false, none, some}
use leoman.Base.{List, [], ◌∷◌, arith, Bool-cases, ◌==◌, u32, get_elem?, length, done, dec_lt}
use leoman.Proc.{Proc, Kernel, find_pid, proc_find_by_pid, proc_is_blocked, is_blocked}

module _ {Queue : Type 0} where
  -- No slot below `n` has the pid.
  abbrev pub LacksPid : ℕ → List (Proc Queue) → ℕ → Type 0
  LacksPid pid ps n = (t : ℕ) (q : Proc Queue) → t < n → get_elem? ps t ≡ some q → q.pid ≢ pid

  LacksPid-cons :
      (pid n : ℕ) (x : Proc Queue) (ps : List (Proc Queue))
      → (x.pid == pid) ≡ false
      → LacksPid pid ps n
      → LacksPid pid (x ∷ ps) (suc n)
  LacksPid-cons pid n x ps miss lacks zero q l e = ground arith
  LacksPid-cons pid n x ps miss lacks (suc t) q l e = lacks t q (omega arith) e

  find_pid-hit :
      (pid i : ℕ) (x : Proc Queue) (ps : List (Proc Queue))
      → (x.pid == pid) ≡ true
      → find_pid pid i (x ∷ ps) ≡ some i
  unfolding find_pid
  find_pid-hit pid i x ps hit = rw hit

  find_pid-miss :
      (pid i : ℕ) (x : Proc Queue) (ps : List (Proc Queue))
      → (x.pid == pid) ≡ false
      → find_pid pid i (x ∷ ps) ≡ find_pid pid (suc i) ps
  unfolding find_pid
  find_pid-miss pid i x ps miss = rw miss

  find_pid_lem :
      (pid i : ℕ) (ps : List (Proc Queue))
      → ((find_pid pid i ps ≡ none) × LacksPid pid ps (length ps))
        ⊎ ((s : ℕ) × (p : Proc Queue) × (find_pid pid i ps ≡ some (i + s))
            × (get_elem? ps s ≡ some p)
            × (p.pid ≡ pid)
            × LacksPid pid ps s)
  find_pid_lem pid i [] = inl (unfold find_pid in refl, λ t q l e. absurd (omega arith))
  find_pid_lem pid i (x ∷ ps) = elim (Bool-cases (x.pid == pid)) [
    | inl hit ↦ inr (
      0,
      x,
      find_pid-hit pid i x ps hit ∙ ap some (omega arith),
      refl,
      ground arith,
      λ t q l e. absurd (omega arith),
    )
    | inr miss ↦ elim (find_pid_lem pid (suc i) ps) [
      | inl (e, lacks) ↦
          inl (find_pid-miss pid i x ps miss ∙ e, LacksPid-cons pid (length ps) x ps miss lacks)
      | inr (s, p, e, at, same, lacks) ↦ inr (
        suc s,
        p,
        find_pid-miss pid i x ps miss ∙ (e ∙ ap some (omega arith)),
        at,
        same,
        LacksPid-cons pid s x ps miss lacks,
      )
    ]
  ]

  -- proc_find_by_pid returns the first slot whose pid is the argument as an unsigned integer, and
  -- NULL when no slot has it.
  pub proc_find_by_pid_lem :
      (pid : ℕ) (k : Kernel Queue)
      → ((proc_find_by_pid pid k ≡ none) × LacksPid (u32 pid) k.procs (length k.procs))
        ⊎ ((s : ℕ) × (p : Proc Queue) × (proc_find_by_pid pid k ≡ some s)
            × (get_elem? k.procs s ≡ some p)
            × (p.pid ≡ u32 pid)
            × LacksPid (u32 pid) k.procs s)
  unfolding proc_find_by_pid
  proc_find_by_pid_lem pid k = elim (find_pid_lem (u32 pid) 0 k.procs) [
    | inl (e, lacks) ↦ inl (e, lacks)
    | inr (s, p, e, at, same, lacks) ↦ inr (s, p, e ∙ ap some (omega arith), at, same, lacks)
  ]

  -- `proc_is_blocked` does not fault on the pid of a process in the table.
  pub proc_is_blocked_total :
      (k : Kernel Queue) (i : ℕ) (p : Proc Queue)
      → get_elem? k.procs i ≡ some p
      → i < length k.procs
      → p.pid < 2 ^ 32
      → (b : Bool) × (proc_is_blocked p.pid k ≡ done b)
  unfolding proc_is_blocked
  proc_is_blocked_total k i p at l small = elim (proc_find_by_pid_lem p.pid k) [
    | inl (_, lacks) ↦ absurd (lacks i p l at (omega arith))
    | inr (s, q, e, here, _, _) ↦ (is_blocked q.state, rw (e, here, proc_is_blocked))
  ]

  -- `proc_is_blocked` tells about the first process with the pid.
  pub proc_is_blocked_first :
      (k : Kernel Queue) (c : ℕ) (p : Proc Queue)
      → get_elem? k.procs c ≡ some p
      → c < length k.procs
      → p.pid < 2 ^ 32
      → LacksPid p.pid k.procs c
      → proc_is_blocked p.pid k ≡ done (is_blocked p.state)
  unfolding proc_is_blocked
  proc_is_blocked_first k c p at l small first = elim (proc_find_by_pid_lem p.pid k) [
    | inl (_, lacks) ↦ absurd (lacks c p l at (omega arith))
    | inr (s, q, e, here, same, lacks) ↦ elim (dec_lt s c) [
      | yes before ↦ absurd (first s q before here (omega arith))
      | no from ↦ elim (dec_lt c s) [
        | yes after ↦ absurd (lacks c p after at (omega arith))
        | no upto ↦ let hit : s ≡ c = omega arith in rw (e, hit, at, proc_is_blocked)
      ]
    ]
  ]
