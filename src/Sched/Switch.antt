-- ===== src/Sched/Switch.antt =====
-- kernel/proc.c: the process that the scheduler goes on with, and the switch to it.
use leoman.Base.{ℕ, ◌+◌, ◌%◌, ◌<◌}
use leoman.Base.{◌≡◌, ◌≢◌, refl, sym, ap, ◌∙◌, ◌⊎◌, inl, inr, true, false, none, some}
use leoman.Base.{arith, Bool-cases, ◌==◌, if◌then◌else◌, get_elem?, length}
use leoman.Base.{get_elem?_in_range, done}
use leoman.Proc.{Proc, ready, Kernel, find_next_proc}
use leoman.Proc.Cursor.{matches, around, find_next_proc_lem}
use leoman.Gdt.{seg_kdata}
use leoman.Sched.{dispatch, switch_to}

module _ {Queue : Type 0} where
  -- The process in slot `n` goes on: the interrupt returns to its trap frame, and unless it is the
  -- one that ran, `c`, the kernel stack and the address space are switched to its own.
  pub record GoesOn (c n : ℕ) (k : Kernel Queue) (result : ℕ × Kernel Queue) : Type 0 where
    pub proc : Proc Queue
    pub at : get_elem? k.procs n ≡ some proc
    pub frame : result.0 ≡ proc.trapframe
    pub runs : result.1.current_proc ≡ some n
    pub same_procs : result.1.procs ≡ k.procs
    pub same_idle : result.1.idle ≡ k.idle
    pub switched :
        ((n ≡ c) × (result.1.esp0 ≡ k.esp0) × (result.1.cr3 ≡ k.cr3))
        ⊎ ((n ≢ c)
            × (result.1.ss0 ≡ seg_kdata)
            × (result.1.esp0 ≡ proc.kstack)
            × (result.1.cr3 ≡ proc.pdir))

  switch-GoesOn :
      (c n frame : ℕ) (k : Kernel Queue) (p : Proc Queue)
      → n < length k.procs
      → get_elem? k.procs c ≡ some p
      → p.trapframe ≡ frame
      → k.current_proc ≡ some c
      → (result : ℕ × Kernel Queue) × ((if n == c then done (frame, k) else switch_to n k)
          ≡ done result)
        × GoesOn c n k result
  unfolding switch_to
  switch-GoesOn c n frame k p l at saved runs = elim (Bool-cases (n == c)) [
    | inl same ↦
        let e : n ≡ c = ground arith in
        (
          (frame, k),
          rw same,
          record {
            proc = p;
            at = ap (get_elem? k.procs) e ∙ at;
            frame = sym saved;
            runs = runs ∙ ap some (sym e);
            same_procs = refl;
            same_idle = refl;
            switched = inl (e, refl, refl);
          },
        )
    | inr other ↦
        let (q, here) = get_elem?_in_range k.procs n l in
        (
          (
            q.trapframe,
            record k { current_proc = some n; ss0 = seg_kdata; esp0 = q.kstack; cr3 = q.pdir },
          ),
          rw (other, here, switch_to),
          record {
            proc = q;
            at = here;
            frame = refl;
            runs = refl;
            same_procs = refl;
            same_idle = refl;
            switched = inr (ground arith, refl, refl, refl);
          },
        )
  ]

  -- The search picks a ready process other than idle's, or idle's where there is none.
  abbrev pub IsPick : Kernel Queue → ℕ → Type 0
  IsPick k n =
      (matches k.procs k.idle ready n ≡ true)
      ⊎ ((k.idle ≡ some n) × ((i : ℕ) → i < 64 → matches k.procs k.idle ready i ≡ false))

  dispatch-idle :
      (c frame idle : ℕ) (k : Kernel Queue)
      → k.idle ≡ some idle
      → dispatch c frame (none, k) ≡ (if idle == c then done (frame, k) else switch_to idle k)
  unfolding dispatch
  dispatch-idle c frame idle k e = simp e

  moved_cursor :
      (c n cursor : ℕ) (k : Kernel Queue) (result : ℕ × Kernel Queue)
      → GoesOn c n (record k { cursor = cursor }) result
      → GoesOn c n k result
  moved_cursor c n cursor k result goes = record {
    proc = goes.proc;
    at = goes.at;
    frame = goes.frame;
    runs = goes.runs;
    same_procs = goes.same_procs;
    same_idle = goes.same_idle;
    switched = goes.switched;
  }

  pub dispatch-GoesOn :
      (c frame idle : ℕ) (k : Kernel Queue) (p : Proc Queue)
      → length k.procs ≡ 64
      → k.idle ≡ some idle
      → idle < 64
      → get_elem? k.procs c ≡ some p
      → p.trapframe ≡ frame
      → k.current_proc ≡ some c
      → (n : ℕ) × (result : ℕ × Kernel Queue) × (dispatch c frame (find_next_proc ready k)
          ≡ done result)
        × IsPick k n
        × GoesOn c n k result
  unfolding dispatch
  dispatch-GoesOn c frame idle k p size has_idle l at saved runs =
      elim (find_next_proc_lem ready k) [
        | inl (e, misses) ↦
            let (result, ran, goes) =
              switch-GoesOn c idle frame (record k { cursor = k.cursor % 64 }) p (omega arith) at
                saved runs in
            (
              idle,
              result,
              ap (dispatch c frame) e
                  ∙ dispatch-idle c frame idle (record k { cursor = k.cursor % 64 }) has_idle
                  ∙ ran,
              inr (has_idle, misses),
              moved_cursor c idle (k.cursor % 64) k result goes,
            )
        | inr (d, q, e, hit, _) ↦
            let n = around k.cursor d in
            let (result, ran, goes) =
              switch-GoesOn c n frame (record k { cursor = n + 1 }) p (omega arith) at saved runs in
            (
              n,
              result,
              ap (dispatch c frame) e ∙ ran,
              inl hit,
              moved_cursor c n (n + 1) k result goes,
            )
      ]
