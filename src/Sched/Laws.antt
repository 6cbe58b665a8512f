-- ===== src/Sched/Laws.antt =====
-- kernel/proc.c: what one call of `proc_schedule_after_irq` does.
use leoman.Base.{ℕ, ◌^◌, ◌<◌}
use leoman.Base.{◌≡◌, ◌≢◌, true, some}
use leoman.Base.{List, if◌then◌else◌, get_elem?}
use leoman.Proc.{Proc, ready, Kernel, is_blocked}
use leoman.Proc.Search.{LacksPid}
use leoman.Sched.{preempt, proc_schedule_after_irq}

module _ {Queue : Type 0} where
  -- The table after the current process, in slot `c`, was interrupted: its trap frame is saved,
  -- and it is ready unless it was blocked; every other process is as before.
  abbrev pub IsInterrupted : ℕ → ℕ → Proc Queue → Kernel Queue → Kernel Queue → Type 0
  IsInterrupted c frame p k k' =
      (get_elem? k'.procs c
        ≡ some
            (record p { trapframe = frame; state = if is_blocked p.state then p.state else ready }))
      × ((j : ℕ) → j ≢ c → get_elem? k'.procs j ≡ get_elem? k.procs j)

  -- No slot before `c` has the pid of the process in it, so that a search by that pid finds it.
  abbrev pub IsFirst : List (Proc Queue) → ℕ → Proc Queue → Type 0
  IsFirst procs c p = (p.pid < 2 ^ 32) × LacksPid p.pid procs c

  pub schedule-preempt :
      (c frame : ℕ) (k : Kernel Queue)
      → k.scheduling_enabled ≡ true
      → k.current_proc ≡ some c
      → proc_schedule_after_irq frame k ≡ preempt c frame k
  unfolding proc_schedule_after_irq
  schedule-preempt c frame k enabled runs = simp (enabled, runs)
