-- ===== src/Sched.antt =====
-- kernel/proc.c: the scheduler, `proc_schedule_after_irq`. The state of the processor is the
-- address of its trap frame.
pub mod Dispatch
pub mod Fairness
pub mod Switch
pub mod Laws
use leoman.Base.{ℕ, zero, suc, Bool, true, false, not, Option, none, some}
use leoman.Base.{◌==◌, if◌then◌else◌, get_elem?, Run, done, fault, ◌>>=◌}
use leoman.Proc.{Proc, Kernel, ready, find_next_proc, update_proc, proc_is_blocked}
use leoman.Gdt.{seg_kdata}

module _ {Queue : Type 0} where
  -- `tss_set_ss`, `tss_set_esp` and `set_cr3` for the process in slot `next`, which becomes the
  -- current one.
  unfoldable pub switch_to : ℕ → Kernel Queue → Run (ℕ × Kernel Queue)
  switch_to next k = elim (get_elem? k.procs next) [
    | none ↦ fault
    | some p ↦ done (
      p.trapframe,
      record k { current_proc = some next; ss0 = seg_kdata; esp0 = p.kstack; cr3 = p.pdir },
    )
  ]

  -- The process to go on with after the search: idle where no process is ready.
  unfoldable pub dispatch : ℕ → ℕ → Option ℕ × Kernel Queue → Run (ℕ × Kernel Queue)
  unfolding switch_to
  dispatch current cpu_state (some next, k) =
      if next == current then done (cpu_state, k) else switch_to next k
  dispatch current cpu_state (none, k) = elim k.idle [
    | none ↦ fault
    | some next ↦ if next == current then done (cpu_state, k) else switch_to next k
  ]

  -- A process that is not blocked is ready again once it stops running.
  unfoldable pub make_ready : ℕ → Bool → Kernel Queue → Kernel Queue
  unfolding update_proc
  make_ready current blocked k =
      if blocked then k else update_proc current (λ p. record p { state = ready }) k

  unfoldable pub preempt : ℕ → ℕ → Kernel Queue → Run (ℕ × Kernel Queue)
  unfolding update_proc make_ready dispatch
  preempt current cpu_state k =
      let saved = update_proc current (λ p. record p { trapframe = cpu_state }) k in
      elim (get_elem? saved.procs current) [
        | none ↦ fault
        | some p ↦ do
          blocked ← proc_is_blocked p.pid saved
          dispatch current cpu_state (find_next_proc ready (make_ready current blocked saved))
      ]

  unfoldable pub proc_schedule_after_irq : ℕ → Kernel Queue → Run (ℕ × Kernel Queue)
  unfolding preempt
  proc_schedule_after_irq cpu_state k =
      if k.scheduling_enabled
      then elim k.current_proc [
        | none ↦ done (cpu_state, k)
        | some current ↦ preempt current cpu_state k
      ]
      else done (cpu_state, k)
