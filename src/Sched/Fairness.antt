-- ===== src/Sched/Fairness.antt =====
-- kernel/proc.c: every ready process runs.
use leoman.Base.{ℕ, zero, suc, ◌+◌, ◌-◌, ◌%◌, ◌≤◌, ◌<◌}
use leoman.Base.{◌≡◌, refl, ap, ◌∙◌, ◌⊎◌, inl, inr, Bool, true, false, some}
use leoman.Base.{arith, Sum-elim}
use leoman.Base.{get_elem?_in_range, Run, done, ◌>>=◌, dec_lt, ℕ_discrete}
use leoman.Proc.{ready, Kernel, find_next_proc, update_proc}
use leoman.Proc.Cursor.{matches, around, find_next_proc_lem}
use leoman.Proc.Search.{proc_is_blocked_total}
use leoman.Sched.{make_ready, dispatch, preempt, proc_schedule_after_irq}
use leoman.Sched.Dispatch.{
  IsWaiting, save-IsWaiting, make_ready-IsWaiting, dispatch-IsDispatched, keep-IsWaiting,
}

module _ {Queue : Type 0} where
  -- How far the cursor of the search is from slot `t`.
  abbrev pub distance : ℕ → Kernel Queue → ℕ
  distance t k = (t + 64 - k.cursor % 64) % 64

  -- One search either picks slot `t` or moves the cursor closer to it, without passing it.
  abbrev Advances : ℕ → ℕ → ℕ × Kernel Queue → Type 0
  Advances t before (frame, k) =
      (k.current_proc ≡ some t) ⊎ (IsWaiting t k × (distance t k < before))

  recursor-IsWaiting :
      (t i : ℕ) (k : Kernel Queue) → IsWaiting t k → IsWaiting t (record k { cursor = i })
  recursor-IsWaiting t i k w = record {
    size = w.size;
    enabled = w.enabled;
    current = w.current;
    runs = w.runs;
    current-lt = w.current-lt;
    pids = w.pids;
    slot-lt = w.slot-lt;
    is_ready = w.is_ready;
  }

  dispatch-Advances :
      (t c frame : ℕ) (k : Kernel Queue)
      → IsWaiting t k
      → k.current_proc ≡ some c
      → (result : ℕ × Kernel Queue) × (dispatch c frame (find_next_proc ready k) ≡ done result)
        × Advances t (distance t k) result
  dispatch-Advances t c frame k w runs = elim (find_next_proc_lem ready k) [
    | inl (_, misses) ↦ absurd (cc (misses t w.slot-lt, w.is_ready))
    | inr (d, l, e, hit, misses) ↦
        let n = around k.cursor d in
        let k' = record k { cursor = n + 1 } in
        let size = w.size in
        let slot = w.slot-lt in
        let at_t : around k.cursor (distance t k) ≡ t = omega arith in
        let (result, ran, s) = dispatch-IsDispatched n c frame k' (omega arith) runs in
        let returns = ap (dispatch c frame) e ∙ ran in
        elim (dec_lt (distance t k) d) [
          | yes passed ↦ absurd (
              cc (misses (distance t k) passed, ap (matches k.procs k.idle ready) at_t, w.is_ready))
          | no short ↦ elim (ℕ_discrete d (distance t k)) [
            | yes same ↦
                (result, returns, inl (s.runs ∙ ap some (ap (around k.cursor) same ∙ at_t)))
            | no less ↦ (
              result,
              returns,
              inr (
                keep-IsWaiting t n k' result.1 (omega arith) s (recursor-IsWaiting t (n + 1) k w),
                omega (arith, s.same_cursor),
              ),
            )
          ]
        ]
  ]

  make_ready_same :
      (c : ℕ) (blocked : Bool) (k : Kernel Queue)
      → ((make_ready c blocked k).current_proc ≡ k.current_proc)
        × ((make_ready c blocked k).cursor ≡ k.cursor)
  unfolding make_ready
  make_ready_same c true k = (refl, refl)
  make_ready_same c false k = (refl, refl)

  saved-IsWaiting :
      (t c frame : ℕ) (k : Kernel Queue)
      → IsWaiting t k
      → IsWaiting t (update_proc c (λ p. record p { trapframe = frame }) k)
  saved-IsWaiting t c frame k w =
      save-IsWaiting t c (λ p. record p { trapframe = frame }) k (λ p. refl) (λ p. inl refl) w

  Advances-le :
      (t a b : ℕ) (result : ℕ × Kernel Queue) → a ≤ b → Advances t a result → Advances t b result
  Advances-le t a b result l (inl e) = inl e
  Advances-le t a b result l (inr (w, d)) = inr (w, omega arith)

  preempt-Advances :
      (t c frame : ℕ) (k : Kernel Queue)
      → IsWaiting t k
      → k.current_proc ≡ some c
      → c < 64
      → (result : ℕ × Kernel Queue) × (preempt c frame k ≡ done result)
        × Advances t (distance t k) result
  unfolding preempt update_proc
  preempt-Advances t c frame k w runs l =
      let saved = update_proc c (λ p. record p { trapframe = frame }) k in
      let w' = saved-IsWaiting t c frame k w in
      let size = w'.size in
      let (p, at) = get_elem?_in_range saved.procs c (omega arith) in
      let (blocked, e) = proc_is_blocked_total saved c p at (omega arith) (w'.pids c p at) in
      let k' = make_ready c blocked saved in
      let (same_current, same_cursor) = make_ready_same c blocked saved in
      let (result, ran, adv) =
        dispatch-Advances t c frame k' (make_ready-IsWaiting t c blocked saved w')
          (same_current ∙ runs) in
      (
        result,
        rw (at, preempt, e) ran,
        Advances-le t (distance t k') (distance t k) result (omega (arith, same_cursor)) adv,
      )

  schedule-Advances :
      (t frame : ℕ) (k : Kernel Queue)
      → IsWaiting t k
      → (result : ℕ × Kernel Queue) × (proc_schedule_after_irq frame k ≡ done result)
        × Advances t (distance t k) result
  unfolding proc_schedule_after_irq
  schedule-Advances t frame k w =
      let (result, ran, adv) = preempt-Advances t w.current frame k w w.runs w.current-lt in
      (result, rw (w.enabled, w.runs, proc_schedule_after_irq) ran, adv)

  -- The timer fires `n` times; `frames i` is the processor's state at the tick `i` from now.
  unfoldable pub ticks : ℕ → (ℕ → ℕ) → Kernel Queue → Run (Kernel Queue)
  ticks zero frames k = done k
  ticks (suc n) frames k =
      proc_schedule_after_irq (frames 0) k >>= λ r. ticks n (λ i. frames (suc i)) r.1

  ticks-suc :
      (n : ℕ) (frames : ℕ → ℕ) (k : Kernel Queue) (result : ℕ × Kernel Queue)
      → proc_schedule_after_irq (frames 0) k ≡ done result
      → ticks (suc n) frames k ≡ ticks n (λ i. frames (suc i)) result.1
  unfolding ticks
  ticks-suc n frames k result e = rw e

  -- The process in slot `t` runs after one of the next `n` ticks.
  abbrev pub RunsWithin : ℕ → ℕ → (ℕ → ℕ) → Kernel Queue → Type 0
  RunsWithin n t frames k =
      (m : ℕ) × (k' : Kernel Queue) × (m < n)
      × (ticks (suc m) frames k ≡ done k')
      × (k'.current_proc ≡ some t)

  RunsWithin-suc :
      (n t : ℕ) (frames : ℕ → ℕ) (k : Kernel Queue) (result : ℕ × Kernel Queue)
      → proc_schedule_after_irq (frames 0) k ≡ done result
      → RunsWithin n t (λ i. frames (suc i)) result.1
      → RunsWithin (suc n) t frames k
  RunsWithin-suc n t frames k result e (m, k', l, ran, hit) =
      (suc m, k', omega arith, ticks-suc (suc m) frames k result e ∙ ran, hit)

  RunsWithin-distance :
      (n t : ℕ) (frames : ℕ → ℕ) (k : Kernel Queue)
      → IsWaiting t k
      → distance t k < n
      → RunsWithin n t frames k
  RunsWithin-distance zero t frames k w l = absurd (omega arith)
  RunsWithin-distance (suc n) t frames k w l =
      let (result, ran, adv) = schedule-Advances t (frames 0) k w in
      Sum-elim adv
        (λ hit.
          (0, result.1, omega arith, ticks-suc 0 frames k result ran ∙ (unfold ticks in refl), hit))
        (λ rest.
          RunsWithin-suc n t frames k result ran
            (RunsWithin-distance n t (λ i. frames (suc i)) result.1 rest.0 (omega (arith, rest.1))))

  -- While scheduling is on and a process of the table of 64 slots, whose pids are 32-bit numbers,
  -- runs, every ready process that is not idle's runs after one of the next 64 timer ticks,
  -- whatever the other processes do in user mode.
  pub scheduler_fair :
      (t : ℕ) (frames : ℕ → ℕ) (k : Kernel Queue) → IsWaiting t k → RunsWithin 64 t frames k
  scheduler_fair t frames k w = RunsWithin-distance 64 t frames k w (omega arith)
