-- ===== src/Ipc/Turns.antt =====
-- kernel/syscall.c and kernel/proc.c: the system calls for messages with the scheduler behind them,
-- and the timer's interrupts, one after the other.
use leoman.Base.{
  ℕ, ◌+◌, ◌%◌, ◌≡◌, ◌≢◌, refl, sym, ap, ◌∙◌, ◌⊎◌, inl, inr, Bool, true, false, none, some,
}
use leoman.Base.{List, map, get_elem?, arith, Bool-cases, Option-cases, ◌==◌, if◌then◌else◌}
use leoman.Base.{done, >>=-eq-done, Option-eq-done}
use leoman.Proc.{
  Proc, Kernel, ready, recv_blocked, has_state, state_value, find_next_proc, update_proc,
  proc_is_blocked,
}
use leoman.Proc.Cursor.{matches, around, find_next_proc_lem}
use leoman.Sched.{make_ready, dispatch, preempt, switch_to, proc_schedule_after_irq}
use leoman.Sched.Laws.{schedule-preempt}
use leoman.Stailq.{Stailq}
use leoman.Message.{MsgPacketQueue}
use leoman.Ipc.Mailboxes.{Mailbox, HasEntry, IsWaiting, IsRunning, modify-IsWaiting, with_state}
use leoman.Ipc.Views.{mailbox, map-modify, get_elem?-map}

module _ {Q : Type 0} (q : Stailq MsgPacketQueue Q) where
  abbrev pub boxes : Kernel Q → List Mailbox
  boxes k = map (mailbox q) k.procs

  -- The current process, unless it is idle's, does not wait for a message.
  abbrev pub IsAwake : Kernel Q → Type 0
  IsAwake k = (c : ℕ) → k.current_proc ≡ some c → k.idle ≢ some c → IsRunning c (boxes k)

  has_state-IsRunning :
      (procs : List (Proc Q)) (n : ℕ)
      → has_state procs ready n ≡ true
      → IsRunning n (map (mailbox q) procs)
  unfolding has_state state_value
  has_state-IsRunning procs n h b at blocked = elim (Option-cases (get_elem? procs n)) [
    | inl gone ↦ ground (arith, h, gone)
    | inr (p, here) ↦
        let same : some (mailbox q p) ≡ some b =
          sym (get_elem?-map (mailbox q) procs n p here) ∙ at in
        let state : p.state ≡ recv_blocked = cc in ground (arith, h, here, state)
  ]

  switched :
      (next c frame : ℕ) (k : Kernel Q) (r : ℕ × Kernel Q)
      → k.current_proc ≡ some c
      → (if next == c then done (frame, k) else switch_to next k) ≡ done r
      → (r.1.current_proc ≡ some next) × (r.1.procs ≡ k.procs) × (r.1.idle ≡ k.idle)
  unfolding switch_to
  switched next c frame k r runs e = elim (Bool-cases (next == c)) [
    | inl same ↦ let here : next ≡ c = ground (arith, same) in ground (arith, same, here, e)
    | inr other ↦ elim (Option-cases (get_elem? k.procs next)) [
      | inl gone ↦ ground (arith, other, gone, e)
      | inr (p, at) ↦ ground (arith, other, at, e)
    ]
  ]

  keeps : (b b' : Mailbox) → (b' ≡ b) ⊎ (b' ≡ with_state ready b) → HasEntry b → HasEntry b'
  keeps b b' (inl e) h = rw e h
  keeps b b' (inr e) h = λ blocked. cc

  modify-boxes :
      (i : ℕ) (f : Proc Q → Proc Q) (g : Mailbox → Mailbox) (k : Kernel Q)
      → ((p : Proc Q) → mailbox q (f p) ≡ g (mailbox q p))
      → ((b : Mailbox) → (g b ≡ b) ⊎ (g b ≡ with_state ready b))
      → IsWaiting (boxes k)
      → IsWaiting (boxes (update_proc i f k))
  unfolding update_proc
  modify-boxes i f g k same kept holds =
      rw (map-modify (mailbox q) f g k.procs i same)
        (modify-IsWaiting (boxes k) i g holds (λ b at h. keeps b (g b) (kept b) h))

  -- A process that stops running.
  saved : ℕ → ℕ → Bool → Kernel Q → Kernel Q
  saved c frame blocked k =
      make_ready c blocked (update_proc c (λ p. record p { trapframe = frame }) k)

  saved-IsWaiting :
      (c frame : ℕ) (blocked : Bool) (k : Kernel Q)
      → IsWaiting (boxes k)
      → IsWaiting (boxes (saved c frame blocked k))
  unfolding saved make_ready
  saved-IsWaiting c frame true k holds =
      modify-boxes c _ (λ b. b) k (λ p. refl) (λ b. inl refl) holds
  saved-IsWaiting c frame false k holds =
      modify-boxes c _ (with_state ready) (update_proc c (λ p. record p { trapframe = frame }) k)
        (λ p. refl) (λ b. inr refl) (modify-boxes c _ (λ b. b) k (λ p. refl) (λ b. inl refl) holds)

  dispatch_sound :
      (c frame : ℕ) (k : Kernel Q) (r : ℕ × Kernel Q)
      → k.current_proc ≡ some c
      → IsWaiting (boxes k)
      → dispatch c frame (find_next_proc ready k) ≡ done r
      → IsWaiting (boxes r.1) × IsAwake r.1
  unfolding dispatch matches
  dispatch_sound c frame k r runs holds e = elim (find_next_proc_lem ready k) [
    | inl (found, _) ↦
        let k' = record k { cursor = k.cursor % 64 } in
        let e' : dispatch c frame (none, k') ≡ done r = ap (dispatch c frame) (sym found) ∙ e in
        let (next, idle, e'') = Option-eq-done k.idle _ e' in
        let (now, procs, idle') = switched next c frame k' r runs e'' in
        (
          rw (ap (map (mailbox q)) procs) holds,
          λ d runs' other. absurd (other (idle' ∙ (idle ∙ (sym now ∙ runs')))),
        )
    | inr (d, _, found, hit, _) ↦
        let next = around k.cursor d in
        let k' = record k { cursor = next + 1 } in
        let e' : dispatch c frame (some next, k') ≡ done r =
          ap (dispatch c frame) (sym found) ∙ e in
        let (now, procs, _) = switched next c frame k' r runs e' in
        (
          rw (ap (map (mailbox q)) procs) holds,
          λ d runs' other.
              let same : next ≡ d = cc in
              rw (ap (map (mailbox q)) procs, sym same)
                (has_state-IsRunning k.procs next (ground (arith, hit))),
        )
  ]

  preempt_sound :
      (c frame : ℕ) (k : Kernel Q) (r : ℕ × Kernel Q)
      → k.current_proc ≡ some c
      → IsWaiting (boxes k)
      → preempt c frame k ≡ done r
      → IsWaiting (boxes r.1) × IsAwake r.1
  unfolding preempt saved update_proc make_ready
  preempt_sound c frame k r runs holds e =
      let k₁ = update_proc c (λ p. record p { trapframe = frame }) k in
      let (p, _, e₁) = Option-eq-done (get_elem? k₁.procs c) _ e in
      let (blocked, _, e₂) = >>=-eq-done (proc_is_blocked p.pid k₁) _ e₁ in
      dispatch_sound c frame (saved c frame blocked k) r (still blocked)
        (saved-IsWaiting c frame blocked k holds) e₂
    where
      still : (blocked : Bool) → (saved c frame blocked k).current_proc ≡ some c
      still true = runs
      still false = runs

  -- The scheduler leaves an entry to every process that waits, and goes on with one that does not
  -- wait, or with idle's.
  pub schedule_sound :
      (frame : ℕ) (k : Kernel Q) (r : ℕ × Kernel Q)
      → (k.scheduling_enabled ≡ true) ⊎ IsAwake k
      → IsWaiting (boxes k)
      → proc_schedule_after_irq frame k ≡ done r
      → IsWaiting (boxes r.1) × IsAwake r.1
  unfolding proc_schedule_after_irq
  schedule_sound frame k r either holds e = elim (Bool-cases k.scheduling_enabled) [
    | inr off ↦
        let same : k ≡ r.1 = ground (arith, off, e) in
        let awake : IsAwake k = elim either [ inl on ↦ cc | inr awake ↦ awake ] in
        rw (sym same) (holds, awake)
    | inl on ↦ elim (Option-cases k.current_proc) [
      | inl gone ↦
          let same : k ≡ r.1 = ground (arith, on, gone, e) in rw (sym same) (holds, λ c runs. cc)
      | inr (c, runs) ↦
          preempt_sound c frame k r runs holds (sym (schedule-preempt c frame k on runs) ∙ e)
    ]
  ]
