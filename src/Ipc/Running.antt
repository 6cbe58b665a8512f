-- ===== src/Ipc/Running.antt =====
-- kernel/syscall.c and kernel/proc.c: runs of the system, of system calls for messages with the
-- scheduler behind them and of the timer's interrupts, one after the other.
use leoman.Base.{ℕ, ◌≡◌, ◌≢◌, sym, ap, ◌∙◌, ◌⊎◌, inl, inr, Bool, true, false, some}
use leoman.Base.{done, >>=-eq-done, Option-split, Sum-elim, done-inj, if◌then◌else◌}
use leoman.Proc.{proc_find_by_pid, proc_disable_scheduling, proc_enable_scheduling}
use leoman.Sched.{proc_schedule_after_irq}
use leoman.Stailq.{Stailq}
use leoman.System.{System, proc_schedule_without_irq}
use leoman.Message.{MsgPacket, MsgPacketQueue, load_packet}
use leoman.Ipc.{
  current, proc_at, on_kernel, send_to, send_to_slot, send_packet, send_msg, take_or_wait, recv_msg,
  answer_first, rply_msg, syscall_send_msg, syscall_recv_msg, syscall_rply_msg,
}
use leoman.Ipc.Mailboxes.{IsWaiting}
use leoman.Ipc.Views.{mailboxes}
use leoman.Ipc.Turns.{IsAwake, schedule_sound}
use leoman.Ipc.Laws.{send, recv, rply, Call-IsWaiting}

module _ {Q : Type 0} (q : Stailq MsgPacketQueue Q) (fuel : ℕ) where
  -- Every process that waits for a message has an entry in its queue, and the current process,
  -- unless it is idle's, does not wait.
  pub record IsSound (s : System Q) : Type 0 where
    pub waiting : IsWaiting (mailboxes q s)
    pub awake : IsAwake q s.kernel

  scheduler-IsSound :
      (frame next : ℕ) (s s' : System Q)
      → (s.kernel.scheduling_enabled ≡ true) ⊎ IsAwake q s.kernel
      → IsWaiting (mailboxes q s)
      → proc_schedule_without_irq frame s ≡ done (next, s')
      → IsSound s'
  unfolding proc_schedule_without_irq
  scheduler-IsSound frame next s s' either holds e =
      let (r, ran, last) = >>=-eq-done (proc_schedule_after_irq frame s.kernel) _ e in
      let (waiting, awake) = schedule_sound q frame s.kernel r either holds ran in
      let same : r.1 ≡ s'.kernel = ap (λ (x : ℕ × System Q). x.1.kernel) (done-inj last) in
      rw (sym same) (record { waiting = waiting; awake = awake })

  send_to_slot-enabled :
      (r : ℕ) (msg : MsgPacket) (s s' : System Q)
      → send_to_slot q fuel r msg s ≡ done s'
      → s'.kernel.scheduling_enabled ≡ true
  unfolding send_to_slot proc_enable_scheduling
  send_to_slot-enabled r msg s s' e =
      let (receiver, _, e₁) = >>=-eq-done (proc_at r s) _ e in
      let ((c, me), _, e₂) = >>=-eq-done (current s) _ e₁ in
      let (s₁, _, last) = >>=-eq-done (send_to q fuel c me.pid r receiver msg s) _ e₂ in
      ap (λ (x : System Q). x.kernel.scheduling_enabled) (sym (done-inj last))

  -- A message for a receiver that exists leaves scheduling on; else nothing else was done.
  send_msg-enabled :
      (eax : ℕ) (known : Bool) (s s' : System Q)
      → send_msg q fuel eax s ≡ done (known, s')
      → ((known ≡ true) × (s'.kernel.scheduling_enabled ≡ true))
        ⊎ ((known ≡ false) × (s' ≡ on_kernel proc_disable_scheduling s))
  unfolding send_msg send_packet
  send_msg-enabled eax known s s' e =
      let off = on_kernel proc_disable_scheduling s in
      let (msg, _, e₁) = >>=-eq-done (load_packet eax s.vm) _ e in
      Sum-elim (Option-split (proc_find_by_pid msg.receiver off.kernel) _ _ e₁)
        (λ unknown. inr (
          ap (λ (x : Bool × System Q). x.0) (sym (done-inj unknown.1)),
          ap (λ (x : Bool × System Q). x.1) (sym (done-inj unknown.1)),
        ))
        (λ found.
          let (s₁, sent, same) = >>=-eq-done (send_to_slot q fuel found.0 msg off) _ found.2 in
          inl (
            ap (λ (x : Bool × System Q). x.0) (sym (done-inj same)),
            ap (λ (x : Bool × System Q). x.1.kernel.scheduling_enabled) (sym (done-inj same))
                ∙ send_to_slot-enabled found.0 msg off s₁ sent,
          ))

  recv_msg-enabled :
      (eax : ℕ) (s s' : System Q)
      → recv_msg q fuel eax s ≡ done s'
      → s'.kernel.scheduling_enabled ≡ true
  unfolding recv_msg proc_enable_scheduling
  recv_msg-enabled eax s s' e =
      let off = on_kernel proc_disable_scheduling s in
      let (msg, _, e₁) = >>=-eq-done (load_packet eax s.vm) _ e in
      let ((c, p), _, e₂) = >>=-eq-done (current off) _ e₁ in
      let (s₁, _, last) = >>=-eq-done (take_or_wait q fuel eax c p msg off) _ e₂ in
      ap (λ (x : System Q). x.kernel.scheduling_enabled) (sym (done-inj last))

  rply_msg-enabled :
      (eax : ℕ) (s s' : System Q)
      → rply_msg q fuel eax s ≡ done s'
      → s'.kernel.scheduling_enabled ≡ true
  unfolding rply_msg proc_enable_scheduling
  rply_msg-enabled eax s s' e =
      let off = on_kernel proc_disable_scheduling s in
      let (msg, _, e₁) = >>=-eq-done (load_packet eax s.vm) _ e in
      let ((c, p), _, e₂) = >>=-eq-done (current off) _ e₁ in
      let (s₁, _, last) = >>=-eq-done (answer_first q fuel c p msg off) _ e₂ in
      ap (λ (x : System Q). x.kernel.scheduling_enabled) (sym (done-inj last))

  -- A step of the system: the current process, which is not idle's, makes a system call for a
  -- message, with the scheduler behind it; or an interrupt of the timer calls the scheduler.
  pub data Step (s s' : System Q) : Type 0 where
    sends :
        (c regs trap eax next : ℕ)
        → s.kernel.current_proc ≡ some c
        → s.kernel.idle ≢ some c
        → syscall_send_msg q fuel regs trap eax s ≡ done (next, s')
        → Step s s'
    receives :
        (c trap eax next : ℕ)
        → s.kernel.current_proc ≡ some c
        → s.kernel.idle ≢ some c
        → syscall_recv_msg q fuel trap eax s ≡ done (next, s')
        → Step s s'
    replies :
        (c trap eax next : ℕ)
        → s.kernel.current_proc ≡ some c
        → s.kernel.idle ≢ some c
        → syscall_rply_msg q fuel trap eax s ≡ done (next, s')
        → Step s s'
    interrupted : (frame next : ℕ) → proc_schedule_without_irq frame s ≡ done (next, s') → Step s s'

  -- A run of the system from a state.
  pub data Steps (s : System Q) : System Q → Type 0 where
    start : Steps s s
    then_step : {t u : System Q} → Steps s t → Step t u → Steps s u

  sends-IsSound :
      (c regs trap eax next : ℕ) (s s' : System Q)
      → IsSound s
      → s.kernel.current_proc ≡ some c
      → s.kernel.idle ≢ some c
      → syscall_send_msg q fuel regs trap eax s ≡ done (next, s')
      → IsSound s'
  unfolding syscall_send_msg proc_disable_scheduling
  sends-IsSound c regs trap eax next s s' h runs other e =
      let ((known, s₁), sent, rest) = >>=-eq-done (send_msg q fuel eax s) _ e in
      let holds =
        Call-IsWaiting q fuel c s s₁ runs (h.awake c runs other) h.waiting (send eax known sent) in
      elim (send_msg-enabled eax known s s₁ sent) [
        | inl (there, on) ↦ scheduler-IsSound trap next s₁ s' (inl on) holds (
            ap (λ (b : Bool). if b then proc_schedule_without_irq trap s₁ else done (regs, s₁))
              (sym there)
            ∙ rest)
        | inr (missing, off) ↦
            let same : s₁ ≡ s' =
              ap (λ (x : ℕ × System Q). x.1)
                (done-inj (
                  ap
                    (λ (b : Bool). if b then proc_schedule_without_irq trap s₁ else done (regs, s₁))
                    (sym missing)
                  ∙ rest)) in
            rw (sym same ∙ off) (record { waiting = h.waiting; awake = h.awake })
      ]

  Step-IsSound : (s s' : System Q) → IsSound s → Step s s' → IsSound s'
  unfolding syscall_recv_msg syscall_rply_msg
  Step-IsSound s s' h (sends c regs trap eax next runs other e) =
      sends-IsSound c regs trap eax next s s' h runs other e
  Step-IsSound s s' h (receives c trap eax next runs other e) =
      let (s₁, took, rest) = >>=-eq-done (recv_msg q fuel eax s) _ e in
      scheduler-IsSound trap next s₁ s' (inl (recv_msg-enabled eax s s₁ took))
        (Call-IsWaiting q fuel c s s₁ runs (h.awake c runs other) h.waiting (recv eax took)) rest
  Step-IsSound s s' h (replies c trap eax next runs other e) =
      let (s₁, answered, rest) = >>=-eq-done (rply_msg q fuel eax s) _ e in
      scheduler-IsSound trap next s₁ s' (inl (rply_msg-enabled eax s s₁ answered))
        (Call-IsWaiting q fuel c s s₁ runs (h.awake c runs other) h.waiting (rply eax answered))
        rest
  Step-IsSound s s' h (interrupted frame next e) =
      scheduler-IsSound frame next s s' (inr h.awake) h.waiting e

  -- In every run of any number of system calls for messages by current processes that are not
  -- idle's, each with the scheduler that it calls behind it, and of timer interrupts, it stays so
  -- that every process that is blocked in receiving has an entry in its queue, and that the
  -- current process, unless it is idle's, is not blocked in receiving; for any implementation of
  -- the queues.
  pub Steps-IsSound : (s s' : System Q) → IsSound s → Steps s s' → IsSound s'
  Steps-IsSound s s' h start = h
  Steps-IsSound s s' h (then_step {t = t} before step) =
      Step-IsSound t s' (Steps-IsSound s t h before) step
