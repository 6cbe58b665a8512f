-- ===== src/Ipc/Inversion.antt =====
-- kernel/syscall.c: what a step that returned was made of.
use leoman.Base.{
  ℕ, ◌≡◌, refl, sym, ap, ◌∙◌, arith, some, done, >>=-eq-done, Option-eq-done, done-inj, get_elem?,
}
use leoman.Vm.{vm_get_phys_mapping}
use leoman.Proc.{Proc, ready, send_blocked, update_proc}
use leoman.Stailq.{Stailq}
use leoman.System.{System}
use leoman.Ipc.{
  set_state, on_queue, proc_at, current, new_entry, enqueue, hand_over, hand_over_entry,
}
use leoman.Message.{MsgPacket, MsgPacketQueue, deliver}
use leoman.Ipc.Mailboxes.{}
use leoman.Ipc.Views.{sender_of}

module _ {Q : Type 0} where
  pub proc_at_done :
      (i : ℕ) (s : System Q) (p : Proc Q)
      → proc_at i s ≡ done p
      → get_elem? s.kernel.procs i ≡ some p
  unfolding proc_at
  proc_at_done i s p h = ground arith

  pub current_done :
      (s : System Q) (c : ℕ) (p : Proc Q)
      → current s ≡ done (c, p)
      → (s.kernel.current_proc ≡ some c) × (get_elem? s.kernel.procs c ≡ some p)
  unfolding current
  current_done s c p h =
      let (i, there, h₁) = Option-eq-done s.kernel.current_proc _ h in
      let (p', at, h₂) = >>=-eq-done (proc_at i s) _ h₁ in
      let same : (i, p') ≡ (c, p) = done-inj h₂ in
      (
        there ∙ ap some (ap (λ (x : ℕ × Proc Q). x.0) same),
        ap (get_elem? s.kernel.procs) (sym (ap (λ (x : ℕ × Proc Q). x.0) same))
            ∙ (proc_at_done i s p' at ∙ ap some (ap (λ (x : ℕ × Proc Q). x.1) same)),
      )

module _ {Q : Type 0} (q : Stailq MsgPacketQueue Q) (fuel : ℕ) where
  open q use {first, insert_tail, remove_head, update_first, elements}

  pub new_entry_done :
      (msg : MsgPacket) (s : System Q) (e : MsgPacketQueue) (s' : System Q)
      → new_entry q fuel msg s ≡ done (e, s')
      → (e.msg ≡ msg) × (s'.kernel ≡ s.kernel)
  unfolding new_entry
  new_entry_done msg s e s' h = ground arith

  pub enqueue_done :
      (r sender : ℕ) (msg : MsgPacket) (s s' : System Q)
      → enqueue q fuel r sender msg s ≡ done s'
      → (e : MsgPacketQueue) × (sender_of e ≡ sender)
        × (s'.kernel ≡ update_proc r (on_queue (insert_tail e)) s.kernel)
  unfolding enqueue
  enqueue_done r sender msg s s' h =
      let (a, _, h₁) = >>=-eq-done (vm_get_phys_mapping msg.send_buf s.vm) _ h in
      let (b, _, h₂) = >>=-eq-done (vm_get_phys_mapping msg.recv_buf s.vm) _ h₁ in
      let ((e, t), made, h₃) =
        >>=-eq-done
          (new_entry q fuel (record msg { sender = sender; phys_send_buf = a; phys_recv_buf = b })
            s)
          _ h₂ in
      let (same_msg, same_kernel) = new_entry_done _ s e t made in
      (
        e,
        ap (λ (m : MsgPacket). m.sender) same_msg,
        sym (ap (λ (u : System Q). u.kernel) (done-inj h₃))
            ∙ ap (update_proc r (on_queue (insert_tail e))) same_kernel,
      )

  pub hand_over_done :
      (c sender r : ℕ) (receiver : Proc Q) (msg : MsgPacket) (s s' : System Q)
      → hand_over q fuel c sender r receiver msg s ≡ done s'
      → (waiting : MsgPacketQueue) × (answered : MsgPacket) × (first receiver.recv_queue
          ≡ some waiting)
        × (answered.sender ≡ sender)
        × (s'.kernel
            ≡ update_proc r
                (λ p.
                  set_state ready (on_queue (update_first (λ e. record e { msg = answered })) p))
                (update_proc c (set_state send_blocked) s.kernel))
  unfolding hand_over hand_over_entry
  hand_over_done c sender r receiver msg s s' h =
      let (waiting, there, h₀) = Option-eq-done (first receiver.recv_queue) _ h in
      let (a, _, h₁) = >>=-eq-done (vm_get_phys_mapping msg.send_buf s.vm) _ h₀ in
      let (m, _, h₂) = >>=-eq-done (deliver waiting.msg msg sender s.vm) _ h₁ in
      let (b, _, h₃) = >>=-eq-done (vm_get_phys_mapping msg.recv_buf m) _ h₂ in
      (waiting, _, there, refl, sym (ap (λ (u : System Q). u.kernel) (done-inj h₃)))
