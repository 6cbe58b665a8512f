-- ===== src/Ipc/Refinement.antt =====
-- kernel/syscall.c: the system calls implement the exchanges between mailboxes.
use leoman.Base.{u32, inl, inr}
use leoman.Proc.Search.{proc_find_by_pid_lem}
use leoman.Base.{
  ℕ, ◌≡◌, ◌≢◌, refl, sym, ap, ◌∙◌, Bool, none, some, map, done, ◌>>=◌, >>=-eq-done, Option-eq-done,
  done-inj, get_elem?, modify,
}
use leoman.Vm.{vm_get_phys_mapping}
use leoman.Proc.{
  Proc, Kernel, ProcState, unused, running, ready, recv_blocked, send_blocked, reply_blocked,
  proc_disable_scheduling, proc_enable_scheduling, update_proc, proc_find_by_pid,
}
use leoman.Stailq.{Stailq, tail}
use leoman.System.{System}
use leoman.Ipc.{
  set_state, on_queue, on_kernel, proc_at, current, new_entry, enqueue, hand_over, send_to,
  send_to_slot, send_packet, send_msg, take_or_wait, wait_for_message, receive_first, recv_msg,
  answer, answer_first, rply_msg,
}
use leoman.Message.{MsgPacket, MsgPacketQueue, load_packet, copy_to_phys}
use leoman.Ipc.Mailboxes.{
  with_state, on_waiting, put, answerable, Exchange, unchanged, handed, queued, left_there, waits,
  replied,
}
use leoman.Ipc.Views.{
  map-modify, modify-modify, get_elem?-map, sender_of, mailbox, mailboxes, mailbox-put,
  mailbox-remove_head, mailbox-update_first, senders-first, senders-none,
}
use mathlib.Core.Path.{subst}
use leoman.Base.{Option-split, Sum-elim}
use leoman.System.{memcpy}
use leoman.Vm.{map_pages, unmap_pages}
use leoman.System.{store_word}
use leoman.Message.{window_at}
use leoman.Ipc.Inversion.{proc_at_done, current_done, new_entry_done, enqueue_done, hand_over_done}

module _ {Q : Type 0} (q : Stailq MsgPacketQueue Q) (fuel : ℕ) where
  open q use {first, insert_tail, remove_head, update_first, elements}

  -- The effect of an enqueued message on the mailboxes.
  enqueue-put :
      (r sender : ℕ) (msg : MsgPacket) (s s' : System Q)
      → enqueue q fuel r sender msg s ≡ done s'
      → mailboxes q s' ≡ modify (mailboxes q s) r (put sender)
  unfolding update_proc
  enqueue-put r sender msg s s' h =
      let (e, from, kernel) = enqueue_done q fuel r sender msg s s' h in
      ap (λ (k : Kernel Q). map (mailbox q) k.procs) kernel
      ∙ map-modify (mailbox q) _ (put sender) s.kernel.procs r
          (λ p. mailbox-put q e p ∙ ap (λ x. put x (mailbox q p)) from)

  hand_over-mailboxes :
      (c r : ℕ) (me other : Proc Q) (msg : MsgPacket) (s s' : System Q)
      → get_elem? s.kernel.procs c ≡ some me
      → get_elem? s.kernel.procs r ≡ some other
      → other.state ≡ recv_blocked
      → hand_over q fuel c me.pid r other msg s ≡ done s'
      → Exchange c (mailboxes q s) (mailboxes q s')
  unfolding update_proc
  hand_over-mailboxes c r me other msg s s' at at' blocked h =
      let (waiting, answered, there, from, kernel) =
        hand_over_done q fuel c me.pid r other msg s s' h in
      let (ws, front) = senders-first q other.recv_queue waiting there in
      handed r (sender_of waiting) ws (mailbox q me) (mailbox q other)
        (get_elem?-map (mailbox q) s.kernel.procs c me at)
        (get_elem?-map (mailbox q) s.kernel.procs r other at') blocked front
        (ap (λ (k : Kernel Q). map (mailbox q) k.procs) kernel
          ∙ (map-modify (mailbox q) _ (answerable me.pid)
                (modify s.kernel.procs c (set_state send_blocked)) r
                (λ p. mailbox-update_first q _ me.pid p (λ e. from))
              ∙ ap (λ bs. modify bs r (answerable me.pid))
                  (map-modify (mailbox q) _ (with_state send_blocked) s.kernel.procs c
                    (λ p. refl))))

  left_mailboxes :
      (c r : ℕ) (me other : Proc Q) (msg : MsgPacket) (s s' : System Q)
      → get_elem? s.kernel.procs c ≡ some me
      → get_elem? s.kernel.procs r ≡ some other
      → other.state ≢ recv_blocked
      → other.state ≢ ready
      → enqueue q fuel r me.pid msg s ≡ done s'
      → Exchange c (mailboxes q s) (mailboxes q s')
  left_mailboxes c r me other msg s s' at at' not_recv not_ready h =
      left_there r (mailbox q me) (mailbox q other)
        (get_elem?-map (mailbox q) s.kernel.procs c me at)
        (get_elem?-map (mailbox q) s.kernel.procs r other at') not_recv not_ready
        (enqueue-put r me.pid msg s s' h)

  queued_mailboxes :
      (c r : ℕ) (me other : Proc Q) (msg : MsgPacket) (s s' : System Q)
      → get_elem? s.kernel.procs c ≡ some me
      → get_elem? s.kernel.procs r ≡ some other
      → other.state ≡ ready
      → enqueue q fuel r me.pid msg s ≡ done s'
      → Exchange c
          (mailboxes q s)
          (mailboxes q (on_kernel (update_proc c (set_state reply_blocked)) s'))
  unfolding update_proc
  queued_mailboxes c r me other msg s s' at at' state h =
      queued r (mailbox q me) (mailbox q other) (get_elem?-map (mailbox q) s.kernel.procs c me at)
        (get_elem?-map (mailbox q) s.kernel.procs r other at') state
        (map-modify (mailbox q) _ (with_state reply_blocked) s'.kernel.procs c (λ p. refl)
          ∙ ap (λ bs. modify bs c (with_state reply_blocked)) (enqueue-put r me.pid msg s s' h))

  -- The two branches that the source's switch names, and the others.
  send_to-mailboxes :
      (c r : ℕ) (me other : Proc Q) (msg : MsgPacket) (s s' : System Q)
      → get_elem? s.kernel.procs c ≡ some me
      → get_elem? s.kernel.procs r ≡ some other
      → send_to q fuel c me.pid r other msg s ≡ done s'
      → Exchange c (mailboxes q s) (mailboxes q s')
  unfolding send_to
  send_to-mailboxes c r me other msg s s' at at' h = by_state other.state refl h
    where
      by_state :
          (state : ProcState)
          → other.state ≡ state
          → elim state [
            | recv_blocked ↦ hand_over q fuel c me.pid r other msg s
            | ready ↦ do
              s₁ ← enqueue q fuel r me.pid msg s
              done (on_kernel (update_proc c (set_state reply_blocked)) s₁)
            | _ ↦ enqueue q fuel r me.pid msg s
          ]
            ≡ done s'
          → Exchange c (mailboxes q s) (mailboxes q s')
      by_state recv_blocked e run = hand_over-mailboxes c r me other msg s s' at at' e run
      by_state ready e run =
          let (s₁, put_there, same) = >>=-eq-done (enqueue q fuel r me.pid msg s) _ run in
          rw (sym (done-inj same)) (queued_mailboxes c r me other msg s s₁ at at' e put_there)
      by_state unused e run = left_mailboxes c r me other msg s s' at at' (λ x. cc) (λ x. cc) run
      by_state running e run = left_mailboxes c r me other msg s s' at at' (λ x. cc) (λ x. cc) run
      by_state send_blocked e run =
          left_mailboxes c r me other msg s s' at at' (λ x. cc) (λ x. cc) run
      by_state reply_blocked e run =
          left_mailboxes c r me other msg s s' at at' (λ x. cc) (λ x. cc) run

  send_to_slot-mailboxes :
      (c r : ℕ) (msg : MsgPacket) (s s' : System Q)
      → s.kernel.current_proc ≡ some c
      → send_to_slot q fuel r msg s ≡ done s'
      → Exchange c (mailboxes q s) (mailboxes q s')
  unfolding send_to_slot proc_enable_scheduling
  send_to_slot-mailboxes c r msg s s' runs h =
      let (other, here, h₁) = >>=-eq-done (proc_at r s) _ h in
      let ((c', me), run, h₂) = >>=-eq-done (current s) _ h₁ in
      let (s₁, to, last) = >>=-eq-done (send_to q fuel c' me.pid r other msg s) _ h₂ in
      let (current', at) = current_done s c' me run in
      let same_c : c' ≡ c = cc in
      subst (λ (x : ℕ). Exchange x (mailboxes q s) (mailboxes q s')) same_c
        (subst (λ (x : System Q). Exchange c' (mailboxes q s) (mailboxes q x)) (done-inj last)
          (send_to-mailboxes c' r me other msg s s₁ at (proc_at_done r s other here) to))

  pub send_msg-mailboxes :
      (eax c : ℕ) (s : System Q) (known : Bool) (s' : System Q)
      → s.kernel.current_proc ≡ some c
      → send_msg q fuel eax s ≡ done (known, s')
      → Exchange c (mailboxes q s) (mailboxes q s')
  unfolding send_msg send_packet proc_disable_scheduling
  send_msg-mailboxes eax c s known s' runs h =
      let off = on_kernel proc_disable_scheduling s in
      let (msg, _, h₁) = >>=-eq-done (load_packet eax s.vm) _ h in
      Sum-elim (Option-split (proc_find_by_pid msg.receiver off.kernel) _ _ h₁)
        (λ unknown.
          unchanged (ap (λ (x : Bool × System Q). mailboxes q x.1) (sym (done-inj unknown.1))))
        (λ found.
          let (s₁, sent, same) = >>=-eq-done (send_to_slot q fuel found.0 msg off) _ found.2 in
          subst (λ (x : System Q). Exchange c (mailboxes q s) (mailboxes q x))
            (ap (λ (x : Bool × System Q). x.1) (done-inj same))
            (send_to_slot-mailboxes c found.0 msg off s₁ runs sent))

  wait_mailboxes :
      (c eax : ℕ) (p : Proc Q) (msg : MsgPacket) (s s' : System Q)
      → get_elem? s.kernel.procs c ≡ some p
      → first p.recv_queue ≡ none
      → wait_for_message q fuel c eax msg s ≡ done s'
      → Exchange c (mailboxes q s) (mailboxes q s')
  unfolding wait_for_message update_proc
  wait_mailboxes c eax p msg s s' at nothing h =
      let (a, _, h₁) = >>=-eq-done (vm_get_phys_mapping msg.recv_buf s.vm) _ h in
      let (b, _, h₂) = >>=-eq-done (vm_get_phys_mapping eax s.vm) _ h₁ in
      let ((e, t), made, h₃) =
        >>=-eq-done
          (new_entry q fuel (record msg { phys_recv_buf = a; phys_msg_packet = b })
            (on_kernel (update_proc c (set_state recv_blocked)) s))
          _ h₂ in
      let (_, kernel) = new_entry_done q fuel _ _ e t made in
      waits (sender_of e) (mailbox q p) (get_elem?-map (mailbox q) s.kernel.procs c p at)
        (senders-none q p.recv_queue nothing)
        (ap (mailboxes q) (sym (done-inj h₃))
          ∙ (ap (λ (k : Kernel Q). map (mailbox q) (modify k.procs c (on_queue (insert_tail e))))
                kernel
              ∙ (ap (map (mailbox q)) (
                    modify-modify (set_state recv_blocked) (on_queue (insert_tail e)) s.kernel.procs
                      c)
                  ∙ map-modify (mailbox q) _ (λ b. put (sender_of e) (with_state recv_blocked b))
                      s.kernel.procs c (λ x. mailbox-put q e (set_state recv_blocked x)))))

  receive_mailboxes :
      (eax : ℕ) (waiting msg : MsgPacket) (s s' : System Q)
      → receive_first q fuel eax waiting msg s ≡ done s'
      → s'.kernel ≡ s.kernel
  unfolding receive_first
  receive_mailboxes eax waiting msg s s' h =
      let (m₁, _, h₁) =
        >>=-eq-done (map_pages waiting.phys_send_buf 0xbabe0000 0 waiting.send_len s.vm) _ h in
      let (m₂, _, h₂) =
        >>=-eq-done (memcpy msg.recv_buf (window_at 0xbabe0000 waiting.send_buf) msg.recv_len m₁) _
          h₁ in
      let (m₃, _, h₃) =
        >>=-eq-done (unmap_pages (window_at 0xbabe0000 waiting.send_buf) waiting.send_len m₂) _
          h₂ in
      let (m₄, _, h₄) = >>=-eq-done (store_word eax waiting.sender m₃) _ h₃ in
      ap (λ (u : System Q). u.kernel) (sym (done-inj h₄))

  pub recv_msg-mailboxes :
      (eax c : ℕ) (s s' : System Q)
      → s.kernel.current_proc ≡ some c
      → recv_msg q fuel eax s ≡ done s'
      → Exchange c (mailboxes q s) (mailboxes q s')
  unfolding recv_msg take_or_wait proc_disable_scheduling proc_enable_scheduling
  recv_msg-mailboxes eax c s s' runs h =
      let off = on_kernel proc_disable_scheduling s in
      let (msg, _, h₁) = >>=-eq-done (load_packet eax s.vm) _ h in
      let ((c', p), run, h₂) = >>=-eq-done (current off) _ h₁ in
      let (s₁, took, last) = >>=-eq-done (take_or_wait q fuel eax c' p msg off) _ h₂ in
      let (current', at) = current_done off c' p run in
      let same_c : c' ≡ c = cc in
      subst (λ (x : ℕ). Exchange x (mailboxes q s) (mailboxes q s')) same_c
        (subst (λ (x : System Q). Exchange c' (mailboxes q s) (mailboxes q x)) (done-inj last)
          (Sum-elim (Option-split (first p.recv_queue) _ _ took)
            (λ nothing. wait_mailboxes c' eax p msg off s₁ at nothing.0 nothing.1)
            (λ there. unchanged (
              ap (λ (k : Kernel Q). map (mailbox q) k.procs)
                (receive_mailboxes eax there.0.msg msg off s₁ there.2)))))

  -- A slot that is found by a pid holds a process with it.
  find_by_pid-at :
      (pid r : ℕ) (k : Kernel Q)
      → proc_find_by_pid pid k ≡ some r
      → (p : Proc Q) × (get_elem? k.procs r ≡ some p) × (p.pid ≡ u32 pid)
  find_by_pid-at pid r k found = elim (proc_find_by_pid_lem pid k) [
    | inl (missing, _) ↦ absurd (cc (missing, found))
    | inr (t, p, here, at, same, _) ↦
        let same_slot : t ≡ r = cc (here, found) in
        (p, subst (λ (x : ℕ). get_elem? k.procs x ≡ some p) same_slot at, same)
  ]

  answer-mailboxes :
      (c : ℕ) (p : Proc Q) (waiting : MsgPacketQueue) (msg : MsgPacket) (s s' : System Q)
      → get_elem? s.kernel.procs c ≡ some p
      → first p.recv_queue ≡ some waiting
      → answer q fuel c waiting msg s ≡ done s'
      → Exchange c (mailboxes q s) (mailboxes q s')
  unfolding answer update_proc
  answer-mailboxes c p waiting msg s s' at there h =
      let w = waiting.msg in
      let (m, _, h₁) =
        >>=-eq-done
          (copy_to_phys 0xcafe0000 w.phys_recv_buf w.recv_buf msg.send_buf w.recv_len s.vm) _ h in
      let (r, found, h₂) = Option-eq-done (proc_find_by_pid w.sender s.kernel) _ h₁ in
      let (ws, front) = senders-first q p.recv_queue waiting there in
      let (other, at', same) = find_by_pid-at w.sender r s.kernel found in
      replied r (sender_of waiting) ws (mailbox q p) (mailbox q other)
        (get_elem?-map (mailbox q) s.kernel.procs c p at) front
        (get_elem?-map (mailbox q) s.kernel.procs r other at') same
        (ap (mailboxes q) (sym (done-inj h₂))
          ∙ (map-modify (mailbox q) _ (with_state ready)
                (modify s.kernel.procs c (on_queue remove_head)) r (λ x. refl)
              ∙ ap (λ bs. modify bs r (with_state ready))
                  (map-modify (mailbox q) _ (on_waiting tail) s.kernel.procs c
                    (mailbox-remove_head q))))

  pub rply_msg-mailboxes :
      (eax c : ℕ) (s s' : System Q)
      → s.kernel.current_proc ≡ some c
      → rply_msg q fuel eax s ≡ done s'
      → Exchange c (mailboxes q s) (mailboxes q s')
  unfolding rply_msg answer_first proc_disable_scheduling proc_enable_scheduling
  rply_msg-mailboxes eax c s s' runs h =
      let off = on_kernel proc_disable_scheduling s in
      let (msg, _, h₁) = >>=-eq-done (load_packet eax s.vm) _ h in
      let ((c', p), run, h₂) = >>=-eq-done (current off) _ h₁ in
      let (s₁, answered, last) = >>=-eq-done (answer_first q fuel c' p msg off) _ h₂ in
      let (current', at) = current_done off c' p run in
      let same_c : c' ≡ c = cc in
      subst (λ (x : ℕ). Exchange x (mailboxes q s) (mailboxes q s')) same_c
        (subst (λ (x : System Q). Exchange c' (mailboxes q s) (mailboxes q x)) (done-inj last)
          (Sum-elim (Option-split (first p.recv_queue) _ _ answered)
            (λ nothing. unchanged (ap (mailboxes q) (sym (done-inj nothing.1))))
            (λ there. answer-mailboxes c' p _ msg off s₁ at there.1 there.2)))
