-- ===== src/Ipc/Sending.antt =====
-- kernel/syscall.c: the steps of sending a message to a process that is not waiting.
use leoman.Base.{ℕ, ◌≡◌, refl, ap, ◌∙◌, true, some, done, ◌>>=◌, get_elem?}
use leoman.Heap.{Heap, kalloc}
use leoman.Vm.{vm_get_phys_mapping}
use leoman.Proc.{
  Proc, ProcState, ready, recv_blocked, reply_blocked, proc_find_by_pid, update_proc,
  proc_disable_scheduling, proc_enable_scheduling,
}
use leoman.Stailq.{Stailq}
use leoman.System.{System}
use leoman.Base.{Option-at_some, >>=-at_done}
use leoman.Ipc.{
  enqueue, hand_over, new_entry, send_to, send_to_slot, current, proc_at, on_kernel, on_queue,
  set_state, send_packet, send_msg,
}
use leoman.Message.{MsgPacket, MsgPacketQueue, sizeof_msg_packet_queue, load_packet}

module _ {Q : Type 0} where
  pub proc_at_lem :
      (i : ℕ) (s : System Q) (p : Proc Q)
      → get_elem? s.kernel.procs i ≡ some p
      → proc_at i s ≡ done p
  unfolding proc_at
  proc_at_lem i s p at = Option-at_some (get_elem? s.kernel.procs i) _ _ p at

  pub current_lem :
      (s : System Q) (c : ℕ) (p : Proc Q)
      → s.kernel.current_proc ≡ some c
      → get_elem? s.kernel.procs c ≡ some p
      → current s ≡ done (c, p)
  unfolding current
  current_lem s c p runs at =
      Option-at_some s.kernel.current_proc _ _ c runs
      ∙ >>=-at_done (proc_at c s) _ (proc_at_lem c s p at)

module _ {Q : Type 0} (q : Stailq MsgPacketQueue Q) (fuel : ℕ) where
  pub send_msg_packet :
      (eax : ℕ) (msg : MsgPacket) (s : System Q)
      → load_packet eax s.vm ≡ done msg
      → send_msg q fuel eax s ≡ send_packet q fuel msg (on_kernel proc_disable_scheduling s)
  unfolding send_msg
  send_msg_packet eax msg s packet =
      ap (λ r. r >>= λ m. send_packet q fuel m (on_kernel proc_disable_scheduling s)) packet

  pub new_entry_lem :
      (msg : MsgPacket) (s : System Q) (block : ℕ) (heap : Heap)
      → kalloc fuel sizeof_msg_packet_queue s.heap ≡ some (some block, heap)
      → new_entry q fuel msg s
        ≡ done (record { address = block; msg = msg }, record s { heap = heap })
  unfolding new_entry
  new_entry_lem msg s block heap room =
      Option-at_some (kalloc fuel sizeof_msg_packet_queue s.heap) _ _ _ room

  pub enqueue_lem :
      (r sender : ℕ) (msg : MsgPacket) (s : System Q) (a b block : ℕ) (heap : Heap)
      → vm_get_phys_mapping msg.send_buf s.vm ≡ done a
      → vm_get_phys_mapping msg.recv_buf s.vm ≡ done b
      → kalloc fuel sizeof_msg_packet_queue s.heap ≡ some (some block, heap)
      → let entry : MsgPacketQueue = record {
        address = block;
        msg = record msg { sender = sender; phys_send_buf = a; phys_recv_buf = b };
      } in
        enqueue q fuel r sender msg s
        ≡ done (record s {
          heap = heap;
          kernel = update_proc r (on_queue (q.insert_tail entry)) s.kernel;
        })
  unfolding enqueue
  enqueue_lem r sender msg s a b block heap send_buf recv_buf room =
      let packet : MsgPacket = record msg {
        sender = sender;
        phys_send_buf = a;
        phys_recv_buf = b;
      } in
      >>=-at_done (vm_get_phys_mapping msg.send_buf s.vm) _ send_buf
      ∙ (>>=-at_done (vm_get_phys_mapping msg.recv_buf s.vm) _ recv_buf
          ∙ >>=-at_done (new_entry q fuel packet s) _ (new_entry_lem packet s block heap room))

  pub send_to_ready :
      (c sender r : ℕ) (other : Proc Q) (msg : MsgPacket) (s s' : System Q)
      → other.state ≡ ready
      → enqueue q fuel r sender msg s ≡ done s'
      → send_to q fuel c sender r other msg s
        ≡ done (on_kernel (update_proc c (set_state reply_blocked)) s')
  unfolding send_to
  send_to_ready c sender r other msg s s' state put_there =
      by_state state ∙ >>=-at_done (enqueue q fuel r sender msg s) _ put_there
    where
      by_state :
          {state : ProcState}
          → state ≡ ready
          → elim state [
            | recv_blocked ↦ hand_over q fuel c sender r other msg s
            | ready ↦ do
              s₁ ← enqueue q fuel r sender msg s
              done (on_kernel (update_proc c (set_state reply_blocked)) s₁)
            | _ ↦ enqueue q fuel r sender msg s
          ]
            ≡ (enqueue q fuel r sender msg s >>= λ s₁.
                done (on_kernel (update_proc c (set_state reply_blocked)) s₁))
      by_state e = rw e refl

  pub send_to_slot_ready :
      (c r : ℕ) (me other : Proc Q) (msg : MsgPacket) (s s' : System Q)
      → s.kernel.current_proc ≡ some c
      → get_elem? s.kernel.procs c ≡ some me
      → get_elem? s.kernel.procs r ≡ some other
      → other.state ≡ ready
      → enqueue q fuel r me.pid msg s ≡ done s'
      → send_to_slot q fuel r msg s
        ≡ done (
            on_kernel proc_enable_scheduling
              (on_kernel (update_proc c (set_state reply_blocked)) s'))
  unfolding send_to_slot
  send_to_slot_ready c r me other msg s s' runs at at' state put_there =
      >>=-at_done (proc_at r s) _ (proc_at_lem r s other at')
      ∙ (>>=-at_done (current s) _ (current_lem s c me runs at)
          ∙ >>=-at_done (send_to q fuel c me.pid r other msg s) _
              (send_to_ready c me.pid r other msg s s' state put_there))

  pub send_packet_known :
      (r : ℕ) (msg : MsgPacket) (s s' : System Q)
      → proc_find_by_pid msg.receiver s.kernel ≡ some r
      → send_to_slot q fuel r msg s ≡ done s'
      → send_packet q fuel msg s ≡ done (true, s')
  unfolding send_packet
  send_packet_known r msg s s' found sent =
      Option-at_some (proc_find_by_pid msg.receiver s.kernel) _ _ r found
      ∙ ap (λ x. x >>= λ t. done (true, t)) sent
  -- A message for a ready receiver, whose buffers have a physical address and for which the heap
  -- has a block, puts an entry with the sender's pid and these addresses at the end of the
  -- receiver's queue and reply-blocks the sender; scheduling is on, and nothing else changes but
