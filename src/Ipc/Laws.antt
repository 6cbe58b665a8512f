-- ===== src/Ipc/Laws.antt =====
-- kernel/syscall.c: what every system call makes of the mailboxes, and a message for a ready
-- receiver.
use leoman.Base.{ℕ, ◌≡◌, ◌∙◌, Bool, true, some, done, get_elem?, modify}
use leoman.Heap.{Heap, kalloc}
use leoman.Vm.{vm_get_phys_mapping}
use leoman.Proc.{
  Proc, ready, reply_blocked, proc_find_by_pid, update_proc, proc_disable_scheduling,
  proc_enable_scheduling,
}
use leoman.Stailq.{Stailq}
use leoman.System.{System}
use leoman.Ipc.{current, on_kernel, on_queue, set_state, send_msg, recv_msg, rply_msg}
use leoman.Message.{MsgPacket, MsgPacketQueue, sizeof_msg_packet_queue, load_packet}
use leoman.Ipc.Mailboxes.{Exchange, IsWaiting, IsRunning, Exchange-IsWaiting}
use leoman.Ipc.Views.{mailboxes}
use leoman.Ipc.Refinement.{send_msg-mailboxes, recv_msg-mailboxes, rply_msg-mailboxes}
use leoman.Ipc.Sending.{send_msg_packet, enqueue_lem, send_to_slot_ready, send_packet_known}

module _ {Q : Type 0} (q : Stailq MsgPacketQueue Q) (fuel : ℕ) where
  -- A system call of the running process, up to its call of the scheduler or its return before.
  pub data Call (s s' : System Q) : Type 0 where
    send : (eax : ℕ) (known : Bool) → send_msg q fuel eax s ≡ done (known, s') → Call s s'
    recv : (eax : ℕ) → recv_msg q fuel eax s ≡ done s' → Call s s'
    rply : (eax : ℕ) → rply_msg q fuel eax s ≡ done s' → Call s s'

  -- Up to its call of the scheduler, every system call of the current process for a message that
  -- gets there or returns before, for any implementation of the queues, changes the processes'
  -- mailboxes by one exchange: it leaves them unchanged; or it makes a waiting receiver ready
  -- with the sender's pid first in its mailbox and send-blocks the sender; or it adds the
  -- sender's pid at the end of a receiver's mailbox, and reply-blocks the sender exactly when the
  -- receiver is ready; or it blocks the caller, whose mailbox is empty, with an entry in it; or
  -- it removes the caller's first entry and makes a process with the pid that the entry names
  -- ready.
  pub Call-Exchange :
      (c : ℕ) (s s' : System Q)
      → s.kernel.current_proc ≡ some c
      → Call s s'
      → Exchange c (mailboxes q s) (mailboxes q s')
  Call-Exchange c s s' runs (send eax known h) = send_msg-mailboxes q fuel eax c s known s' runs h
  Call-Exchange c s s' runs (recv eax h) = recv_msg-mailboxes q fuel eax c s s' runs h
  Call-Exchange c s s' runs (rply eax h) = rply_msg-mailboxes q fuel eax c s s' runs h

  -- If every process that is blocked in receiving has an entry in its queue, and the current
  -- process is not one of them, then every such process has an entry where the system call calls
  -- the scheduler or returns before.
  pub Call-IsWaiting :
      (c : ℕ) (s s' : System Q)
      → s.kernel.current_proc ≡ some c
      → IsRunning c (mailboxes q s)
      → IsWaiting (mailboxes q s)
      → Call s s'
      → IsWaiting (mailboxes q s')
  Call-IsWaiting c s s' current runs holds call =
      Exchange-IsWaiting c (mailboxes q s) (mailboxes q s') runs holds
        (Call-Exchange c s s' current call)

  -- A message for a ready receiver, whose buffers have a physical address and for which the heap
  -- has a block, puts an entry with the sender's pid and these addresses at the end of the
  -- receiver's queue and reply-blocks the sender; scheduling is on, and nothing else changes but
  -- the heap.
  pub send_queued :
      (eax c r : ℕ) (me other : Proc Q) (msg : MsgPacket) (s : System Q) (a b block : ℕ)
      (heap : Heap)
      → load_packet eax s.vm ≡ done msg
      → proc_find_by_pid msg.receiver (proc_disable_scheduling s.kernel) ≡ some r
      → s.kernel.current_proc ≡ some c
      → get_elem? s.kernel.procs c ≡ some me
      → get_elem? s.kernel.procs r ≡ some other
      → other.state ≡ ready
      → vm_get_phys_mapping msg.send_buf s.vm ≡ done a
      → vm_get_phys_mapping msg.recv_buf s.vm ≡ done b
      → kalloc fuel sizeof_msg_packet_queue s.heap ≡ some (some block, heap)
      → let entry : MsgPacketQueue = record {
        address = block;
        msg = record msg { sender = me.pid; phys_send_buf = a; phys_recv_buf = b };
      } in
        send_msg q fuel eax s
        ≡ done (
          true,
          record s {
            heap = heap;
            kernel = record s.kernel {
              scheduling_enabled = true;
              procs =
                  modify
                    (modify s.kernel.procs r (on_queue (q.insert_tail entry)))
                    c
                    (set_state reply_blocked);
            };
          },
        )
  unfolding proc_disable_scheduling proc_enable_scheduling update_proc
  send_queued eax c r me other msg s a b block heap packet found runs at at' state send_buf recv_buf
        room =
      let off = on_kernel proc_disable_scheduling s in
      send_msg_packet q fuel eax msg s packet
      ∙ send_packet_known q fuel r msg off _ found (
          send_to_slot_ready q fuel c r me other msg off _ runs at at' state
            (enqueue_lem q fuel r me.pid msg off a b block heap send_buf recv_buf room))
