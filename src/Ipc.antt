-- ===== src/Ipc.antt =====
-- kernel/syscall.c and include/ipc.h: sending, receiving and replying to messages.
-- `first_waiting` and the like are entries of a process's receive queue; an entry is the address of
-- its `struct msg_packet_queue` on the heap, and the packet in it.
pub mod Mailboxes
pub mod Views
pub mod Turns
pub mod Inversion
pub mod Refinement
pub mod Sending
pub mod Laws
pub mod Running
pub mod Client
use leoman.Base.{
  ℕ, zero, suc, ◌+◌, ◌-◌, ◌*◌, Bool, true, false, Option, none, some, Run, done, fault, ◌>>=◌,
}
use leoman.Base.{u32, bit_and, get_elem?, if◌then◌else◌}
use leoman.Heap.{Heap, kalloc, kfree}
use leoman.Vm.Mmu.{Vm, vload}
use leoman.Vm.{map_pages, unmap_pages, vm_get_phys_mapping}
use leoman.Proc.{
  Proc, ProcState, unused, running, ready, send_blocked, recv_blocked, reply_blocked, Kernel,
  proc_find_by_pid, update_proc, proc_disable_scheduling, proc_enable_scheduling,
}
use leoman.Stailq.{Stailq}
use leoman.System.{System, store_word, memcpy, proc_schedule_without_irq}
use leoman.Message.{
  MsgPacket, MsgPacketQueue, sizeof_msg_packet, sizeof_msg_packet_queue, load_packet, window_at,
  copy_to_phys, deliver,
}

module _ {Q : Type 0} where
  abbrev pub set_state : ProcState → Proc Q → Proc Q
  set_state state p = record p { state = state }

  abbrev pub on_queue : (Q → Q) → Proc Q → Proc Q
  on_queue f p = record p { recv_queue = f p.recv_queue }

  abbrev pub on_kernel : (Kernel Q → Kernel Q) → System Q → System Q
  on_kernel f s = record s { kernel = f s.kernel }

  -- The process in a slot, and the current one with its slot; NULL is followed.
  unfoldable pub proc_at : ℕ → System Q → Run (Proc Q)
  proc_at i s = elim (get_elem? s.kernel.procs i) [ none ↦ fault | some p ↦ done p ]

  unfoldable pub current : System Q → Run (ℕ × Proc Q)
  unfolding proc_at
  current s = elim s.kernel.current_proc [ none ↦ fault | some c ↦ do p ← proc_at c s; done (c, p) ]

-- `q` are the operations of <queue.h>, and `fuel` bounds the walk of `kalloc`.
module _ {Q : Type 0} (q : Stailq MsgPacketQueue Q) (fuel : ℕ) where
  open q use {is_empty, first, insert_tail, remove_head, update_first}

  -- A new entry with a packet in it; the write to the packet of a NULL entry faults, and so does a
  -- walk over the heap that does not end.
  unfoldable pub new_entry : MsgPacket → System Q → Run (MsgPacketQueue × System Q)
  new_entry msg s = elim (kalloc fuel sizeof_msg_packet_queue s.heap) [
    | none ↦ fault
    | some (block, heap) ↦ elim block [
      | none ↦ fault
      | some address ↦ done (record { address = address; msg = msg }, record s { heap = heap })
    ]
  ]

  -- The receiver in slot `r` is not waiting: the packet is put into its queue.
  unfoldable pub enqueue : ℕ → ℕ → MsgPacket → System Q → Run (System Q)
  unfolding new_entry update_proc
  enqueue r sender msg s = do
    phys_send ← vm_get_phys_mapping msg.send_buf s.vm
    phys_recv ← vm_get_phys_mapping msg.recv_buf s.vm
    (entry, s') ←
        new_entry
          (record msg { sender = sender; phys_send_buf = phys_send; phys_recv_buf = phys_recv }) s
    done (on_kernel (update_proc r (on_queue (insert_tail entry))) s')

  -- The message for a waiting receiver in slot `r`, whose entry becomes the sender's.
  unfoldable pub hand_over_entry : ℕ → ℕ → ℕ → MsgPacket → MsgPacket → System Q → Run (System Q)
  unfolding deliver update_proc
  hand_over_entry c sender r waiting msg s = do
    phys_send ← vm_get_phys_mapping msg.send_buf s.vm
    m ← deliver waiting msg sender s.vm
    phys_recv ← vm_get_phys_mapping msg.recv_buf m
    let answered = record waiting {
      sender = sender;
      send_buf = msg.send_buf;
      send_len = msg.send_len;
      phys_send_buf = phys_send;
      recv_buf = msg.recv_buf;
      recv_len = msg.recv_len;
      phys_recv_buf = phys_recv;
    }
    let blocked = on_kernel (update_proc c (set_state send_blocked)) (record s { vm = m })
    done (
        on_kernel
          (update_proc r
            (λ p. set_state ready (on_queue (update_first (λ e. record e { msg = answered })) p)))
          blocked)

  -- The receiver in slot `r` is waiting: the first entry of its queue is its own.
  unfoldable pub hand_over : ℕ → ℕ → ℕ → Proc Q → MsgPacket → System Q → Run (System Q)
  unfolding hand_over_entry
  hand_over c sender r receiver msg s = elim (first receiver.recv_queue) [
    | none ↦ fault
    | some waiting ↦ hand_over_entry c sender r waiting.msg msg s
  ]

  -- The switch over the receiver's state; in any state but these two the sender goes on.
  unfoldable pub send_to : ℕ → ℕ → ℕ → Proc Q → MsgPacket → System Q → Run (System Q)
  unfolding enqueue hand_over update_proc
  send_to c sender r receiver msg s = elim receiver.state [
    | recv_blocked ↦ hand_over c sender r receiver msg s
    | ready ↦ do
      s' ← enqueue r sender msg s
      done (on_kernel (update_proc c (set_state reply_blocked)) s')
    | _ ↦ enqueue r sender msg s
  ]

  -- The receiver is in slot `r`.
  unfoldable pub send_to_slot : ℕ → MsgPacket → System Q → Run (System Q)
  unfolding send_to current proc_at
  send_to_slot r msg s = do
    receiver ← proc_at r s
    (c, sender) ← current s
    s' ← send_to c sender.pid r receiver msg s
    done (on_kernel proc_enable_scheduling s')

  -- The packet is read; `false` is the return before the call of the scheduler, to which a message
  -- for an unknown receiver does not get.
  unfoldable pub send_packet : MsgPacket → System Q → Run (Bool × System Q)
  unfolding send_to_slot
  send_packet msg s = elim (proc_find_by_pid msg.receiver s.kernel) [
    | none ↦ done (false, s)
    | some r ↦ send_to_slot r msg s >>= λ s'. done (true, s')
  ]

  -- The system call up to the call of the scheduler.
  unfoldable pub send_msg : ℕ → System Q → Run (Bool × System Q)
  unfolding send_packet
  send_msg eax s₀ = do
    let s = on_kernel proc_disable_scheduling s₀
    msg ← load_packet eax s.vm
    send_packet msg s

  -- `regs` is the frame of the system call, and `trap` that of the scheduler's interrupt.
  unfoldable pub syscall_send_msg : ℕ → ℕ → ℕ → System Q → Run (ℕ × System Q)
  unfolding send_msg
  syscall_send_msg regs trap eax s = do
    (known, s') ← send_msg eax s
    if known then proc_schedule_without_irq trap s' else done (regs, s')

  -- The message of the first entry is copied from the sender's memory.
  unfoldable pub receive_first : ℕ → MsgPacket → MsgPacket → System Q → Run (System Q)
  unfolding window_at
  receive_first eax waiting msg s = do
    let base : ℕ = 0xbabe0000
    m₁ ← map_pages waiting.phys_send_buf base 0 waiting.send_len s.vm
    m₂ ← memcpy msg.recv_buf (window_at base waiting.send_buf) msg.recv_len m₁
    m₃ ← unmap_pages (window_at base waiting.send_buf) waiting.send_len m₂
    m₄ ← store_word eax waiting.sender m₃
    done (record s { vm = m₄ })

  -- The current process waits, with an entry of its own in its queue.
  unfoldable pub wait_for_message : ℕ → ℕ → MsgPacket → System Q → Run (System Q)
  unfolding new_entry update_proc
  wait_for_message c eax msg s = do
    phys_recv ← vm_get_phys_mapping msg.recv_buf s.vm
    phys_packet ← vm_get_phys_mapping eax s.vm
    (entry, s') ←
        new_entry (record msg { phys_recv_buf = phys_recv; phys_msg_packet = phys_packet })
          (on_kernel (update_proc c (set_state recv_blocked)) s)
    done (on_kernel (update_proc c (on_queue (insert_tail entry))) s')

  unfoldable pub take_or_wait : ℕ → ℕ → Proc Q → MsgPacket → System Q → Run (System Q)
  unfolding receive_first wait_for_message
  take_or_wait eax c p msg s = elim (first p.recv_queue) [
    | none ↦ wait_for_message c eax msg s
    | some waiting ↦ receive_first eax waiting.msg msg s
  ]

  unfoldable pub recv_msg : ℕ → System Q → Run (System Q)
  unfolding take_or_wait current
  recv_msg eax s₀ = do
    let s = on_kernel proc_disable_scheduling s₀
    msg ← load_packet eax s.vm
    (c, p) ← current s
    s' ← take_or_wait eax c p msg s
    done (on_kernel proc_enable_scheduling s')

  unfoldable pub syscall_recv_msg : ℕ → ℕ → System Q → Run (ℕ × System Q)
  unfolding recv_msg
  syscall_recv_msg trap eax s = recv_msg eax s >>= λ s'. proc_schedule_without_irq trap s'

  -- The answer to the first entry, whose sender goes on.
  unfoldable pub answer : ℕ → MsgPacketQueue → MsgPacket → System Q → Run (System Q)
  unfolding copy_to_phys update_proc
  answer c waiting msg s = do
    let w = waiting.msg
    m ← copy_to_phys 0xcafe0000 w.phys_recv_buf w.recv_buf msg.send_buf w.recv_len s.vm
    let s' =
        on_kernel (update_proc c (on_queue remove_head))
          (record s { vm = m; heap = kfree waiting.address s.heap })
    elim (proc_find_by_pid w.sender s.kernel) [
      | none ↦ fault
      | some r ↦ done (on_kernel (update_proc r (set_state ready)) s')
    ]

  unfoldable pub answer_first : ℕ → Proc Q → MsgPacket → System Q → Run (System Q)
  unfolding answer
  answer_first c p msg s = elim (first p.recv_queue) [
    | none ↦ done s
    | some waiting ↦ answer c waiting msg s
  ]

  unfoldable pub rply_msg : ℕ → System Q → Run (System Q)
  unfolding answer_first current
  rply_msg eax s₀ = do
    let s = on_kernel proc_disable_scheduling s₀
    msg ← load_packet eax s.vm
    (c, p) ← current s
    s' ← answer_first c p msg s
    done (on_kernel proc_enable_scheduling s')

  unfoldable pub syscall_rply_msg : ℕ → ℕ → System Q → Run (ℕ × System Q)
  unfolding rply_msg
  syscall_rply_msg trap eax s = rply_msg eax s >>= λ s'. proc_schedule_without_irq trap s'
