-- ===== src/Examples/Messages.antt =====
-- A process that sends a message to a ready one.
use leoman.Base.{
  get_elem?, >>=-at_done, ◌≢◌, ◌∙◌, ℕ, zero, suc, ◌≡◌, refl, arith, true, false, none, some, List,
  [], ◌∷◌, ◌==◌, if◌then◌else◌, done,
}
use leoman.Address.{paligndown, vm_pdir_idx, vm_ptab_idx}
use leoman.Heap.{Heap, heap_lay, kalloc, walk, is_fitting, take_block, initial_block, store}
use leoman.Vm.Mmu.{vload, translate, pde, pte}
use leoman.Vm.{vm_get_phys_mapping, pte_address}
use leoman.Proc.{
  Proc, ProcState, ready, reply_blocked, recv_blocked, proc_find_by_pid, find_pid,
  proc_disable_scheduling, update_proc, proc_is_blocked, is_blocked, state_value, find_next_proc,
  find_next_loop, is_at, has_state,
}
use leoman.Sched.{proc_schedule_after_irq, preempt, make_ready, dispatch, switch_to}
use leoman.Stailq.{list_stailq}
use leoman.System.{System, proc_schedule_without_irq, load_word, load_half, load_byte, byte_at}
use leoman.Ipc.{send_msg, syscall_send_msg}
use leoman.Message.{MsgPacket, MsgPacketQueue, load_packet}
use leoman.Ipc.Mailboxes.{Exchange, Mailbox}
use leoman.Ipc.Running.{IsSound, start, then_step, sends, Steps-IsSound}
use leoman.Ipc.Views.{mailboxes}
use leoman.Ipc.Laws.{send, Call-Exchange, send_queued}
use leoman.Examples.Paging.{words, space}

abbrev process : ℕ → ProcState → Proc (List MsgPacketQueue)
process pid state = record {
  pid = pid;
  state = state;
  name = [];
  privileged = false;
  superuser = false;
  trapframe = 0;
  kstack = 0;
  ustack = 0;
  pdir = 0x100000;
  memsz = 0;
  location_address = 0;
  location_size = 0;
  recv_queue = [];
}

-- A packet at 0x5100 for the process with pid `receiver`.
abbrev talking : ℕ → System (List MsgPacketQueue)
talking receiver = record {
  kernel = record {
    procs = process 1 ready ∷ process 2 ready ∷ [];
    next_pid = 3;
    idle = none;
    current_proc = some 0;
    scheduling_enabled = true;
    cursor = 0;
    ss0 = 0x10;
    esp0 = 0;
    cr3 = 0x100000;
  };
  vm = record space {
    memory = λ n.
        if n == 0x1441
        then receiver
        else if n == 0x1442
        then 0x5200
        else if n == 0x1443
        then 0x5300
        else words n;
  };
  heap = heap_lay (λ x. record { magic = 0; type = 0; next = 0; data_size = 0 });
}

abbrev packet : ℕ → MsgPacket
packet receiver = record {
  sender = 0;
  receiver = receiver;
  send_buf = 0x5200;
  recv_buf = 0x5300;
  send_len = 0;
  recv_len = 0;
  phys_send_buf = 0;
  phys_recv_buf = 0;
  phys_msg_packet = 0;
}

loaded : load_packet 0x5100 (talking 2).vm ≡ done (packet 2)
unfolding load_packet load_word load_half load_byte byte_at translate pde pte
loaded = refl

find_two : proc_find_by_pid 2 (proc_disable_scheduling (talking 2).kernel) ≡ some 1
unfolding proc_find_by_pid find_pid proc_disable_scheduling
find_two = refl

-- The heap and the state after the message was put into the queue of the process with pid 2.
abbrev allocated : Heap
allocated = record (talking 2).heap { mem = take_block (talking 2).heap.mem 0xe4000000 40 }

room : kalloc 2 40 (talking 2).heap ≡ some (some 0xe400000c, allocated)
unfolding kalloc heap_lay store initial_block walk is_fitting
room = refl

abbrev entry : MsgPacketQueue
entry = record {
  address = 0xe400000c;
  msg = record (packet 2) { sender = 1; phys_send_buf = 0x5200; phys_recv_buf = 0x5300 };
}

abbrev talked : System (List MsgPacketQueue)
talked = record (talking 2) {
  heap = allocated;
  kernel = record (talking 2).kernel {
    procs = process 1 reply_blocked ∷ record (process 2 ready) { recv_queue = entry ∷ [] } ∷ [];
  };
}

sent : send_msg list_stailq 2 0x5100 (talking 2) ≡ done (true, talked)
unfolding vm_get_phys_mapping vload translate pde pte pte_address vm_pdir_idx paligndown vm_ptab_idx
sent =
    send_queued list_stailq 2 0x5100 0 1 (process 1 ready) (process 2 ready) (packet 2) (talking 2)
      0x5200 0x5300 0xe400000c allocated loaded find_two refl refl refl refl refl refl room

Call-Exchange_example :
    Exchange 0 (mailboxes list_stailq (talking 2)) (mailboxes list_stailq talked)
Call-Exchange_example =
    Call-Exchange list_stailq 2 0 (talking 2) talked refl (send 0x5100 true sent)

-- The state after the system call: the scheduler went on with the process in slot 1.
abbrev turned : System (List MsgPacketQueue)
turned = record talked {
  kernel = record talked.kernel {
    procs =
        record (process 1 reply_blocked) { trapframe = 0x8000 }
        ∷ record (process 2 ready) { recv_queue = entry ∷ [] }
        ∷ [];
    current_proc = some 1;
    cursor = 2;
    ss0 = 0x10;
    esp0 = 0;
    cr3 = 0x100000;
  };
  vm = record talked.vm { cr3 = 0x100000 };
}

schedules : proc_schedule_without_irq 0x8000 talked ≡ done (0, turned)
unfolding proc_schedule_without_irq proc_schedule_after_irq preempt make_ready dispatch switch_to
    update_proc proc_is_blocked proc_find_by_pid find_pid is_blocked state_value find_next_proc
    find_next_loop is_at has_state
schedules = refl

called : syscall_send_msg list_stailq 2 0x7000 0x8000 0x5100 (talking 2) ≡ done (0, turned)
unfolding syscall_send_msg
called = >>=-at_done (send_msg list_stailq 2 0x5100 (talking 2)) _ sent ∙ schedules

nobody_waits :
    (i : ℕ) (b : Mailbox)
    → get_elem? (mailboxes list_stailq (talking 2)) i ≡ some b
    → b.state ≢ recv_blocked
nobody_waits zero b e = λ blocked. ground (arith, e, blocked)
nobody_waits (suc zero) b e = λ blocked. ground (arith, e, blocked)
nobody_waits (suc (suc i)) b e = cc

talking-IsSound : IsSound list_stailq 2 (talking 2)
talking-IsSound = record {
  waiting = λ i b e blocked. absurd (nobody_waits i b e blocked);
  awake = λ c runs other. nobody_waits c;
}

Steps-IsSound_example : IsSound list_stailq 2 turned
Steps-IsSound_example =
    Steps-IsSound list_stailq 2 (talking 2) turned talking-IsSound
      (then_step start (sends 0 0x7000 0x8000 0x5100 0 refl (λ e. cc) called))
