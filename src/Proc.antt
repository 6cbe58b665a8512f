-- ===== src/Proc.antt =====
-- kernel/proc.c and include/kernel/proc.h: the process table and its searches.
-- `Queue` is the type of the receive queues, of <queue.h>. A `struct proc *` is the index of its
-- slot in `procs`; NULL is `none`.
pub mod Cursor
pub mod Search
use leoman.Base.{ℕ, zero, suc, ◌+◌, ◌%◌, ◌^◌}
use leoman.Base.{Bool, true, false, not, ◌&&◌, ◌||◌, Option, none, some, List, [], ◌∷◌}
use leoman.Base.{◌==◌, if◌then◌else◌, u32, get_elem?, modify, Run, done, fault, ◌>>=◌}

-- `NPROCS` of include/kernel/config.h.
abbrev pub nprocs : ℕ
nprocs = 64

pub data ProcState : Type 0 where
  unused running ready send_blocked recv_blocked reply_blocked : ProcState

-- The values of `enum proc_state`, by which the source compares.
unfoldable pub state_value : ProcState → ℕ
state_value unused = 0
state_value running = 1
state_value ready = 2
state_value send_blocked = 3
state_value recv_blocked = 4
state_value reply_blocked = 5

-- `struct proc`; `location_address` and `location_size` are its `location.memory`.
pub record Proc (Queue : Type 0) : Type 0 where
  pub pid : ℕ
  pub state : ProcState
  pub name : List ℕ
  pub privileged : Bool
  pub superuser : Bool
  pub trapframe : ℕ
  pub kstack : ℕ
  pub ustack : ℕ
  pub pdir : ℕ
  pub memsz : ℕ
  pub location_address : ℕ
  pub location_size : ℕ
  pub recv_queue : Queue

-- The static variables of proc.c (`cursor` is the `i` of `find_next_proc`), and what the scheduler
-- writes outside of them: `ss0` and `esp0` of the TSS, and the page directory register.
pub record Kernel (Queue : Type 0) : Type 0 where
  pub procs : List (Proc Queue)
  pub next_pid : ℕ
  pub idle : Option ℕ
  pub current_proc : Option ℕ
  pub scheduling_enabled : Bool
  pub cursor : ℕ
  pub ss0 : ℕ
  pub esp0 : ℕ
  pub cr3 : ℕ

-- The test of `proc_is_blocked` on a state.
unfoldable pub is_blocked : ProcState → Bool
unfolding state_value
is_blocked state =
    (state_value state == state_value send_blocked)
    || ((state_value state == state_value recv_blocked)
        || (state_value state == state_value reply_blocked))

unfoldable pub is_at : Option ℕ → ℕ → Bool
is_at none i = false
is_at (some j) i = i == j

module _ {Queue : Type 0} where
  unfoldable pub has_state : List (Proc Queue) → ProcState → ℕ → Bool
  unfolding state_value
  has_state procs state i = elim (get_elem? procs i) [
    | none ↦ false
    | some p ↦ state_value p.state == state_value state
  ]

  -- The loop of `find_next_proc` at index `i`, with `NPROCS - n` rounds left: the slot and the
  -- value that `i` is left with.
  unfoldable pub find_next_loop : List (Proc Queue) → Option ℕ → ProcState → ℕ → ℕ → Option ℕ × ℕ
  find_next_loop procs idle state zero i = (none, i)
  find_next_loop procs idle state (suc left) i =
      elim (not (is_at idle i) && has_state procs state i) [
        | true ↦ (some i, i + 1)
        | false ↦ find_next_loop procs idle state left ((i + 1) % nprocs)
      ]

  unfoldable pub find_next_proc : ProcState → Kernel Queue → Option ℕ × Kernel Queue
  find_next_proc state k =
      let (slot, cursor) = find_next_loop k.procs k.idle state nprocs (k.cursor % nprocs) in
      (slot, record k { cursor = cursor })

  unfoldable pub find_pid : ℕ → ℕ → List (Proc Queue) → Option ℕ
  find_pid pid i [] = none
  find_pid pid i (p ∷ ps) = if p.pid == pid then some i else find_pid pid (suc i) ps

  -- The comparison is one of unsigned integers, so an `int` argument counts modulo 2 ^ 32.
  unfoldable pub proc_find_by_pid : ℕ → Kernel Queue → Option ℕ
  unfolding find_pid
  proc_find_by_pid pid k = find_pid (u32 pid) 0 k.procs

  -- A write through the pointer to slot `i`.
  unfoldable pub update_proc : ℕ → (Proc Queue → Proc Queue) → Kernel Queue → Kernel Queue
  update_proc i f k = record k { procs = modify k.procs i f }

  unfoldable pub proc_set_state : ℕ → ProcState → Kernel Queue → Run (Kernel Queue)
  unfolding update_proc
  proc_set_state pid state k = elim (proc_find_by_pid pid k) [
    | none ↦ fault
    | some i ↦ done (update_proc i (λ p. record p { state = state }) k)
  ]

  unfoldable pub proc_awake : ℕ → Kernel Queue → Run (Kernel Queue)
  unfolding update_proc
  proc_awake pid k = elim (proc_find_by_pid pid k) [
    | none ↦ fault
    | some i ↦ done (update_proc i (λ p. record p { state = ready }) k)
  ]

  unfoldable pub proc_is_blocked : ℕ → Kernel Queue → Run Bool
  proc_is_blocked pid k = elim (proc_find_by_pid pid k) [
    | none ↦ fault
    | some i ↦ elim (get_elem? k.procs i) [ none ↦ fault | some p ↦ done (is_blocked p.state) ]
  ]

  unfoldable pub proc_disable_scheduling : Kernel Queue → Kernel Queue
  proc_disable_scheduling k = record k { scheduling_enabled = false }

  unfoldable pub proc_enable_scheduling : Kernel Queue → Kernel Queue
  proc_enable_scheduling k = record k { scheduling_enabled = true }
