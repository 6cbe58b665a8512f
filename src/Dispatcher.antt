-- ===== src/Dispatcher.antt =====
-- kernel/msg_dispatcher.c and include/msg/kernel.h: the kernel's own process, which serves requests,
-- and the search for a process by its name in kernel/proc.c.
use leoman.Base.{ℕ, ◌+◌, Bool, true, false, none, some, List, [], ◌∷◌}
use leoman.Base.{◌==◌, bit_and, Run, done, fault, ◌>>=◌}
use leoman.Vm.{pte_u, map_pages, vm_get_phys_mapping}
use leoman.Proc.{Proc, Kernel, proc_find_by_pid, proc_disable_scheduling, proc_enable_scheduling}
use leoman.Idt.{Tables, irq_install_handler}
use leoman.System.{System}
use leoman.Ipc.{on_kernel, proc_at, current}

-- The length of a NUL-terminated string, which counts the NUL.
unfoldable pub strlen : List ℕ → Run ℕ
strlen [] = fault
strlen (b ∷ bs) = elim (b == 0) [ true ↦ done 1 | false ↦ strlen bs >>= λ n. done (n + 1) ]

-- A comparison of NUL-terminated strings; it faults where it runs out of an array.
unfoldable pub streq : List ℕ → List ℕ → Run Bool
streq [] ys = fault
streq (x ∷ xs) [] = fault
streq (x ∷ xs) (y ∷ ys) = elim (x == y) [
  | false ↦ done false
  | true ↦ elim (x == 0) [ true ↦ done true | false ↦ streq xs ys ]
]

module _ {Q : Type 0} where
  unfoldable pub find_name : List ℕ → List (Proc Q) → Run ℕ
  unfolding streq
  find_name name [] = done 0
  find_name name (p ∷ ps) = do
    same ← streq p.name name
    elim same [ true ↦ done p.pid | false ↦ find_name name ps ]

  -- The pid, and 0 where no process has the name.
  unfoldable pub proc_find_by_name : List ℕ → Kernel Q → Run ℕ
  unfolding find_name
  proc_find_by_name name k = find_name name k.procs

  unfoldable pub change_cr3 : ℕ → System Q → System Q
  change_cr3 pdir s = record s {
    vm = record s.vm { cr3 = pdir };
    kernel = record s.kernel { cr3 = pdir };
  }

-- `struct msg_kernel`
pub data MsgKernel : Type 0 where
  request_interrupt_forwarding : ℕ → ℕ → MsgKernel
  map_memory : ℕ → ℕ → MsgKernel
  port_in_byte : ℕ → MsgKernel
  port_out_byte : ℕ → ℕ → MsgKernel
  find_proc_by_name : List ℕ → MsgKernel
  other_type : ℕ → MsgKernel

-- The kernel's state, its tables of handlers, and the bytes that were put out, the last first.
pub record ServerState (Q : Type 0) : Type 0 where
  pub system : System Q
  pub tables : Tables
  pub outputs : List (ℕ × ℕ)

-- `inb` gives the byte that a port has.
module _ {Q : Type 0} (inb : ℕ → ℕ) where
  unfoldable pub forward_interrupt : ℕ → ℕ → Proc Q → ServerState Q → Run (ℕ × ServerState Q)
  unfolding change_cr3
  forward_interrupt which handler sender m = do
    let s = on_kernel proc_disable_scheduling m.system
    let saved = s.vm.cr3
    phys ← vm_get_phys_mapping handler (change_cr3 sender.pdir s).vm
    tables ← irq_install_handler which handler sender.pdir m.tables
    let restored = change_cr3 saved (change_cr3 sender.pdir s)
    done (
      0x33cafe33,
      record m { system = on_kernel proc_enable_scheduling restored; tables = tables },
    )

  unfoldable pub map_for : ℕ → ℕ → Proc Q → ServerState Q → Run (ℕ × ServerState Q)
  unfolding change_cr3
  map_for paddr length sender m = do
    let s = change_cr3 sender.pdir (on_kernel proc_disable_scheduling m.system)
    vm ← map_pages paddr 0x10000000 pte_u length s.vm
    (c, p) ← current s
    let mapped = change_cr3 p.pdir (record s { vm = vm })
    done (0x10000000, record m { system = on_kernel proc_enable_scheduling mapped })

  -- The switch over the message's type: the response.
  unfoldable pub serve_request : MsgKernel → Proc Q → ServerState Q → Run (ℕ × ServerState Q)
  unfolding forward_interrupt map_for proc_find_by_name
  serve_request (request_interrupt_forwarding which handler) sender m =
      forward_interrupt which handler sender m
  serve_request (map_memory paddr length) sender m = map_for paddr length sender m
  serve_request (port_in_byte which) sender m = done (inb which, m)
  serve_request (port_out_byte which byte) sender m =
      done (1, record m { outputs = (which, bit_and byte 0xff) ∷ m.outputs })
  serve_request (find_proc_by_name name) sender m = do
    pid ← proc_find_by_name name m.system.kernel
    done (pid, m)
  serve_request (other_type type) sender m = done (0, m)

  -- One round after the message was received: the process that is replied to and the response.
  unfoldable pub msg_dispatcher : ℕ → MsgKernel → ServerState Q → Run ((ℕ × ℕ) × ServerState Q)
  unfolding serve_request
  msg_dispatcher sender_pid msg m = elim (proc_find_by_pid sender_pid m.system.kernel) [
    | none ↦ fault
    | some slot ↦ do
      sender ← proc_at slot m.system
      (response, m') ← serve_request msg sender m
      done ((sender.pid, response), m')
  ]
