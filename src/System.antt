-- ===== src/System.antt =====
-- The kernel's parts together, and the accesses to memory that the system calls and the process
-- loader make: kernel/proc.c, lib/libc/memcpy.c, and the mutual calls of kernel/heap.c,
-- kernel/pm.c and kernel/vm.c.
pub mod Bytes
pub mod Copies
use leoman.Base.{ℕ, zero, suc, ◌+◌, ◌-◌, ◌*◌, ◌/◌, ◌%◌, ◌^◌, none, some, Run, done, halted, ◌>>=◌}
use leoman.Base.{u32, ◌==◌, if◌then◌else◌}
use leoman.Address.{page_size}
use leoman.Pm.{pm_alloc_cont}
use leoman.Vm.Mmu.{Vm, translate, poke, vstore}
use leoman.Vm.{map_pages}
use leoman.Heap.{Heap, heap_lay, heap_pool_addr, kernel_heap_size}
use leoman.Proc.{Kernel}
use leoman.Sched.{proc_schedule_after_irq}

-- `Q` is the type of the receive queues.
pub record System (Q : Type 0) : Type 0 where
  pub kernel : Kernel Q
  pub vm : Vm
  pub heap : Heap

-- Byte accesses at a virtual address, little endian.
unfoldable pub byte_at : ℕ → ℕ → ℕ
byte_at i word = word / 2 ^ (8 * i) % 2 ^ 8

unfoldable pub set_byte : ℕ → ℕ → ℕ → ℕ
unfolding byte_at
set_byte i byte word = word + byte * 2 ^ (8 * i) - byte_at i word * 2 ^ (8 * i)

unfoldable pub load_byte : ℕ → Vm → Run ℕ
unfolding byte_at
load_byte vaddr m = translate m vaddr >>= λ a. done (byte_at (a % 4) (m.memory (a / 4)))

unfoldable pub store_byte : ℕ → ℕ → Vm → Run Vm
unfolding set_byte
store_byte vaddr byte m =
    translate m vaddr >>= λ a. done (poke (a / 4) (set_byte (a % 4) byte (m.memory (a / 4))) m)

-- Little-endian loads at any address.
unfoldable pub load_half : ℕ → Vm → Run ℕ
unfolding load_byte
load_half vaddr m = do
  low ← load_byte vaddr m
  high ← load_byte (u32 (vaddr + 1)) m
  done (low + 2 ^ 8 * high)

unfoldable pub load_word : ℕ → Vm → Run ℕ
unfolding load_half
load_word vaddr m = do
  low ← load_half vaddr m
  high ← load_half (u32 (vaddr + 2)) m
  done (low + 2 ^ 16 * high)

-- A word stored at any address: where it is no multiple of 4, byte by byte.
unfoldable pub store_word : ℕ → ℕ → Vm → Run Vm
unfolding store_byte byte_at
store_word vaddr x m = if vaddr % 4 == 0 then vstore vaddr x m else (do
  m₁ ← store_byte vaddr (byte_at 0 x) m
  m₂ ← store_byte (u32 (vaddr + 1)) (byte_at 1 x) m₁
  m₃ ← store_byte (u32 (vaddr + 2)) (byte_at 2 x) m₂
  store_byte (u32 (vaddr + 3)) (byte_at 3 x) m₃)

unfoldable pub memcpy : ℕ → ℕ → ℕ → Vm → Run Vm
unfolding load_byte store_byte
memcpy dst src zero m = done m
memcpy dst src (suc len) m = (load_byte src m >>= λ byte. store_byte dst byte m) >>= λ m'.
    memcpy (u32 (dst + 1)) (u32 (src + 1)) len m'

unfoldable pub memset : ℕ → ℕ → ℕ → Vm → Run Vm
unfolding store_byte
memset str ch zero m = done m
memset str ch (suc len) m = store_byte str (ch % 2 ^ 8) m >>= λ m'. memset (u32 (str + 1)) ch len m'

-- `heap_init`: the pool is mapped, and the first block is laid over it.
unfoldable pub heap_init : Vm → Heap → Run (Vm × Heap)
heap_init m heap = do
  (pages, pm) ← pm_alloc_cont (kernel_heap_size / page_size) m.pm
  elim pages [
    | none ↦ halted
    | some pool ↦ do
      m' ← map_pages pool heap_pool_addr 0 kernel_heap_size (record m { pm = pm })
      done (m', heap_lay heap.mem)
  ]

module _ {Q : Type 0} where
  -- `proc_schedule_without_irq`: the software interrupt saves the registers in the frame at `trap`,
  -- and the scheduler goes on with another frame.
  unfoldable pub proc_schedule_without_irq : ℕ → System Q → Run (ℕ × System Q)
  proc_schedule_without_irq trap s = do
    (next, k) ← proc_schedule_after_irq trap s.kernel
    done (next, record s { kernel = k; vm = record s.vm { cr3 = k.cr3 } })
