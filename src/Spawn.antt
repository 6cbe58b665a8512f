-- ===== src/Spawn.antt =====
-- kernel/proc.c: making a process and starting it, and kernel/elf.c, which loads its program.
use leoman.Base.{
  ℕ, zero, suc, ◌+◌, ◌-◌, ◌*◌, ◌^◌, Bool, true, false, none, some, List, [], ◌∷◌, map,
}
use leoman.Base.{◌==◌, if◌then◌else◌, u32, bit_or, Run, done, fault, ◌>>=◌}
use leoman.Address.{page_size}
use leoman.Pm.{pm_alloc}
use leoman.Gdt.{seg_kcode, seg_kdata}
use leoman.Vm.Mmu.{Vm}
use leoman.Vm.{address_of, pte_u, pte_w, map_page, map_pages, vm_alloc_pages_at}
use leoman.Vm.Directory.{vm_copy_kernel_pdir}
use leoman.Proc.{Proc, unused, running, ready, find_next_proc, update_proc, proc_enable_scheduling}
use leoman.System.{System, load_half, load_word, store_word}
use leoman.Stailq.{Stailq}
use leoman.Ipc.{current}
use leoman.Message.{MsgPacketQueue}

abbrev pub vm_user_stack_addr : ℕ
vm_user_stack_addr = 0xd0000000

abbrev pub max_proc_name_len : ℕ
max_proc_name_len = 32

abbrev pub seg_ucode : ℕ
seg_ucode = bit_or (0x3 * 8) 3

abbrev pub seg_udata : ℕ
seg_udata = bit_or (0x4 * 8) 3

-- `memcpy` of `n` bytes over the beginning of an array.
unfoldable pub overwrite : ℕ → List ℕ → List ℕ → List ℕ
overwrite zero src dst = dst
overwrite (suc n) (x ∷ src) (y ∷ dst) = x ∷ overwrite n src dst
overwrite (suc n) src dst = dst

-- `*--stack = word` for every word.
unfoldable pub push_words : List ℕ → ℕ → Vm → Run (ℕ × Vm)
push_words [] stack m = done (stack, m)
push_words (word ∷ words) stack m = store_word (u32 (stack + 2 ^ 32 - 4)) word m >>= λ m'.
    push_words words (u32 (stack + 2 ^ 32 - 4)) m'

-- The trap frame of a new process: ss, useresp, eflags, cs, eip; err, num; eight registers, of
-- which eax comes first; ds, es, fs, gs.
abbrev pub new_frame : ℕ → ℕ → List ℕ
new_frame kstack entry =
    seg_kdata ∷ kstack ∷ 0x200 ∷ seg_kcode ∷ entry ∷ 0xdeadbeef ∷ 0xfeedbabe ∷ 0 ∷ 0 ∷ 0 ∷ 0 ∷ 0 ∷ 0
    ∷ 0 ∷ 0 ∷ seg_kdata ∷ seg_kdata ∷ seg_kdata ∷ seg_kdata ∷ []

-- The loop over the program headers from `phdr` on, with `left` to go; `user` is PTE_U for a
-- process without privileges. A header of another kind than PT_LOAD is passed over.
unfoldable pub load_segments : ℕ → ℕ → ℕ → ℕ → Vm → Run Vm
unfolding load_word
load_segments file user phdr zero m = done m
load_segments file user phdr (suc left) m = do
  kind ← load_word phdr m
  m' ← elim (kind == 1) [
    | false ↦ done m
    | true ↦ do
      offset ← load_word (u32 (phdr + 4)) m
      vaddr ← load_word (u32 (phdr + 8)) m
      memsz ← load_word (u32 (phdr + 20)) m
      map_pages (u32 (file + offset)) vaddr (bit_or pte_w user) memsz m
  ]
  load_segments file user (u32 (phdr + 32)) left m'

-- The entry point.
unfoldable pub elf_load : ℕ → ℕ → Vm → Run (ℕ × Vm)
unfolding load_segments
elf_load file user m = do
  phoff ← load_word (u32 (file + 28)) m
  phnum ← load_half (u32 (file + 44)) m
  m' ← load_segments file user (u32 (file + phoff)) phnum m
  entry ← load_word (u32 (file + 24)) m'
  done (entry, m')

-- Where a process begins: the frame of the `iret` and the data segment registers.
pub record Start : Type 0 where
  pub data_seg : ℕ
  pub esp : ℕ
  pub eflags : ℕ
  pub code_seg : ℕ
  pub eip : ℕ

-- `q` are the operations of <queue.h>; `proc_load_entry`, `msg_dispatcher` and `proc_idle` are the
-- addresses of these functions.
module _ {Q : Type 0} (q : Stailq MsgPacketQueue Q)
    (proc_load_entry msg_dispatcher proc_idle : ℕ) where
  -- The entry point of the program of a process, which is an ELF file or begins with its first
  -- instruction.
  unfoldable pub load_program : Proc Q → Vm → Run (ℕ × Vm)
  unfolding elf_load
  load_program p m = do
    magic ← load_word p.location_address m
    elim (magic == 0x464c457f) [
      | true ↦ elf_load p.location_address (if p.privileged then 0 else pte_u) m
      | false ↦ done (p.location_address, m)
    ]

  unfoldable pub proc_load : System Q → Run (Start × System Q)
  unfolding load_program
  proc_load s = do
    (c, p) ← current s
    (entry, m) ← load_program p s.vm
    let user_stack_size : ℕ = 16 * 1024
    m' ←
        vm_alloc_pages_at (vm_user_stack_addr - user_stack_size) (if p.privileged then 0 else pte_u)
          user_stack_size m
    done (
      record {
        data_seg = if p.privileged then seg_kdata else seg_udata;
        esp = vm_user_stack_addr;
        eflags = 0x200;
        code_seg = if p.privileged then seg_kcode else seg_ucode;
        eip = entry;
      },
      record s { vm = m' },
    )

  unfoldable pub proc_kickoff_first_process : System Q → Run (Start × System Q)
  unfolding proc_load update_proc
  proc_kickoff_first_process s = do
    (c, p) ← current s
    let k = record (update_proc c (λ p. record p { state = running }) s.kernel) {
      ss0 = seg_kdata;
      esp0 = p.kstack;
      cr3 = p.pdir;
    }
    proc_load (record s { kernel = proc_enable_scheduling k; vm = record s.vm { cr3 = p.pdir } })

  -- A process in slot `slot` with the kernel stack at `stack`; `name` holds what `name` points to.
  unfoldable pub fill_proc : List ℕ → Bool → ℕ → ℕ → System Q → Run (System Q)
  unfolding push_words overwrite update_proc
  fill_proc name privileged slot stack s = do
    let kstack = u32 (stack + page_size)
    (pdir, m) ← vm_copy_kernel_pdir s.vm
    (trapframe, m') ← push_words (new_frame kstack proc_load_entry) kstack m
    let k =
        update_proc slot
          (λ p. record p {
            pid = s.kernel.next_pid;
            state = ready;
            pdir = address_of pdir;
            memsz = page_size;
            privileged = privileged;
            kstack = kstack;
            recv_queue = q.init;
            name = overwrite max_proc_name_len name p.name;
            trapframe = trapframe;
          })
          s.kernel
    done (record s {
      kernel = record k { next_pid = u32 (s.kernel.next_pid + 1); current_proc = some slot };
      vm = m';
    })

  -- The new process's slot; `superuser` is not used. A full table is a NULL that is followed.
  unfoldable pub proc_new : List ℕ → Bool → Bool → System Q → Run (ℕ × System Q)
  unfolding fill_proc
  proc_new name privileged superuser s = do
    let (found, k) = find_next_proc unused s.kernel
    let (page, pm) = pm_alloc s.vm.pm
    m ← map_page (address_of page) (address_of page) pte_w (record s.vm { pm = pm })
    elim found [
      | none ↦ fault
      | some slot ↦ do
        s' ← fill_proc name privileged slot (address_of page) (record s { kernel = k; vm = m })
        done (slot, s')
    ]

  unfoldable pub proc_new_from_memory : List ℕ → Bool → Bool → ℕ → ℕ → System Q → Run (ℕ × System Q)
  unfolding proc_new update_proc
  proc_new_from_memory name privileged superuser addr size s = do
    (slot, s') ← proc_new name privileged superuser s
    done (
      slot,
      record s' {
        kernel =
            update_proc slot (λ p. record p { location_address = addr; location_size = size })
              s'.kernel;
      },
    )

  -- The table's loop, and the first two processes; `kernel_name` and `idle_name` hold what their
  -- names' addresses point to.
  unfoldable pub proc_earlyinit : List ℕ → List ℕ → System Q → Run (System Q)
  unfolding proc_new_from_memory
  proc_earlyinit kernel_name idle_name s = do
    let cleared = record s.kernel {
      procs = map (λ (p : Proc Q). record p { pid = 2 ^ 32 - 1; state = unused }) s.kernel.procs;
    }
    (kernel_slot, s₁) ←
        proc_new_from_memory kernel_name true true msg_dispatcher 0 (record s { kernel = cleared })
    (idle_slot, s₂) ←
        proc_new_from_memory idle_name true true proc_idle 0
          (record s₁ { kernel = record s₁.kernel { current_proc = some kernel_slot } })
    done (record s₂ {
      kernel = record s₂.kernel { idle = some idle_slot; current_proc = some idle_slot };
    })
