-- ===== src/Vm/Directory.antt =====
-- kernel/vm.c: the page directory of a new process.
use leoman.Base.{ℕ, zero, suc, ◌+◌, ◌*◌, ◌/◌, bit_and, bit_or, true, false, Option, none, some}
use leoman.Base.{◌==◌, u32, Run, done, ◌>>=◌}
use leoman.Address.{page_size}
use leoman.Pm.{pm_alloc}
use leoman.Vm.Mmu.{Vm, vload, vstore}
use leoman.Vm.{kern_pdir_addr, pde_p, pde_u, map_page}
use leoman.System.{memset}

abbrev pub pde_w : ℕ
pde_w = 2

-- The number of entries of a directory.
abbrev pub pdir_entries : ℕ
pdir_entries = page_size / 4

unfoldable pub new_pdir : Vm → Run (Option ℕ × Vm)
new_pdir m =
    let (page, pm) = pm_alloc m.pm in
    elim page [
      | none ↦ done (none, record m { pm = pm })
      | some pdir ↦ do m' ← memset pdir 0 page_size (record m { pm = pm }); done (some pdir, m')
    ]

-- The loop from entry `i` on, with `left` rounds to go: what is present and the kernel's is copied.
unfoldable pub copy_entries : ℕ → ℕ → ℕ → Vm → Run Vm
copy_entries pdir i zero m = done m
copy_entries pdir i (suc left) m = do
  entry ← vload (kern_pdir_addr + 4 * i) m
  m' ← elim (bit_and entry pde_p == 0) [
    | true ↦ done m
    | false ↦ elim (bit_and entry pde_u == 0) [
      | true ↦ vstore (u32 (pdir + 4 * i)) entry m
      | false ↦ done m
    ]
  ]
  copy_entries pdir (suc i) left m'

-- The directory is mapped at its own address, and into itself by its last entry.
unfoldable pub fill_pdir : ℕ → Vm → Run Vm
unfolding copy_entries
fill_pdir pdir m = do
  m₁ ← map_page pdir pdir 0 m
  m₂ ← memset pdir 0 page_size m₁
  m₃ ← copy_entries pdir 0 pdir_entries m₂
  vstore (u32 (pdir + 4 * 1023)) (bit_or (bit_or pdir pde_p) pde_w) m₃

unfoldable pub vm_copy_kernel_pdir : Vm → Run (Option ℕ × Vm)
unfolding fill_pdir
vm_copy_kernel_pdir m =
    let (page, pm) = pm_alloc m.pm in
    elim page [
      | none ↦ done (none, record m { pm = pm })
      | some pdir ↦ do m' ← fill_pdir pdir (record m { pm = pm }); done (some pdir, m')
    ]

-- It returns `kernel_pdir`, and its argument is not used.
unfoldable pub vm_init : ℕ → ℕ
vm_init bootinfo = kern_pdir_addr
