-- ===== src/Vm.antt =====
-- kernel/vm.c and include/kernel/vm.h: the page directory and its tables, which the kernel reaches
-- through the directory's last entry, which maps the directory into itself.
pub mod Mmu
pub mod Window
pub mod Space
pub mod Tables
pub mod Map
pub mod Unmap
pub mod Lookup
pub mod Range
pub mod Directory
use leoman.Base.{
  ℕ, zero, suc, ◌+◌, ◌-◌, ◌*◌, ◌/◌, ◌%◌, ◌^◌, bit_and, bit_or, Bool, true, false, Option, none,
  some,
}
use leoman.Base.{ltb, ◌==◌, if◌then◌else◌, u32, Run, done, fault, halted, ◌>>=◌, not32}
use leoman.Address.{page_size, paligndown, vm_pdir_idx, vm_ptab_idx}
use leoman.Pm.{Pm, pm_alloc}
use leoman.Vm.Mmu.{Vm, vload, vstore}

abbrev pub kern_pdir_addr : ℕ
kern_pdir_addr = 0xfffff000

abbrev pub kern_ptabs_addr : ℕ
kern_ptabs_addr = 0xffc00000

-- The attribute masks that the code uses, of directory and of table entries.
abbrev pub pde_u : ℕ
pde_u = 4

abbrev pub pde_p : ℕ
pde_p = 1

abbrev pub pte_u : ℕ
pte_u = 4

abbrev pub pte_w : ℕ
pte_w = 2

abbrev pub pte_p : ℕ
pte_p = 1

-- The addresses of `pdir[vm_pdir_idx(vaddr)]` and `ptab[vm_ptab_idx(vaddr)]`.
unfoldable pub pde_address : ℕ → ℕ
pde_address vaddr = kern_pdir_addr + 4 * vm_pdir_idx vaddr

unfoldable pub pte_address : ℕ → ℕ
pte_address vaddr = kern_ptabs_addr + 4 * (0x400 * vm_pdir_idx vaddr) + 4 * vm_ptab_idx vaddr

-- What `pm_alloc` returns as an address; NULL is 0.
abbrev pub address_of : Option ℕ → ℕ
address_of none = 0
address_of (some page) = page

-- The page is mapped already: an error stops the machine.
unfoldable pub check_mapping : ℕ → ℕ → ℕ → Vm → Run Vm
check_mapping pte paddr flags m =
    if bit_and pte 0xfffff000 == bit_and paddr 0xfffff000
    then (if bit_and pte 0x1f == bit_and flags 0x1f then done m else halted)
    else halted

-- The page table exists; `directory` and `table` are its entries for the page.
unfoldable pub map_in_table : ℕ → ℕ → ℕ → ℕ → ℕ → Vm → Run Vm
unfolding check_mapping
map_in_table directory table paddr vaddr flags m = elim (bit_and table pte_p == 0) [
  | false ↦ check_mapping table paddr flags m
  | true ↦ do
    m' ← vstore (pde_address vaddr) (bit_or directory flags) m
    vstore (pte_address vaddr) (bit_or paddr flags) m'
]

-- The page table does not exist; the page for it is not cleared.
unfoldable pub map_in_new_table : ℕ → ℕ → ℕ → Vm → Run Vm
map_in_new_table paddr vaddr flags m = do
  let (page, pm) = pm_alloc m.pm
  m' ← vstore (pde_address vaddr) (bit_or (address_of page) flags) (record m { pm = pm })
  vstore (pte_address vaddr) (bit_or paddr flags) m'

-- `directory` is the directory's entry.
unfoldable pub map_below : ℕ → ℕ → ℕ → ℕ → Vm → Run Vm
unfolding map_in_table map_in_new_table
map_below directory paddr vaddr flags m = elim (bit_and directory pde_p == 0) [
  | false ↦
      vload (pte_address vaddr) m >>= λ table. map_in_table directory table paddr vaddr flags m
  | true ↦ map_in_new_table paddr vaddr flags m
]

-- Addresses that are aligned, and the flags with PTE_P and PTE_W.
unfoldable pub map_aligned : ℕ → ℕ → ℕ → Vm → Run Vm
unfolding map_below
map_aligned paddr vaddr flags m =
    vload (pde_address vaddr) m >>= λ directory. map_below directory paddr vaddr flags m

unfoldable pub map_page : ℕ → ℕ → ℕ → Vm → Run Vm
unfolding map_aligned
map_page paddr vaddr flags m = map_aligned (paligndown paddr) (paligndown vaddr) (bit_or flags 3) m

unfoldable pub unmap_page : ℕ → Vm → Run Vm
unmap_page vaddr m = vstore (pte_address (paligndown vaddr)) 0 m

-- The number of pages that hold `sz` bytes.
unfoldable pub npages : ℕ → ℕ
npages sz = sz / page_size + (if ltb 0 (sz % page_size) then 1 else 0)

unfoldable pub map_loop : ℕ → ℕ → ℕ → ℕ → Vm → Run Vm
map_loop zero paddr vaddr flags m = done m
map_loop (suc n) paddr vaddr flags m = map_page paddr vaddr flags m >>= λ m'.
    map_loop n (u32 (paddr + page_size)) (u32 (vaddr + page_size)) flags m'

unfoldable pub map_pages : ℕ → ℕ → ℕ → ℕ → Vm → Run Vm
unfolding map_loop npages
map_pages paddr vaddr flags sz m =
    if sz == 0 then done m else map_loop (npages sz) (paligndown paddr) (paligndown vaddr) flags m

unfoldable pub unmap_loop : ℕ → ℕ → Vm → Run Vm
unmap_loop zero vaddr m = done m
unmap_loop (suc n) vaddr m = unmap_page vaddr m >>= λ m'. unmap_loop n (u32 (vaddr + page_size)) m'

unfoldable pub unmap_pages : ℕ → ℕ → Vm → Run Vm
unfolding unmap_loop npages
unmap_pages vaddr sz m = if sz == 0 then done m else unmap_loop (npages sz) (paligndown vaddr) m

unfoldable pub vm_get_phys_mapping : ℕ → Vm → Run ℕ
vm_get_phys_mapping vaddr m = do
  pte ← vload (pte_address (paligndown vaddr)) m
  done (u32 (bit_and pte (not32 0x3ff) + bit_and vaddr 0xfff))

unfoldable pub alloc_loop : ℕ → ℕ → ℕ → Vm → Run Vm
alloc_loop zero vaddr flags m = done m
alloc_loop (suc n) vaddr flags m =
    let (page, pm) = pm_alloc m.pm in
    map_page (address_of page) vaddr flags (record m { pm = pm }) >>= λ m'.
    alloc_loop n (u32 (vaddr + page_size)) flags m'

unfoldable pub vm_alloc_pages_at : ℕ → ℕ → ℕ → Vm → Run Vm
unfolding alloc_loop npages
vm_alloc_pages_at vaddr flags sz m =
    if sz == 0 then done m else alloc_loop (npages sz) (paligndown vaddr) flags m

unfoldable pub vm_change_page_attrs : ℕ → ℕ → Vm → Run Vm
vm_change_page_attrs vaddr new_flags m = do
  pte ← vload (pte_address (paligndown vaddr)) m
  vstore (pte_address (paligndown vaddr)) (bit_or (bit_and pte (not32 0x3ff)) new_flags) m

unfoldable pub attrs_loop : ℕ → ℕ → ℕ → Vm → Run Vm
attrs_loop zero vaddr new_flags m = done m
attrs_loop (suc n) vaddr new_flags m = vm_change_page_attrs vaddr new_flags m >>= λ m'.
    attrs_loop n (u32 (vaddr + page_size)) new_flags m'

unfoldable pub vm_change_pages_attrs : ℕ → ℕ → ℕ → Vm → Run Vm
unfolding attrs_loop npages
vm_change_pages_attrs vaddr new_flags bytes m =
    attrs_loop (npages bytes) (paligndown vaddr) new_flags m
