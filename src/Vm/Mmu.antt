-- ===== src/Vm/Mmu.antt =====
-- The processor's paging, which kernel/vm.c programs: physical memory, the register cr3, and the
-- two-level translation of an i386 without large pages. The memory is seen word by word: `memory i`
-- is the 32-bit word at the physical address 4 * i. Cached translations are left out.
use leoman.Base.{ℕ, ◌+◌, ◌*◌, ◌/◌, ◌%◌, ◌^◌, ◌==◌, if◌then◌else◌, Run, done, fault, ◌>>=◌, Bool}
use leoman.Pm.{Pm}

-- The memory, cr3 and the state of the physical memory manager.
pub record Vm : Type 0 where
  pub memory : ℕ → ℕ
  pub cr3 : ℕ
  pub pm : Pm

abbrev pub frame : ℕ → ℕ
frame entry = entry / 4096

abbrev pub is_present : ℕ → Bool
is_present entry = entry % 2 == 1

-- The index of word `i` of the page frame `f`.
abbrev pub word_at : ℕ → ℕ → ℕ
word_at f i = f * 1024 + i

-- The directory's entry `i`, and entry `j` of the table that an entry points to.
unfoldable pub pde : Vm → ℕ → ℕ
pde m i = m.memory (word_at (frame m.cr3) i)

unfoldable pub pte : Vm → ℕ → ℕ → ℕ
pte m entry j = m.memory (word_at (frame entry) j)

-- The physical address of `vaddr`; an access to a page that is not present faults.
unfoldable pub translate : Vm → ℕ → Run ℕ
unfolding pde pte
translate m vaddr =
    let directory = pde m (vaddr / 2 ^ 22) in
    let table = pte m directory (vaddr / 2 ^ 12 % 1024) in
    if is_present directory
    then (if is_present table then done (frame table * 4096 + vaddr % 4096) else fault)
    else fault

unfoldable pub poke : ℕ → ℕ → Vm → Vm
poke i x m = record m { memory = λ j. if j == i then x else m.memory j }

-- Word accesses at a virtual address that is a multiple of 4, as those of the tables are.
unfoldable pub vload : ℕ → Vm → Run ℕ
unfolding translate
vload vaddr m = translate m vaddr >>= λ a. done (m.memory (a / 4))

unfoldable pub vstore : ℕ → ℕ → Vm → Run Vm
unfolding translate poke
vstore vaddr x m = translate m vaddr >>= λ a. done (poke (a / 4) x m)
