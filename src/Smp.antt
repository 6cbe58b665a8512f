-- ===== src/Smp.antt =====
-- kernel/smp.c, include/kernel/smp.h and kernel/mmio.c: the search for the tables of the
-- multiprocessor specification, and the start of the other processors.
-- What the local APIC answers and when the other processors count themselves are parameters.
pub mod Search
pub mod Walk
use leoman.Base.{
  ℕ, zero, suc, ◌+◌, ◌-◌, ◌*◌, ◌/◌, ◌%◌, ◌^◌, Bool, true, false, ◌==◌, ltb, not, ◌&&◌,
  if◌then◌else◌, Option, none, some, List, [], ◌∷◌, ◌++◌, Run, done, halted, ◌>>=◌, u32, shl,
  bit_and, bit_or,
}
use leoman.Vm.Mmu.{Vm, vstore}
use leoman.Vm.{map_pages, vm_change_pages_attrs}
use leoman.System.{load_byte, load_half, load_word, memcpy}

abbrev pub trampoline_load_addr : ℕ
trampoline_load_addr = 0x8000

abbrev pub trampoline_max_size : ℕ
trampoline_max_size = 0x1000

abbrev pub trampoline_vars_addr : ℕ
trampoline_vars_addr = trampoline_load_addr + 16

-- Whether `_MP_` stands at `p`; the other bytes are read only behind a first `_`.
unfoldable pub signature_at : (ℕ → Run ℕ) → ℕ → Run Bool
signature_at peek p = do
  a ← peek p
  elim (a == b'_') [
    | false ↦ done false
    | true ↦ do
      b ← peek (u32 (p + 1))
      elim (b == b'M') [
        | false ↦ done false
        | true ↦ do
          c ← peek (u32 (p + 2))
          elim (c == b'P') [
            | false ↦ done false
            | true ↦ do d ← peek (u32 (p + 3)); done (d == b'_')
          ]
      ]
  ]

-- The loop over `len` bytes from `p` on.
unfoldable pub search_for_mp_table : (ℕ → Run ℕ) → ℕ → ℕ → Run (Option ℕ)
search_for_mp_table peek p zero = done none
search_for_mp_table peek p (suc len) = do
  here ← signature_at peek p
  elim here [ true ↦ done (some p) | false ↦ search_for_mp_table peek (u32 (p + 1)) len ]

-- The two places that `smp_init` searches.
unfoldable pub find_mp_table : (ℕ → Run ℕ) → Run (Option ℕ)
find_mp_table peek = do
  low ← search_for_mp_table peek 0x9fc00 0x400
  elim low [ some p ↦ done (some p) | none ↦ search_for_mp_table peek 0xe0000 0x20000 ]

-- The stores to device registers so far, and `smp_initialized_cores_num`.
pub record Smp : Type 0 where
  pub stores : List (ℕ × ℕ)
  pub cores : ℕ

unfoldable pub mmio_write32 : ℕ → ℕ → Smp → Smp
mmio_write32 addr value s = record s { stores = s.stores ++ ((addr, value) ∷ []) }

-- `while (mmio_read32(apic + 0x30) & BIT(12));`, where the `n`th read gives `pending n`. An APIC that
-- is never ready stops the kernel.
unfoldable pub wait_ready : ℕ → (ℕ → ℕ) → ℕ → Run (Unit {0})
wait_ready zero pending n = halted
wait_ready (suc fuel) pending n =
    let rest = wait_ready fuel pending (n + 1) in
    if bit_and (pending n) (2 ^ 12) == 0 then done tt else rest

-- `smp_send_init_ipi` and `smp_send_startup_ipi`, with the command for the low word.
unfoldable pub send_ipi : ℕ → (ℕ → ℕ) → ℕ → ℕ → ℕ → Smp → Run Smp
unfolding wait_ready mmio_write32
send_ipi fuel pending apic core_id command s = do
  ready ← wait_ready fuel pending 0
  done (
      mmio_write32 (u32 (apic + 0x300)) command
        (mmio_write32 (u32 (apic + 0x310)) (shl core_id 24) s))

unfoldable pub smp_send_init_ipi : ℕ → (ℕ → ℕ) → ℕ → ℕ → Smp → Run Smp
unfolding send_ipi
smp_send_init_ipi fuel pending apic core_id = send_ipi fuel pending apic core_id 0x4500

unfoldable pub smp_send_startup_ipi : ℕ → (ℕ → ℕ) → ℕ → ℕ → ℕ → Smp → Run Smp
unfolding send_ipi
smp_send_startup_ipi fuel pending apic core_id code_page =
    send_ipi fuel pending apic core_id (bit_or 0x4600 code_page)

-- The wait for the core to count itself, where the `n`th read of the counter gives `seen n`: the
-- result of `smp_init_core`, and the counter as it was read last.
unfoldable pub await_core : ℕ → (ℕ → ℕ) → ℕ → ℕ → ℕ × ℕ
await_core zero seen n saved = (0, seen (n - 1))
await_core (suc rounds) seen n saved =
    let rest = await_core rounds seen (n + 1) saved in
    if ltb (u32 (saved + 1)) (seen n)
    then (1, seen n)
    else if seen n == u32 (saved + 1)
    then (0, seen n)
    else rest

-- The machine that `smp_init` runs on: the bound on the waits, what the APIC answers to the reads
-- before a core's first and second message, the counter as each core's start reads it, and the
-- addresses and the size that the linker provides.
pub record Platform : Type 0 where
  pub fuel : ℕ
  pub pending : ℕ → ℕ → ℕ → ℕ
  pub seen : ℕ → ℕ → ℕ
  pub trampoline_start : ℕ
  pub trampoline_size : ℕ
  pub kmain_secondary_cores : ℕ

-- The rounds of the wait, `tries++ < 10000000` after each.
unfoldable pub tries : ℕ
tries = 10000001

unfoldable pub smp_init_core : Platform → ℕ → ℕ → Smp → Run (ℕ × Smp)
unfolding await_core smp_send_init_ipi smp_send_startup_ipi
smp_init_core host apic core_id s =
    if ltb trampoline_max_size host.trampoline_size
    then done (1, s)
    else (smp_send_init_ipi host.fuel (host.pending core_id 0) apic core_id s >>= λ s₁.
        smp_send_startup_ipi host.fuel (host.pending core_id 1) apic core_id
          (trampoline_load_addr / 4096) s₁
        >>= λ s₂.
            let (status, cores) = await_core tries (host.seen core_id) 0 s.cores in
            done (status, record s₂ { cores = cores }))

-- The size of an entry of the configuration table, by its type.
unfoldable pub entry_size : ℕ → Option ℕ
entry_size zero = some 20
entry_size (suc t) = if ltb t 4 then some 8 else none

-- The start of the processor of an entry of type 0, unless it is the first one.
unfoldable pub start_cpu : Platform → ℕ → ℕ → Smp → Run Smp
start_cpu host apic core_id s =
    if core_id == 0 then done s else (smp_init_core host apic core_id s >>= λ (status, s'). done s')

unfoldable pub serve_entry : Platform → (ℕ → Run ℕ) → ℕ → ℕ → ℕ → Smp → Run Smp
unfolding start_cpu
serve_entry host peek apic zero entry s =
    peek (u32 (entry + 1)) >>= λ core_id. start_cpu host apic core_id s
serve_entry host peek apic (suc type) entry s = done s

-- The loop over the entries, `n` of them from `entry` on; an entry of another type ends it.
unfoldable pub walk_entries : Platform → (ℕ → Run ℕ) → ℕ → ℕ → ℕ → Smp → Run Smp
walk_entries host peek apic zero entry s = done s
walk_entries host peek apic (suc n) entry s = do
  type ← peek entry
  elim (entry_size type) [
    | none ↦ done s
    | some size ↦ do
      s' ← serve_entry host peek apic type entry s
      walk_entries host peek apic n (u32 (entry + size)) s'
  ]

-- The kernel's part of the machine.
pub record Board : Type 0 where
  pub vm : Vm
  pub smp : Smp

-- What the trampoline needs: its code, the page directory and the kernel's entry point.
unfoldable pub lay_trampoline : Platform → Vm → Run Vm
lay_trampoline host m = do
  m₁ ← vm_change_pages_attrs trampoline_load_addr 0x1b trampoline_max_size m
  m₂ ← memcpy trampoline_load_addr host.trampoline_start host.trampoline_size m₁
  m₃ ← vstore trampoline_vars_addr m₂.cr3 m₂
  m₄ ← vstore (trampoline_vars_addr + 4) 0 m₃
  vstore (trampoline_vars_addr + 8) host.kmain_secondary_cores m₄

unfoldable pub smp_init : Platform → Board → Run Board
unfolding find_mp_table lay_trampoline walk_entries
smp_init host b = do
  table ← find_mp_table (λ a. load_byte a b.vm)
  elim table [
    | none ↦ done b
    | some float ↦ do
      conf ← load_word (u32 (float + 4)) b.vm
      elim (conf == 0) [
        | true ↦ done b
        | false ↦ do
          apic ← load_word (u32 (conf + 36)) b.vm
          m₁ ← map_pages apic apic 0x18 0xfffff b.vm
          m₂ ← lay_trampoline host m₁
          count ← load_half (u32 (conf + 34)) m₂
          smp ← walk_entries host (λ a. load_byte a m₂) apic count (u32 (conf + 44)) b.smp
          done (record b { vm = m₂; smp = smp })
      ]
  ]

-- `kmain_secondary_cores` after the segments and the interrupts: the core counts itself.
unfoldable pub atomic_inc : Smp → Smp
atomic_inc s = record s { cores = u32 (s.cores + 1) }
