-- ===== src/Gdt/Laws.antt =====
-- kernel/gdt.c and kernel/tss.c: what the processor reads out of the descriptors.
use leoman.Base.{ℕ, ◌+◌, ◌-◌, ◌*◌, ◌/◌, ◌%◌, ◌^◌, ◌<◌, bit_or, List, [], ◌∷◌}
use leoman.Base.{◌≡◌, refl, ap, arith, shr, u8, u32, done, get_or}
use leoman.Base.Bits.Masks.{bit_and-low_mask}
use leoman.Gdt.{
  GdtEntry, TssEntry, make_entry, null_entry, gdt_init, gdt_set_segment, gdt_load, tss_init,
  initial_tss,
}

-- The segment as the processor assembles it from the fields of its descriptor.
abbrev pub segment_base : GdtEntry → ℕ
segment_base e = e.base_low + e.base_mid * 2 ^ 16 + e.base_high * 2 ^ 24

-- In pages where the granularity is set.
abbrev pub segment_limit : GdtEntry → ℕ
segment_limit e = e.limit_low + e.limit_high * 2 ^ 16

abbrev pub privilege : GdtEntry → ℕ
privilege e = e.access / 2 ^ 5 % 4

make_entry_lem :
    (base limit access flags : ℕ)
    → base < 2 ^ 32
    → (segment_base (make_entry base limit access flags) ≡ base)
      × (segment_limit (make_entry base limit access flags) ≡ limit % 2 ^ 20)
unfolding make_entry
make_entry_lem base limit access flags h = omega (
  arith,
  bit_and-low_mask 16 base,
  bit_and-low_mask 8 (shr base 16),
  bit_and-low_mask 8 (shr base 24),
  bit_and-low_mask 16 limit,
  bit_and-low_mask 4 (shr limit 16),
)

-- A flat descriptor covers the whole address space, in pages.
abbrev pub IsFlat : GdtEntry → ℕ → Type 0
IsFlat e dpl =
    (segment_base e ≡ 0) × (segment_limit e ≡ 2 ^ 20 - 1) × (e.flags ≡ 0xc) × (privilege e ≡ dpl)

flat :
    (access dpl : ℕ)
    → u8 (bit_or 0x80 access) / 2 ^ 5 % 4 ≡ dpl
    → IsFlat (make_entry 0 0xffffffff access 0xc) dpl
unfolding make_entry
flat access dpl e = (refl, refl, refl, e)

-- From a table of six entries at a 32-bit address and a task state that ends within 32 bits,
-- gdt_init sets up the null entry, four flat segments, two of the kernel's privilege and two of
-- the user's, and the segment of the task state, which begins at its address, and whose limit is
-- the low 20 bits of the address of its end; the processor gets the table of 48 bytes and that
-- segment, and enters the kernel on the stack given.
pub gdt_init_lem :
    (gdt_address tss_address stack : ℕ) (e₀ e₁ e₂ e₃ e₄ e₅ : GdtEntry)
    → gdt_address < 2 ^ 32
    → tss_address + 104 < 2 ^ 32
    → (gdt : List GdtEntry) × (tss : TssEntry) × (gdt_init gdt_address tss_address stack
          (e₀ ∷ e₁ ∷ e₂ ∷ e₃ ∷ e₄ ∷ e₅ ∷ [])
        ≡ done (gdt, tss, record { size = 47; address = gdt_address }, 0x2b))
      × (get_or gdt 0 e₀ ≡ null_entry)
      × IsFlat (get_or gdt 1 e₀) 0
      × IsFlat (get_or gdt 2 e₀) 0
      × IsFlat (get_or gdt 3 e₀) 3
      × IsFlat (get_or gdt 4 e₀) 3
      × (segment_base (get_or gdt 5 e₀) ≡ tss_address)
      × (segment_limit (get_or gdt 5 e₀) ≡ (tss_address + 104) % 2 ^ 20)
      × (tss.ss0 ≡ 0x10)
      × (tss.esp0 ≡ stack)
unfolding gdt_init gdt_set_segment gdt_load tss_init initial_tss
gdt_init_lem gdt_address tss_address stack e₀ e₁ e₂ e₃ e₄ e₅ small fits =
    let (base, limit) =
      make_entry_lem tss_address (u32 (tss_address + 104)) 0x69 0x4 (omega arith) in
    let gdt =
      null_entry
      ∷ make_entry 0 0xffffffff 0x1a 0xc
      ∷ make_entry 0 0xffffffff 0x12 0xc
      ∷ make_entry 0 0xffffffff 0x7a 0xc
      ∷ make_entry 0 0xffffffff 0x72 0xc
      ∷ make_entry tss_address (u32 (tss_address + 104)) 0x69 0x4
      ∷ [] in
    let tss = initial_tss 0x10 stack in
    let whole : u32 gdt_address ≡ gdt_address = omega arith in
    (
      gdt,
      tss,
      ap (λ (a : ℕ). done (gdt, tss, record { size = 47; address = a }, 0x2b)) whole,
      refl,
      flat 0x1a 0 refl,
      flat 0x12 0 refl,
      flat 0x7a 3 refl,
      flat 0x72 3 refl,
      base,
      omega (arith, limit),
      refl,
      refl,
    )
