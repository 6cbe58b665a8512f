-- ===== src/Gdt.antt =====
-- kernel/gdt.c, kernel/tss.c and their headers: the segment descriptors and the task state.
-- The addresses of the tables and of the kernel's stack, which the linker sets, are parameters.
pub mod Laws
use leoman.Base.{ℕ, ◌+◌, ◌-◌, ◌*◌, ◌%◌, bit_and, bit_or, List, [], ◌∷◌}
use leoman.Base.{leb, if◌then◌else◌, u8, u16, u32, shr, set, Run, done, fault, ◌>>=◌}

abbrev pub segnum : ℕ
segnum = 0x6

-- `sizeof(struct gdt_entry)`
abbrev pub sizeof_gdt_entry : ℕ
sizeof_gdt_entry = 8

abbrev pub seg_kcode : ℕ
seg_kcode = 0x1 * sizeof_gdt_entry

abbrev pub seg_kdata : ℕ
seg_kdata = 0x2 * sizeof_gdt_entry

abbrev pub seg_tss : ℕ
seg_tss = bit_or (0x5 * sizeof_gdt_entry) 3

-- The bits of the access byte and of the granularity byte, `GDTE_X` and so on.
abbrev pub gdte_x : ℕ
gdte_x = 0x8

abbrev pub gdte_w : ℕ
gdte_w = 0x2

abbrev pub gdte_r : ℕ
gdte_r = 0x2

abbrev pub gdte_a : ℕ
gdte_a = 0x1

abbrev pub gdte_tss : ℕ
gdte_tss = 0x0

abbrev pub gdte_not_tss : ℕ
gdte_not_tss = 0x10

abbrev pub gdte_dpl_kernel : ℕ
gdte_dpl_kernel = 0x00

abbrev pub gdte_dpl_user : ℕ
gdte_dpl_user = 0x60

abbrev pub gdte_present : ℕ
gdte_present = 0x80

abbrev pub gdte_32_bit : ℕ
gdte_32_bit = 0x4

abbrev pub gdte_byte_gran : ℕ
gdte_byte_gran = 0x0

abbrev pub gdte_page_gran : ℕ
gdte_page_gran = 0x8

-- `struct gdt_entry`, with the widths 16, 16, 8, 8, 4, 4 and 8.
pub record GdtEntry : Type 0 where
  pub limit_low : ℕ
  pub base_low : ℕ
  pub base_mid : ℕ
  pub access : ℕ
  pub limit_high : ℕ
  pub flags : ℕ
  pub base_high : ℕ

abbrev pub null_entry : GdtEntry
null_entry = record {
  limit_low = 0;
  base_low = 0;
  base_mid = 0;
  access = 0;
  limit_high = 0;
  flags = 0;
  base_high = 0;
}

-- The fields that `gdt_set_segment` writes; `access` and `flags` are bytes.
unfoldable pub make_entry : ℕ → ℕ → ℕ → ℕ → GdtEntry
make_entry base limit access flags = record {
  limit_low = bit_and limit 0xffff;
  base_low = bit_and base 0xffff;
  base_mid = bit_and (shr base 16) 0xff;
  access = u8 (bit_or gdte_present access);
  limit_high = bit_and (shr limit 16) 0xf;
  flags = flags % 16;
  base_high = bit_and (shr base 24) 0xff;
}

unfoldable pub gdt_set_segment : ℕ → ℕ → ℕ → ℕ → ℕ → List GdtEntry → Run (List GdtEntry)
unfolding make_entry
gdt_set_segment idx base limit access flags gdt =
    if leb segnum idx then fault else done (set gdt idx (make_entry base limit access flags))

-- `struct gdt_ptr`, and what `gdt_load` loads.
pub record GdtPtr : Type 0 where
  pub size : ℕ
  pub address : ℕ

unfoldable pub gdt_load : ℕ → ℕ → GdtPtr
gdt_load base size = record { size = u16 (size - 1); address = u32 base }

-- `struct tss_entry`
pub record TssEntry : Type 0 where
  pub prev_tss : ℕ
  pub esp0 : ℕ
  pub ss0 : ℕ
  pub esp1 : ℕ
  pub ss1 : ℕ
  pub esp2 : ℕ
  pub ss2 : ℕ
  pub cr3 : ℕ
  pub eip : ℕ
  pub eflags : ℕ
  pub eax : ℕ
  pub ecx : ℕ
  pub edx : ℕ
  pub ebx : ℕ
  pub esp : ℕ
  pub ebp : ℕ
  pub esi : ℕ
  pub edi : ℕ
  pub es : ℕ
  pub cs : ℕ
  pub ss : ℕ
  pub ds : ℕ
  pub fs : ℕ
  pub gs : ℕ
  pub ldt : ℕ
  pub trap : ℕ
  pub iomap_base : ℕ

-- `sizeof(tss)`
abbrev pub sizeof_tss : ℕ
sizeof_tss = 104

unfoldable pub tss_set_ss : ℕ → TssEntry → TssEntry
tss_set_ss ss tss = record tss { ss0 = ss }

unfoldable pub tss_set_esp : ℕ → TssEntry → TssEntry
tss_set_esp esp tss = record tss { esp0 = esp }

-- The task state that `tss_init` leaves: it is cleared and then given its stack and segments.
unfoldable pub initial_tss : ℕ → ℕ → TssEntry
initial_tss ss esp = record {
  prev_tss = 0;
  esp0 = esp;
  ss0 = ss;
  esp1 = 0;
  ss1 = 0;
  esp2 = 0;
  ss2 = 0;
  cr3 = 0;
  eip = 0;
  eflags = 0;
  eax = 0;
  ecx = 0;
  edx = 0;
  ebx = 0;
  esp = 0;
  ebp = 0;
  esi = 0;
  edi = 0;
  es = bit_or seg_kdata 3;
  cs = bit_or seg_kcode 3;
  ss = bit_or seg_kdata 3;
  ds = bit_or seg_kdata 3;
  fs = bit_or seg_kdata 3;
  gs = bit_or seg_kdata 3;
  ldt = 0;
  trap = 0;
  iomap_base = 0;
}

-- `address` is that of the task state.
unfoldable pub tss_init : ℕ → ℕ → ℕ → List GdtEntry → Run (List GdtEntry × TssEntry)
unfolding gdt_set_segment initial_tss
tss_init address ss esp gdt = do
  gdt' ←
      gdt_set_segment 0x5 address (u32 (address + sizeof_tss))
        (bit_or (bit_or (bit_or gdte_dpl_user gdte_x) gdte_a) gdte_tss)
        (bit_or gdte_byte_gran gdte_32_bit) gdt
  done (gdt', initial_tss ss esp)

-- The flat segments, the task state's segment, and what is loaded: the table's bounds and the task
-- register. The reload of the segment registers is assembly.
unfoldable pub gdt_init : ℕ → ℕ → ℕ → List GdtEntry → Run (List GdtEntry × TssEntry × GdtPtr × ℕ)
unfolding gdt_set_segment gdt_load tss_init
gdt_init gdt_address tss_address kernel_stack_top gdt = do
  kcode ←
      gdt_set_segment 0x1 0x0 0xffffffff
        (bit_or (bit_or (bit_or gdte_dpl_kernel gdte_x) gdte_w) gdte_not_tss)
        (bit_or gdte_page_gran gdte_32_bit) (set gdt 0x0 null_entry)
  kdata ←
      gdt_set_segment 0x2 0x0 0xffffffff (bit_or (bit_or gdte_dpl_kernel gdte_r) gdte_not_tss)
        (bit_or gdte_page_gran gdte_32_bit) kcode
  ucode ←
      gdt_set_segment 0x3 0x0 0xffffffff
        (bit_or (bit_or (bit_or gdte_dpl_user gdte_x) gdte_w) gdte_not_tss)
        (bit_or gdte_page_gran gdte_32_bit) kdata
  udata ←
      gdt_set_segment 0x4 0x0 0xffffffff (bit_or (bit_or gdte_dpl_user gdte_r) gdte_not_tss)
        (bit_or gdte_page_gran gdte_32_bit) ucode
  (gdt', tss) ← tss_init tss_address seg_kdata kernel_stack_top udata
  done (gdt', tss, gdt_load gdt_address (segnum * sizeof_gdt_entry), seg_tss)
