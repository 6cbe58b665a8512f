-- ===== src/Bootinfo.antt =====
-- include/kernel/common.h: `struct memory_map_entry`, an entry of the memory map that the boot
-- loader hands over.
use leoman.Base.{ℕ}

pub record MemoryMapEntry : Type 0 where
  pub base_low : ℕ
  pub base_high : ℕ
  pub len_low : ℕ
  pub len_high : ℕ
  pub type : ℕ
  pub acpi_ext : ℕ
