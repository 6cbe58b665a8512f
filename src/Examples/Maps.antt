-- ===== src/Examples/Maps.antt =====
-- The memory map of a small machine: the memory below 640 KiB, and some from 960 KiB on.
use leoman.Base.{
  ℕ, zero, suc, ◌+◌, ◌-◌, ◌*◌, ◌/◌, ◌≤◌, ◌<◌, ◌≡◌, ◌≢◌, refl, arith, false, ◌==◌, ltb, done,
  if◌then◌else◌,
}
use leoman.Bootinfo.{MemoryMapEntry}
use leoman.MemoryMap.{MemoryMap, kernentry, fits, reserve_loop, merge_at}
use leoman.MemoryMap.Split.{IsInside}
use leoman.MemoryMap.Layout.{IsSplit}
use leoman.MemoryMap.Reserve.{reserve_loop_lem}
use leoman.MemoryMap.Merge.{added, merge_at_lem}

abbrev region : ℕ → ℕ → ℕ → MemoryMapEntry
region base len type = record {
  base_low = base;
  base_high = 0;
  len_low = len;
  len_high = 0;
  type = type;
  acpi_ext = 0;
}

abbrev memory : MemoryMap
memory i =
    if i == 0
    then region 0 0x9fc00 1
    else (if i == 1 then region 0xf0000 0x7ef0000 1 else region 0 0 0)

abbrev kern : MemoryMapEntry
kern = kernentry 0x100000 0x10000

kern-IsInside : IsInside kern (memory 1)
unfolding kernentry
kern-IsInside = record {
  available = refl;
  starts = omega arith;
  near = omega arith;
  base-lt = omega arith;
  words = omega arith;
  len-lt = omega arith;
  room = omega arith;
}

no_other : (j : ℕ) → j < 61 → j ≢ 1 → fits kern (memory j) ≡ false
unfolding fits kernentry
no_other zero l ne = refl
no_other (suc zero) l ne = absurd (ne refl)
no_other (suc (suc j)) l ne = ground arith

reserve_loop_example :
    (post : MemoryMapEntry) × (post.type ≡ 1)
    × (post.base_low ≡ kern.base_low + 4 * kern.len_low)
    × (post.len_low ≡ 0x7ef0000 - kern.len_low - (kern.base_low - 0xf0000) / 4)
    × IsSplit
        (ltb 0xf0000 kern.base_low)
        (ltb (kern.len_low + (kern.base_low - 0xf0000) / 4) 0x7ef0000)
        1
        (region 0xf0000 ((kern.base_low - 0xf0000) / 4) 1)
        kern
        post
        memory
        (reserve_loop 61 kern 0 memory)
unfolding kernentry
reserve_loop_example =
    reserve_loop_lem kern memory 1 (omega arith) (omega arith) kern-IsInside no_other

merge_at_example :
    (map' : MemoryMap) × (merge_at 3 0 memory ≡ done map')
    × (map' 0 ≡ region 0 (added 1 1 0x9fc00 memory) 1)
    × ((k : ℕ) → 0 < k → k < 63 → map' k ≡ memory (k + 1))
    × ((k : ℕ) → k < 0 → map' k ≡ memory k)
    × ((k : ℕ) → 0 < k → 63 ≤ k → map' k ≡ memory k)
merge_at_example =
    merge_at_lem 0 3 0 memory (omega arith) (omega arith) (λ e. omega arith) (λ k l. ground arith)
      (λ e. omega arith)
