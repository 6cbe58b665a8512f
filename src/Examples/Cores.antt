-- ===== src/Examples/Cores.antt =====
-- A machine of two processors.
use leoman.Base.{ℕ, ◌≡◌, refl, arith, ◌==◌, if◌then◌else◌, Option, List, [], ◌∷◌, done}
use leoman.Smp.{Platform, search_for_mp_table, walk_entries}
use leoman.Smp.Search.{IsFirst, search_for_mp_table_lem}
use leoman.Smp.Walk.{MpEntry, cpu, device, cores_of, start_all, walk_entries_lem}

-- `_M_MP_` from 0x9fc10 on.
abbrev low_memory : ℕ → ℕ
low_memory a =
    if a == 0x9fc10
    then b'_'
    else if a == 0x9fc11
    then b'M'
    else if a == 0x9fc12
    then b'_'
    else if a == 0x9fc13
    then b'M'
    else if a == 0x9fc14
    then b'P'
    else if a == 0x9fc15
    then b'_'
    else 0

search_for_mp_table_example :
    (r : Option ℕ) × (search_for_mp_table (λ a. done (low_memory a)) 0x9fc00 0x400 ≡ done r)
    × IsFirst low_memory 0x9fc00 0x400 r
search_for_mp_table_example =
    search_for_mp_table_lem (λ a. done (low_memory a)) low_memory 0x100000 0x9fc00 0x400
      (λ a l. refl) (omega arith) (omega arith)

-- The first processor, a bus, and another processor.
abbrev table : ℕ → ℕ
table a = if a == 20 then 1 else (if a == 29 then 7 else 0)

abbrev listed : List MpEntry
listed = cpu 0 ∷ device 1 ∷ cpu 7 ∷ []

abbrev host : Platform
host = record {
  fuel = 3;
  pending = λ core message n. 0;
  seen = λ core n. 2;
  trampoline_start = 0x2000;
  trampoline_size = 200;
  kmain_secondary_cores = 0xe0101000;
}

walk_entries_example :
    walk_entries host (λ a. done (table a)) 0xfee00000 3 0 (record { stores = []; cores = 1 })
    ≡ start_all host 0xfee00000 (cores_of listed) (record { stores = []; cores = 1 })
walk_entries_example =
    walk_entries_lem host (λ a. done (table a)) table 0xfee00000 listed 0
      (record { stores = []; cores = 1 }) (λ a l. refl) (omega arith)
      ((refl, refl), ((omega arith, omega arith, refl), ((refl, refl), tt)))
