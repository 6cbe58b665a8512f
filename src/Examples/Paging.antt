-- ===== src/Examples/Paging.antt =====
-- The address space of a small machine: the directory and one table stand in the first two pages of
-- the pool, and the third, which is free, holds a word that looks like a mapping.
use leoman.Base.{ℕ, zero, suc, ◌+◌, ◌*◌, ◌/◌, ◌^◌, ◌≤◌, ◌<◌, ◌≡◌, ◌≢◌, refl, ap, arith, ◌⊎◌}
use leoman.Base.{true, ◌∷◌, replicate, length-replicate, ◌==◌, if◌then◌else◌, done, fault, bit_or}
use leoman.Address.{v2p}
use leoman.Pm.{Pm, pm_alloc, alloc_words, find_clear, page_address}
use leoman.Pm.Bitmap.{used, page_at}
use leoman.Pm.Laws.{IsValid}
use leoman.Pm.Init.{replicate-AreWords}
use leoman.Vm.Mmu.{Vm, frame, is_present, pde, pte, translate}
use leoman.Vm.Space.{IsPaged}
use leoman.Vm.{map_page, map_pages, unmap_page, vm_get_phys_mapping}
use leoman.Vm.Map.{IsMapped, map_page_lem}
use leoman.Vm.Lookup.{vm_get_phys_mapping-map_page, unmap_page_lem, map_page_uncleared}
use leoman.Vm.Range.{map_pages_lem}

abbrev pages : Pm
pages = record { bitmap = 3 ∷ replicate 32767 0; page_pool = 0xe0100000 }

abbrev pub words : ℕ → ℕ
words n =
    if n == 263167
    then 0x100003
    else if n == 262144
    then 0x101003
    else if n == 263173
    then 0x5003
    else if n == 264199
    then 0x7003
    else 0

abbrev pub space : Vm
space = record { memory = words; cr3 = 0x100000; pm = pages }

pages-IsValid : IsValid pages
pages-IsValid = record {
  size = ap suc (length-replicate {A = ℕ} 32767 0);
  are_words = (omega arith, replicate-AreWords 32767);
  pool-lt = omega arith;
  pool_aligned = omega arith;
}

entries :
    (i : ℕ)
    → i < 1024
    → is_present (pde space i) ≡ true
    → ((i ≡ 0) × (frame (pde space i) ≡ 257)) ⊎ ((i ≡ 1023) × (frame (pde space i) ≡ 256))
unfolding pde
entries i l there = ground arith

page_at_0 : page_at pages.page_pool 0 ≡ 0x100000
unfolding page_at v2p
page_at_0 = refl

page_at_1 : page_at pages.page_pool 1 ≡ 0x101000
unfolding page_at v2p
page_at_1 = refl

used_0 : used pages.bitmap 0 ≡ 1
unfolding used
used_0 = refl

used_1 : used pages.bitmap 1 ≡ 1
unfolding used
used_1 = refl

free_elsewhere :
    (q : ℕ)
    → q < 2 ^ 20
    → used pages.bitmap q ≡ 0
    → (frame (page_at pages.page_pool q) ≢ 256) × (frame (page_at pages.page_pool q) ≢ 257)
unfolding page_at v2p
free_elsewhere zero l free = absurd (omega (arith, free, used_0))
free_elsewhere (suc zero) l free = absurd (omega (arith, free, used_1))
free_elsewhere (suc (suc q)) l free = (λ e. omega arith, λ e. omega arith)

space-IsPaged : IsPaged space
space-IsPaged = record {
  self = record { present = unfold pde in refl; itself = unfold pde in refl };
  distinct =
      λ i j li lj ne there there' same. ground (arith, entries i li there, entries j lj there');
  pool = pages-IsValid;
  taken = λ i q li there lq free same. ground (arith, entries i li there, free_elsewhere q lq free);
}

map_page_example :
    (m' : Vm) × (map_page 0x9000 0x6000 4 space ≡ done m')
    × IsMapped space m' 0x6000 0x9000 (bit_or 4 3)
unfolding translate pde pte used
map_page_example =
    map_page_lem space 0x6000 0x9000 4 2 space-IsPaged (omega arith) (omega arith) (omega arith)
      (omega arith) refl (omega arith) refl

vm_get_phys_mapping_example :
    (m' : Vm) × (map_page 0x9000 0x6000 4 space ≡ done m')
    × (vm_get_phys_mapping 0x6abc m' ≡ done 0x9abc)
    × (translate m' 0x6abc ≡ done 0x9abc)
unfolding translate pde pte used
vm_get_phys_mapping_example =
    vm_get_phys_mapping-map_page space 0x6000 0x9000 4 2 0x6abc space-IsPaged (omega arith)
      (omega arith) (omega arith) (omega arith) refl (omega arith) refl (omega arith) (omega arith)

unmap_page_example :
    (m' : Vm) × (unmap_page 0x5123 space ≡ done m')
    × IsPaged m'
    × ((w : ℕ) → w / 2 ^ 12 ≡ 5 → translate m' w ≡ fault)
    × ((w : ℕ)
        → w < 2 ^ 32
        → w / 2 ^ 22 ≢ 1023
        → w / 2 ^ 12 ≢ 5
        → translate m' w ≡ translate space w)
unfolding translate pde pte
unmap_page_example =
    unmap_page_lem space 0x5123 0x5123 space-IsPaged (omega arith) (omega arith) refl

map_page_uncleared_example :
    (translate space 0x407123 ≡ fault)
    × ((m' : Vm) × (map_page 0x9000 0x400000 4 space ≡ done m')
        × (translate m' 0x407123 ≡ done 0x7123))
unfolding translate pde pte used pm_alloc alloc_words find_clear page_address v2p
map_page_uncleared_example =
    map_page_uncleared space 0x400000 0x407123 0x9000 4 2 0x102000 space-IsPaged (omega arith)
      (omega arith) (omega arith) (omega arith) refl (omega arith) refl refl refl (omega arith) refl

unmapped : (k : ℕ) → k * 4096 < 0x2800 → translate space (0x8000 + k * 4096) ≡ fault
unfolding translate pde pte
unmapped zero l = refl
unmapped (suc zero) l = refl
unmapped (suc (suc zero)) l = refl
unmapped (suc (suc (suc k))) l = absurd (omega arith)

map_pages_example :
    (m' : Vm) × (map_pages 0x20000 0x8000 4 0x2800 space ≡ done m')
    × IsPaged m'
    × ((o : ℕ) → o < 0x2800 → translate m' (0x8000 + o) ≡ done (0x20000 + o))
    × ((w : ℕ)
        → w < 2 ^ 32
        → w / 2 ^ 22 ≢ 1023
        → (w / 4096 < 8) ⊎ (0x8000 + 0x2800 ≤ w / 4096 * 4096)
        → translate m' w ≡ translate space w)
unfolding pde
map_pages_example =
    map_pages_lem space 0x8000 0x20000 4 0x2800 space-IsPaged (omega arith) (omega arith)
      (omega arith) (omega arith) (omega arith) (omega arith) refl unmapped
