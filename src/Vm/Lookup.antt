-- ===== src/Vm/Lookup.antt =====
-- kernel/vm.c: looking a mapping up, mapping a page again, unmapping it, and what a new table holds.
use leoman.Base.{ℕ, ◌+◌, ◌*◌, ◌/◌, ◌%◌, ◌^◌, ◌-◌, ◌<◌, ◌≡◌, ◌≢◌, refl, sym, ap, ◌∙◌, arith}
use leoman.Base.{bit_and, bit_or, true, false, ◌==◌, done, fault, ◌>>=◌, u32, not32}
use leoman.Base.{Option, some, u32}
use leoman.Base.Bits.{bit-bit_or, bit_or-lt}
use leoman.Base.Bits.Masks.{bit_and-low_mask, bit_and-shl}
use leoman.Base.Bits.Fields.{bit_or-parts, zero-bit_or, bit_or-zero}
use leoman.Address.{paligndown, paligndown_lem}
use leoman.Pm.{pm_alloc}
use leoman.Pm.Bitmap.{used}
use leoman.Vm.Mmu.{Vm, frame, is_present, word_at, pde, pte, translate, vload}
use leoman.Vm.Window.{translate-present, vload-pte_address}
use leoman.Vm.Space.{IsPaged, enter, pte-enter, apart, this_entry}
use leoman.Vm.Tables.{frame-bit_or, alloc-IsTable}
use leoman.Vm.Unmap.{unmap_page-IsUnmapped}
use leoman.Vm.Map.{map_page_lem, done_cases, new_table_run}
use leoman.Vm.{pte_address, address_of, map_page, unmap_page, vm_get_phys_mapping}

-- Looking up an address whose page is mapped, with the two highest bits of the entry's flags clear.
lookup :
    (m : Vm) (v a : ℕ)
    → IsPaged m
    → v < 2 ^ 32
    → a < 2 ^ 32
    → translate m v ≡ done a
    → pte m (pde m (v / 2 ^ 22)) (v / 2 ^ 12 % 1024) / 1024 % 4 ≡ 0
    → vm_get_phys_mapping v m ≡ done a
unfolding vm_get_phys_mapping
lookup m v a paged lv la hit clear =
    let v₀ = paligndown v in
    let aligned = paligndown_lem v lv in
    let (there, _, whole) = done_cases m v a hit in
    let i : v₀ / 2 ^ 22 ≡ v / 2 ^ 22 = omega (arith, aligned) in
    let j : v₀ / 2 ^ 12 % 1024 ≡ v / 2 ^ 12 % 1024 = omega (arith, aligned) in
    let e = pte m (pde m (v / 2 ^ 22)) (v / 2 ^ 12 % 1024) in
    let loaded : vload (pte_address v₀) m ≡ done e =
      vload-pte_address m v₀ paged.self (omega (arith, aligned))
        (ap (λ (k : ℕ). is_present (pde m k)) i ∙ there)
      ∙ (ap (λ (k : ℕ). done (pte m (pde m k) (v₀ / 2 ^ 12 % 1024))) i
          ∙ ap (λ (k : ℕ). done (pte m (pde m (v / 2 ^ 22)) k)) j) in
    ap (λ r. r >>= λ x. done (u32 (bit_and x (not32 0x3ff) + bit_and v 0xfff))) loaded
    ∙ ap done (
        omega (
          arith,
          bit_and-shl e (2 ^ 22 - 1) 10,
          bit_and-low_mask 22 (e / 2 ^ 10),
          bit_and-low_mask 12 v,
          whole,
          clear,
        ))

-- Flags below 2 ^ 10 leave the two highest bits of an entry's flags clear.
flags_clear : (p f : ℕ) → f < 1024 → bit_or (p / 4096 * 4096) f / 1024 % 4 ≡ 0
flags_clear p f l = omega (
  arith,
  bit_or-parts 10 (p / 4096 * 4) 0 0 f (omega arith) l,
  bit_or-zero (p / 4096 * 4),
  zero-bit_or f,
  ap (λ (x : ℕ). bit_or x (0 * 1024 + f)) (regroup (p / 4096)),
  ap (λ (x : ℕ). bit_or (p / 4096 * 4096) x) (no_high f),
)
  where
    regroup : (q : ℕ) → q * 4 * 1024 + 0 ≡ q * 4096
    regroup q = omega arith

    no_high : (f : ℕ) → 0 * 1024 + f ≡ f
    no_high f = omega arith

-- In a well-formed address space with a free page in the pool, after a page outside of the window
-- that was not mapped is mapped with flags below 2 ^ 10, vm_get_phys_mapping of any address in it
-- returns the physical address with its offset, which is where the processor translates it to.
pub vm_get_phys_mapping-map_page :
    (m : Vm) (v p flags free w : ℕ)
    → IsPaged m
    → v < 2 ^ 32
    → v / 2 ^ 22 ≢ 1023
    → p < 2 ^ 32
    → flags < 1024
    → translate m v ≡ fault
    → free < 2 ^ 20
    → used m.pm.bitmap free ≡ 0
    → w < 2 ^ 32
    → w / 4096 ≡ v / 4096
    → (m' : Vm) × (map_page p v flags m ≡ done m')
      × (vm_get_phys_mapping w m' ≡ done (p / 4096 * 4096 + w % 4096))
      × (translate m' w ≡ done (p / 4096 * 4096 + w % 4096))
vm_get_phys_mapping-map_page m v p flags free w paged lv window lp lf unmapped l is_free lw same =
    let (m', ran, h) =
      map_page_lem m v p flags free paged lv window lp (omega arith) unmapped l is_free in
    let i : w / 2 ^ 22 ≡ v / 2 ^ 22 = omega arith in
    let j : w / 2 ^ 12 % 1024 ≡ v / 2 ^ 12 % 1024 = omega arith in
    let hit = h.mapped w same in
    let clear : pte m' (pde m' (w / 2 ^ 22)) (w / 2 ^ 12 % 1024) / 1024 % 4 ≡ 0 =
      rw (i, j, h.entry) (flags_clear p (bit_or flags 3) (bit_or-lt 10 flags 3 lf (omega arith))) in
    (m', ran, lookup m' w _ h.paged lw (omega arith) hit clear, hit)

-- In a well-formed address space, unmapping a mapped page outside of the window returns: no
-- address in it translates any more, the space is well formed, and every other page outside of
-- the window translates as before.
pub unmap_page_lem :
    (m : Vm) (v a : ℕ)
    → IsPaged m
    → v < 2 ^ 32
    → v / 2 ^ 22 ≢ 1023
    → translate m v ≡ done a
    → (m' : Vm) × (unmap_page v m ≡ done m')
      × IsPaged m'
      × ((w : ℕ) → w / 2 ^ 12 ≡ v / 2 ^ 12 → translate m' w ≡ fault)
      × ((w : ℕ)
          → w < 2 ^ 32
          → w / 2 ^ 22 ≢ 1023
          → w / 2 ^ 12 ≢ v / 2 ^ 12
          → translate m' w ≡ translate m w)
unmap_page_lem m v a paged lv window hit =
    let (m', ran, h) = unmap_page-IsUnmapped m v a paged lv window hit in
    (m', ran, h.paged, h.gone, h.others)

-- Mapping a page in a well-formed address space, outside of the window and with flags below 2 ^
-- 12, whose table is not there, with a page that the pool gives, also maps every other page of
-- the table's range outside of it whose word in the new table happened to be odd, which did not
-- translate before.
pub map_page_uncleared :
    (m : Vm) (v w p flags free page : ℕ)
    → IsPaged m
    → v < 2 ^ 32
    → v / 2 ^ 22 ≢ 1023
    → p < 2 ^ 32
    → flags < 4096
    → is_present (pde m (v / 2 ^ 22)) ≡ false
    → free < 2 ^ 20
    → used m.pm.bitmap free ≡ 0
    → (pm_alloc m.pm).0 ≡ some page
    → w / 2 ^ 22 ≡ v / 2 ^ 22
    → w / 2 ^ 12 ≢ v / 2 ^ 12
    → is_present (m.memory (word_at (frame page) (w / 2 ^ 12 % 1024))) ≡ true
    → (translate m w ≡ fault)
      × ((m' : Vm) × (map_page p v flags m ≡ done m')
          × (translate m' w
              ≡ done
                  (frame (m.memory (word_at (frame page) (w / 2 ^ 12 % 1024))) * 4096 + w % 4096)))
unfolding map_page translate
map_page_uncleared m v w p flags free page paged lv window lp lf absent l is_free found i other
      odd_word =
    let v₀ = v / 4096 * 4096 in
    let i₀ : v₀ / 2 ^ 22 ≡ v / 2 ^ 22 = omega arith in
    let slot = w / 2 ^ 12 % 1024 in
    let f = bit_or flags 3 in
    let lf' : f < 4096 = bit_or-lt 12 flags 3 lf (omega arith) in
    let odd : f % 2 ≡ 1 = omega (arith, bit-bit_or flags 3 0) in
    let m₁ : Vm = record m { pm = (pm_alloc m.pm).1 } in
    let d = bit_or (address_of (pm_alloc m.pm).0) f in
    let t = bit_or (p / 4096 * 4096) f in
    let (paged', tables) = alloc-IsTable m free paged l is_free in
    let ok = tables (v₀ / 2 ^ 22) f (omega arith) lf' odd in
    let lj : v₀ / 2 ^ 12 % 1024 < 1024 = omega arith in
    let m' = enter (v₀ / 2 ^ 22) (v₀ / 2 ^ 12 % 1024) d t m₁ in
    let below = this_entry (v₀ / 2 ^ 22) (v₀ / 2 ^ 12 % 1024) d t m₁ paged' (omega arith) lj ok in
    let step =
      pte-enter (v₀ / 2 ^ 22) (v₀ / 2 ^ 12 % 1024) d t d slot m₁ (omega arith) lj (omega arith)
        (apart (v₀ / 2 ^ 22) d m₁ paged' (omega arith) ok) in
    let not_this : (slot == v₀ / 2 ^ 12 % 1024) ≡ false = ground arith in
    let frame_d : frame d ≡ frame page =
      frame-bit_or (address_of (pm_alloc m.pm).0) f lf'
      ∙ ap (λ (o : Option ℕ). frame (address_of o)) found in
    let garbage = m.memory (word_at (frame page) slot) in
    let entry : pte m' (pde m' (w / 2 ^ 22)) slot ≡ garbage =
      ap (λ (k : ℕ). pte m' (pde m' k) slot) (i ∙ sym i₀)
      ∙ (ap (λ (e : ℕ). pte m' e slot) below
          ∙ (step
              ∙ (ground (arith, not_this)
                  ∙ (unfold pte in ap (λ (x : ℕ). m.memory (word_at x slot)) frame_d)))) in
    let there : is_present (pde m' (w / 2 ^ 22)) ≡ true =
      ap (λ (k : ℕ). is_present (pde m' k)) (i ∙ sym i₀)
      ∙ (ap (λ (e : ℕ). is_present e) below ∙ ok.present) in
    (
      rw (i, absent),
      (
        m',
        rw (paligndown_lem p lp, paligndown_lem v lv)
            (new_table_run m v₀ p f paged (omega arith) (λ e. window (omega arith)) lf' odd free
              (ap (λ (k : ℕ). is_present (pde m k)) i₀ ∙ absent) l is_free),
        translate-present m' w (w / 2 ^ 22) slot refl refl there
              (ap (λ (e : ℕ). is_present e) entry ∙ odd_word)
            ∙ ap (λ (e : ℕ). done (frame e * 4096 + w % 4096)) entry,
      ),
    )
