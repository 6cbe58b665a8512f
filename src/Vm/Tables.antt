-- ===== src/Vm/Tables.antt =====
-- kernel/vm.c: entries with their flags, and a new page table out of the page pool.
use leoman.Base.{ℕ, ◌+◌, ◌*◌, ◌/◌, ◌%◌, ◌^◌, ◌<◌, ◌≡◌, ◌≢◌, refl, sym, ap, ◌∙◌, arith, inl, inr}
use leoman.Base.{
  bit_and, bit_or, true, false, ◌==◌, if◌then◌else◌, Run, done, ◌>>=◌, List, Option, ℕ_discrete,
}
use leoman.Base.Bits.{bit-bit_or, bit_or-lt}
use leoman.Base.Bits.Masks.{bit_and-low_mask}
use leoman.Base.Bits.Fields.{bit_or-parts, bit_or-zero}
use leoman.Address.{v2p}
use leoman.Pm.{pm_alloc}
use leoman.Pm.Bitmap.{used, page_at, Marks}
use leoman.Pm.Laws.{pm_alloc_lem, pm_alloc-IsValid, page_at-injective}
use leoman.Vm.Mmu.{Vm, frame, is_present, word_at, pde, poke, vstore}
use leoman.Vm.Window.{IsSelfMapped, vstore-pde_address, vstore-pte_address}
use leoman.Vm.Space.{IsPaged, IsTable, enter}
use leoman.Vm.{pde_address, pte_address, address_of}

-- Flags are added below the frame.
pub frame-bit_or : (a f : ℕ) → f < 4096 → frame (bit_or a f) ≡ frame a
frame-bit_or a f h =
    let low : bit_or (a % 4096) f < 4096 = bit_or-lt 12 (a % 4096) f (omega arith) h in
    let whole : a / 4096 * 4096 + a % 4096 ≡ a = omega arith in
    let none_above : 0 * 4096 + f ≡ f = omega arith in
    omega (
      arith,
      low,
      bit_or-parts 12 (a / 4096) 0 (a % 4096) f (omega arith) h,
      bit_or-zero (a / 4096),
      ap (λ (x : ℕ). bit_or x (0 * 4096 + f)) whole,
      ap (λ (x : ℕ). bit_or a x) none_above,
    )

pub is_present-bit_or : (a f : ℕ) → f % 2 ≡ 1 → is_present (bit_or a f) ≡ true
is_present-bit_or a f h =
    let e : bit_or a f % 2 ≡ 1 = omega (arith, bit-bit_or a f 0) in ground arith

pub bit_and-present : (a : ℕ) → (bit_and a 1 == 0) ≡ (if is_present a then false else true)
bit_and-present a = let e = bit_and-low_mask 1 a in ground arith

-- Both writes of `map_page` together.
pub two_stores :
    (m : Vm) (v d t : ℕ)
    → IsSelfMapped m
    → v < 2 ^ 32
    → v / 2 ^ 22 ≢ 1023
    → is_present d ≡ true
    → (vstore (pde_address v) d m >>= λ m'. vstore (pte_address v) t m')
      ≡ done (enter (v / 2 ^ 22) (v / 2 ^ 12 % 1024) d t m)
unfolding enter
two_stores m v d t self l window present =
    let i = v / 2 ^ 22 in
    let m' = poke (word_at (frame m.cr3) i) d m in
    let here : pde m' i ≡ d = unfold pde poke in ground arith in
    let last : pde m' 1023 ≡ pde m 1023 = unfold pde poke in ground arith in
    let same : frame m'.cr3 ≡ frame m.cr3 = unfold poke in refl in
    let self' : IsSelfMapped m' = record {
      present = ap (λ (e : ℕ). is_present e) last ∙ self.present;
      itself = ap (λ (e : ℕ). frame e) last ∙ (self.itself ∙ sym same);
    } in
    ap (λ (r : Run Vm). r >>= λ n. vstore (pte_address v) t n) (vstore-pde_address m v d self l)
    ∙ (vstore-pte_address m' v t self' l (ap (λ (e : ℕ). is_present e) here ∙ present)
        ∙ ap (λ (e : ℕ). done (poke (word_at (frame e) (v / 2 ^ 12 % 1024)) t m')) here)

frame-page_at : (pool p : ℕ) → pool % 4096 ≡ 0 → frame (page_at pool p) * 4096 ≡ page_at pool p
unfolding page_at v2p
frame-page_at pool p h = omega arith

frame_determines :
    (pool p q : ℕ)
    → pool % 4096 ≡ 0
    → frame (page_at pool p) ≡ frame (page_at pool q)
    → page_at pool p ≡ page_at pool q
frame_determines pool p q h e = omega (arith, frame-page_at pool p h, frame-page_at pool q h, e)

free_before :
    (words words' : List ℕ) (page : ℕ)
    → Marks words words' page 1
    → (q : ℕ) → used words' q ≡ 0
    → (used words q ≡ 0) × (q ≢ page)
free_before words words' page marks q free = elim (ℕ_discrete q page) [
  | yes e ↦ absurd (omega (arith, marks.taken q (omega arith) (omega arith), free))
  | no ne ↦ (omega (arith, marks.others q (omega arith), free), ne)
]

-- After an allocation that found a page, the pool is as valid, the free pages were free before, and
-- the page found is none of the free ones and of no table.
pub alloc-IsTable :
    (m : Vm) (free : ℕ)
    → IsPaged m
    → free < 2 ^ 20
    → used m.pm.bitmap free ≡ 0
    → let m' = record m { pm = (pm_alloc m.pm).1 } in
      IsPaged m'
      × ((i f : ℕ)
          → i < 1023
          → f < 4096
          → f % 2 ≡ 1
          → IsTable m' i (bit_or (address_of (pm_alloc m.pm).0) f))
unfolding pde
alloc-IsTable m free paged l is_free = elim (pm_alloc_lem m.pm paged.pool) [
  | inl (_, full) ↦
      let size = paged.pool.size in absurd (omega (arith, full free (omega arith), is_free))
  | inr (page, found, marks, below, same) ↦
      let size = paged.pool.size in
      let range = marks.in_range in
      let still_free = free_before m.pm.bitmap (pm_alloc m.pm).1.bitmap page marks in
      (
        record {
          self = record { present = paged.self.present; itself = paged.self.itself };
          distinct = paged.distinct;
          pool = pm_alloc-IsValid m.pm paged.pool;
          taken =
              λ i q li there lq free'. rw same (paged.taken i q li there lq (still_free q free').0);
        },
        λ i f li lf odd.
            let found_frame : frame (bit_or (address_of (pm_alloc m.pm).0) f)
                ≡ frame (page_at m.pm.page_pool page) =
              frame-bit_or (address_of (pm_alloc m.pm).0) f lf
              ∙ ap (λ (o : Option ℕ). frame (address_of o)) found in
            record {
              present = is_present-bit_or (address_of (pm_alloc m.pm).0) f odd;
              unshared = λ k lk ne there e.
                  paged.taken k page lk there (omega arith)
                    (marks.free page (omega arith) (omega arith)) (sym e ∙ found_frame);
              taken = λ q lq free' e. (still_free q free').1 (
                  page_at-injective m.pm.page_pool q page lq (omega arith) (
                    frame_determines m.pm.page_pool q page paged.pool.pool_aligned
                      (ap (λ (x : ℕ). frame (page_at x q)) (sym same) ∙ (sym e ∙ found_frame))));
            },
      )
]
