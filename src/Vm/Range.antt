-- ===== src/Vm/Range.antt =====
-- kernel/vm.c: mapping and allocating a range of pages under one page table.
use mathlib.Core.Path.{ap₂}
use leoman.Base.{
  ℕ_discrete, ◌-◌, ◌⊎◌, ℕ, zero, suc, ◌+◌, ◌*◌, ◌/◌, ◌%◌, ◌^◌, ◌≤◌, ◌<◌, ◌≡◌, ◌≢◌, refl, ap, ◌∙◌,
  inr, arith,
}
use leoman.Base.{bit_or, true, ◌==◌, done, fault, ◌>>=◌, u32, Sum-elim, Bool-cases, inl}
use leoman.Base.Bits.{bit-bit_or, bit_or-lt}
use leoman.Address.{paligndown, paligndown_lem}
use leoman.Vm.Mmu.{Vm, is_present, pde, pte, translate}
use leoman.Vm.Space.{IsPaged}
use leoman.Vm.Map.{IsMapped, in_table, same_page, fault_cases}
use leoman.Vm.{map_page, map_loop, map_pages, npages}

-- Mapping a page whose table is there takes no page from the pool.
pub map_page_in_table :
    (m : Vm) (v p flags : ℕ)
    → IsPaged m
    → v < 2 ^ 32
    → v / 2 ^ 22 ≢ 1023
    → p < 2 ^ 32
    → flags < 4096
    → is_present (pde m (v / 2 ^ 22)) ≡ true
    → translate m v ≡ fault
    → (m' : Vm) × (map_page p v flags m ≡ done m') × IsMapped m m' v p (bit_or flags 3)
unfolding map_page
map_page_in_table m v p flags paged lv window lp lf there unmapped =
    let v₀ = v / 4096 * 4096 in
    let i : v₀ / 2 ^ 22 ≡ v / 2 ^ 22 = omega arith in
    let j : v₀ / 2 ^ 12 % 1024 ≡ v / 2 ^ 12 % 1024 = omega arith in
    Sum-elim (fault_cases m v unmapped) (λ absent. absurd (cc (absent, there)))
      (λ entries.
        let (m', ran, mapped) =
          in_table m v₀ p (bit_or flags 3) paged (omega arith) (λ e. window (omega arith))
            (bit_or-lt 12 flags 3 lf (omega arith)) (omega (arith, bit-bit_or flags 3 0))
            (ap (λ (k : ℕ). is_present (pde m k)) i ∙ there)
            (ap₂ (λ (k n : ℕ). is_present (pte m (pde m k) n)) i j ∙ entries.1) in
        (
          m',
          rw (paligndown_lem p lp, paligndown_lem v lv) ran,
          same_page m m' v₀ v p (bit_or flags 3) (omega arith) mapped,
        ))

-- What mapping `n` pages from `v` on to those from `p` on makes of the space.
pub record IsRange (m m' : Vm) (n v p : ℕ) : Type 0 where
  pub paged : IsPaged m'
  pub mapped :
      (k o : ℕ) → k < n → o < 4096 → translate m' (v + k * 4096 + o) ≡ done (p + k * 4096 + o)
  pub others :
      (w : ℕ)
      → w < 2 ^ 32
      → w / 2 ^ 22 ≢ 1023
      → ((k : ℕ) → k < n → w / 4096 ≢ v / 4096 + k)
      → translate m' w ≡ translate m w

first_page :
    (m : Vm) (v p flags : ℕ) (n : ℕ)
    → IsPaged m
    → v / 2 ^ 22 < 1023
    → p + suc n * 4096 ≤ 2 ^ 32
    → flags < 4096
    → is_present (pde m (v / 2 ^ 22)) ≡ true
    → ((k : ℕ) → k < suc n → translate m (v + k * 4096) ≡ fault)
    → (m' : Vm) × (map_page p v flags m ≡ done m') × IsMapped m m' v p (bit_or flags 3)
first_page m v p flags n paged window small lf there unmapped =
    map_page_in_table m v p flags paged (omega arith) (λ e. omega arith) (omega arith) lf there
      (ap (translate m) (omega arith) ∙ unmapped 0 (omega arith))

empty-IsRange : (m : Vm) (v p : ℕ) → IsPaged m → IsRange m m 0 v p
empty-IsRange m v p paged = record {
  paged = paged;
  mapped = λ k o l. absurd (omega arith);
  others = λ w l outside ne. refl;
}

IsRange-suc :
    (m m₁ m' : Vm) (n v p f : ℕ)
    → v % 4096 ≡ 0
    → p % 4096 ≡ 0
    → v / 2 ^ 22 < 1023
    → v / 4096 % 1024 + suc n ≤ 1024
    → is_present (pde m (v / 2 ^ 22)) ≡ true
    → IsMapped m m₁ v p f
    → IsRange m₁ m' n (v + 4096) (p + 4096)
    → IsRange m m' (suc n) v p
IsRange-suc m m₁ m' n v p f av ap' window room there h rest = record {
  paged = rest.paged;
  mapped = λ k o lk lo. elim (ℕ_discrete k 0) [
    | yes first ↦
        let w : v + k * 4096 + o ≡ v + o = omega arith in
        let a : p / 4096 * 4096 + (v + o) % 4096 ≡ p + k * 4096 + o = omega arith in
        ap (translate m') w
        ∙ (rest.others (v + o) (omega arith) (λ e. omega arith) (λ i l e. omega arith)
            ∙ (h.mapped (v + o) (omega arith) ∙ ap done a))
    | no later ↦
        ap (translate m') (omega arith)
        ∙ (rest.mapped (k - 1) o (omega arith) lo ∙ ap done (omega arith))
  ];
  others = λ w l outside ne.
      rest.others w l outside (λ k lk e. ne (suc k) (omega arith) (omega arith))
      ∙ h.others w l outside (λ e. ne 0 (omega arith) (omega arith)) (inr there);
}

map_loop_lem :
    (n v p flags : ℕ) (m : Vm)
    → IsPaged m
    → v % 4096 ≡ 0
    → p % 4096 ≡ 0
    → v / 2 ^ 22 < 1023
    → v / 4096 % 1024 + n ≤ 1024
    → p + n * 4096 ≤ 2 ^ 32
    → flags < 4096
    → is_present (pde m (v / 2 ^ 22)) ≡ true
    → ((k : ℕ) → k < n → translate m (v + k * 4096) ≡ fault)
    → (m' : Vm) × (map_loop n p v flags m ≡ done m') × IsRange m m' n v p
unfolding map_loop
map_loop_lem zero v p flags m paged av ap' window room small lf there unmapped =
    (m, refl, empty-IsRange m v p paged)
map_loop_lem (suc zero) v p flags m paged av ap' window room small lf there unmapped =
    let (m₁, ran, h) = first_page m v p flags 0 paged window small lf there unmapped in
    (
      m₁,
      ap (λ r. r >>= λ n. map_loop 0 (u32 (p + 4096)) (u32 (v + 4096)) flags n) ran,
      IsRange-suc m m₁ m₁ 0 v p (bit_or flags 3) av ap' window room there h
          (empty-IsRange m₁ (v + 4096) (p + 4096) h.paged),
    )
map_loop_lem (suc (suc n)) v p flags m paged av ap' window room small lf there unmapped =
    let (m₁, ran, h) =
      first_page m v p flags 0 paged window (omega arith) lf there
        (λ k l. unmapped k (omega arith)) in
    let next : (v + 4096) / 2 ^ 22 ≡ v / 2 ^ 22 = omega arith in
    let whole_p : u32 (p + 4096) ≡ p + 4096 = omega arith in
    let whole_v : u32 (v + 4096) ≡ v + 4096 = omega arith in
    let (m', ran', rest) =
      map_loop_lem (suc n) (v + 4096) (p + 4096) flags m₁ h.paged (omega arith) (omega arith)
        (omega arith) (omega arith) (omega arith) lf
        (ap (λ (k : ℕ). is_present (pde m₁ k)) next ∙ h.there)
        (λ k l.
          h.others (v + 4096 + k * 4096) (omega arith) (λ e. omega arith) (λ e. omega arith)
            (inr there)
          ∙ (ap (translate m) (omega arith) ∙ unmapped (suc k) (omega arith))) in
    (
      m',
      ap (λ r. r >>= λ x. map_loop (suc n) (u32 (p + 4096)) (u32 (v + 4096)) flags x) ran
          ∙ (ap₂ (λ (a b : ℕ). map_loop (suc n) a b flags m₁) whole_p whole_v ∙ ran'),
      IsRange-suc m m₁ m' (suc n) v p (bit_or flags 3) av ap' window room there h rest,
    )

pub npages_lem : (sz : ℕ) → (sz ≤ npages sz * 4096) × (npages sz * 4096 < sz + 4096)
unfolding npages
npages_lem sz = ground arith

-- In a well-formed address space, mapping a range of any size within the 32-bit addresses,
-- aligned to pages, outside of the window, with flags below 2 ^ 12, whose page table is there and
-- holds all of it unmapped, returns: every byte of it then translates to the byte of the physical
-- range, the space is well formed, and every page outside of it and of the window translates as
-- before.
pub map_pages_lem :
    (m : Vm) (v p flags sz : ℕ)
    → IsPaged m
    → v % 4096 ≡ 0
    → p % 4096 ≡ 0
    → v / 2 ^ 22 < 1023
    → v / 4096 % 1024 * 4096 + sz ≤ 2 ^ 22
    → p + sz ≤ 2 ^ 32
    → flags < 4096
    → is_present (pde m (v / 2 ^ 22)) ≡ true
    → ((k : ℕ) → k * 4096 < sz → translate m (v + k * 4096) ≡ fault)
    → (m' : Vm) × (map_pages p v flags sz m ≡ done m')
      × IsPaged m'
      × ((o : ℕ) → o < sz → translate m' (v + o) ≡ done (p + o))
      × ((w : ℕ)
          → w < 2 ^ 32
          → w / 2 ^ 22 ≢ 1023
          → (w / 4096 < v / 4096) ⊎ (v + sz ≤ w / 4096 * 4096)
          → translate m' w ≡ translate m w)
unfolding map_pages
map_pages_lem m v p flags sz paged av ap' window room small lf there unmapped =
    elim (Bool-cases (sz == 0)) [
      | inl none_asked ↦
          (m, rw none_asked, paged, λ o l. absurd (ground arith), λ w l outside which. refl)
      | inr some_asked ↦
          let n = npages sz in
          let (enough, not_more) = npages_lem sz in
          let (m', ran, h) =
            map_loop_lem n v p flags m paged av ap' window (omega arith) (omega arith) lf there
              (λ k l. unmapped k (omega arith)) in
          let whole_p : paligndown p ≡ p = omega (arith, paligndown_lem p (ground arith)) in
          let whole_v : paligndown v ≡ v = omega (arith, paligndown_lem v (omega arith)) in
          (
            m',
            rw some_asked (ap₂ (λ (a b : ℕ). map_loop n a b flags m) whole_p whole_v ∙ ran),
            h.paged,
            λ o l.
                ap (translate m') (omega arith)
                ∙ (h.mapped (o / 4096) (o % 4096) (omega arith) (omega arith)
                    ∙ ap done (omega arith)),
            λ w l outside which. h.others w l outside (λ k lk e. omega arith),
          )
    ]
