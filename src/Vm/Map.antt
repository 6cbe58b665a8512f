-- ===== src/Vm/Map.antt =====
-- kernel/vm.c: what mapping, looking up and unmapping a page do to the address space.
use leoman.Base.{ℕ, ◌+◌, ◌*◌, ◌/◌, ◌%◌, ◌^◌, ◌<◌, ◌≡◌, ◌≢◌, refl, sym, ap, ◌∙◌, ◌⊎◌, arith}
use leoman.Base.{bit_and, bit_or, true, false, ◌==◌, if◌then◌else◌, Sum-elim, done, fault, ◌>>=◌}
use leoman.Base.Bits.{bit-bit_or, bit_or-lt}
use mathlib.Core.Path.{ap₂}
use leoman.Address.{paligndown_lem}
use leoman.Pm.{pm_alloc}
use leoman.Pm.Bitmap.{used}
use leoman.Vm.Mmu.{Vm, frame, is_present, pde, pte, translate, poke, vload, vstore}
use leoman.Vm.Window.{vload-pde_address, vload-pte_address}
use leoman.Vm.Space.{
  IsPaged, IsTable, enter, enter-IsPaged, enter-translate, enter-translate_other,
  enter-translate_elsewhere, enter-entry, enter-kept, entry_cases, this_entry,
}
use leoman.Vm.Tables.{frame-bit_or, is_present-bit_or, bit_and-present, two_stores, alloc-IsTable}
use leoman.Vm.{
  pde_address, pte_address, address_of, map_in_table, map_in_new_table, map_below, map_aligned,
  map_page,
}

-- What a step that maps the page of `v` to the page of `p` makes of the space: the page is there,
-- byte for byte, the space is well formed, and every other page outside of the window is as before,
-- unless the page's table is new.
pub record IsMapped (m m' : Vm) (v p f : ℕ) : Type 0 where
  pub paged : IsPaged m'
  pub mapped :
      (w : ℕ) → w / 2 ^ 12 ≡ v / 2 ^ 12 → translate m' w ≡ done (p / 4096 * 4096 + w % 4096)
  pub others :
      (w : ℕ)
      → w < 2 ^ 32
      → w / 2 ^ 22 ≢ 1023
      → w / 2 ^ 12 ≢ v / 2 ^ 12
      → (w / 2 ^ 22 ≢ v / 2 ^ 22) ⊎ (is_present (pde m (v / 2 ^ 22)) ≡ true)
      → translate m' w ≡ translate m w
  pub same_cr3 : m'.cr3 ≡ m.cr3
  pub there : is_present (pde m' (v / 2 ^ 22)) ≡ true
  pub entry : pte m' (pde m' (v / 2 ^ 22)) (v / 2 ^ 12 % 1024) ≡ bit_or (p / 4096 * 4096) f
  pub kept :
      (k : ℕ)
      → k / 1024 ≢ frame m.cr3
      → k / 1024 ≢ frame (pde m' (v / 2 ^ 22))
      → m'.memory k ≡ m.memory k
  pub remain : (k : ℕ) → k < 1024 → is_present (pde m k) ≡ true → is_present (pde m' k) ≡ true
  pub tables :
      (k : ℕ)
      → k < 1024
      → is_present (pde m (v / 2 ^ 22)) ≡ true
      → is_present (pde m' k) ≡ true
      → (is_present (pde m k) ≡ true) × (frame (pde m' k) ≡ frame (pde m k))

below_table :
    (m : Vm) (v directory paddr f : ℕ)
    → (bit_and directory 1 == 0) ≡ false
    → map_below directory paddr v f m
      ≡ (vload (pte_address v) m >>= λ e. map_in_table directory e paddr v f m)
unfolding map_below
below_table m v directory paddr f e = rw (e, map_below)

below_none :
    (m : Vm) (v directory paddr f : ℕ)
    → (bit_and directory 1 == 0) ≡ true
    → map_below directory paddr v f m ≡ (
        let m' = record m { pm = (pm_alloc m.pm).1 } in
        vstore (pde_address v) (bit_or (address_of (pm_alloc m.pm).0) f) m' >>= λ n.
        vstore (pte_address v) (bit_or paddr f) n)
unfolding map_below map_in_new_table
below_none m v directory paddr f e = rw (e, map_below)

page_unmapped :
    (m : Vm) (v directory table paddr f : ℕ)
    → (bit_and table 1 == 0) ≡ true
    → map_in_table directory table paddr v f m ≡ (
        vstore (pde_address v) (bit_or directory f) m >>= λ n.
        vstore (pte_address v) (bit_or paddr f) n)
unfolding map_in_table
page_unmapped m v directory table paddr f e = rw (e, map_in_table)

module _ (m : Vm) (v p f : ℕ) (paged : IsPaged m) (lv : v < 2 ^ 32) (window : v / 2 ^ 22 ≢ 1023)
    (lf : f < 4096) (odd : f % 2 ≡ 1) where
  frame-entry : frame (bit_or (p / 4096 * 4096) f) ≡ p / 4096
  frame-entry = frame-bit_or (p / 4096 * 4096) f lf ∙ omega arith

  pub in_table :
      is_present (pde m (v / 2 ^ 22)) ≡ true
      → is_present (pte m (pde m (v / 2 ^ 22)) (v / 2 ^ 12 % 1024)) ≡ false
      → (m' : Vm) × (map_aligned (p / 4096 * 4096) v f m ≡ done m') × IsMapped m m' v p f
  unfolding map_aligned
  in_table there absent =
      let i = v / 2 ^ 22 in
      let j = v / 2 ^ 12 % 1024 in
      let d = bit_or (pde m i) f in
      let t = bit_or (p / 4096 * 4096) f in
      let same = frame-bit_or (pde m i) f lf in
      let ok : IsTable m i d = record {
        present = is_present-bit_or (pde m i) f odd;
        unshared =
            λ k lk ne other e. paged.distinct k i lk (omega arith) ne other there (sym e ∙ same);
        taken = λ q lq free e. paged.taken i q (omega arith) there lq free (sym same ∙ e);
      } in
      let has_table : (bit_and (pde m i) 1 == 0) ≡ false =
        bit_and-present (pde m i) ∙ (ap (λ b. if b then false else true) there) in
      let no_page : (bit_and (pte m (pde m i) j) 1 == 0) ≡ true =
        bit_and-present (pte m (pde m i) j) ∙ (ap (λ b. if b then false else true) absent) in
      (
        enter i j d t m,
        ap (λ r. r >>= λ e. map_below e (p / 4096 * 4096) v f m)
              (vload-pde_address m v paged.self lv)
            ∙ (below_table m v (pde m i) (p / 4096 * 4096) f has_table
                ∙ (ap (λ r. r >>= λ e. map_in_table (pde m i) e (p / 4096 * 4096) v f m)
                      (vload-pte_address m v paged.self lv there)
                    ∙ (page_unmapped m v (pde m i) (pte m (pde m i) j) (p / 4096 * 4096) f no_page
                        ∙ two_stores m v d t paged.self lv window ok.present))),
        record {
          paged = enter-IsPaged i j d t m paged (omega arith) (omega arith) ok;
          mapped = λ w e.
              enter-translate i j d t m paged (omega arith) (omega arith) ok w (omega arith)
                (omega arith) (is_present-bit_or (p / 4096 * 4096) f odd)
              ∙ ap (λ (x : ℕ). done (x * 4096 + w % 4096)) frame-entry;
          others = λ w l outside ne which.
              enter-translate_other i j d t m paged (omega arith) (omega arith) ok w l outside
                (λ e. ne (omega arith)) same there;
          same_cr3 = unfold enter poke in refl;
          there =
              ap (λ (e : ℕ). is_present e)
                (this_entry i j d t m paged (omega arith) (omega arith) ok)
              ∙ ok.present;
          entry = enter-entry i j d t m paged (omega arith) (omega arith) ok;
          kept = λ k no_root no_table.
              enter-kept i j d t k m (omega arith) (omega arith) no_root (λ e. no_table (
                e
                ∙ sym (
                    ap (λ (x : ℕ). frame x)
                      (this_entry i j d t m paged (omega arith) (omega arith) ok))));
          remain = λ k lk was.
              Sum-elim (entry_cases i j d t m paged (omega arith) (omega arith) ok k lk)
                (λ this. ap (λ (x : ℕ). is_present x) this.1 ∙ ok.present)
                (λ other. ap (λ (x : ℕ). is_present x) other.1 ∙ was);
          tables = λ k lk was here.
              Sum-elim (entry_cases i j d t m paged (omega arith) (omega arith) ok k lk)
                (λ this. (
                  ap (λ (n : ℕ). is_present (pde m n)) this.0 ∙ was,
                  ap (λ (x : ℕ). frame x) this.1
                      ∙ (same ∙ ap (λ (n : ℕ). frame (pde m n)) (sym this.0)),
                ))
                (λ other. (
                  ap (λ (x : ℕ). is_present x) (sym other.1) ∙ here,
                  ap (λ (x : ℕ). frame x) other.1,
                ));
        },
      )

  -- The run of `map_page` with a new table.
  pub new_table_run :
      (free : ℕ)
      → is_present (pde m (v / 2 ^ 22)) ≡ false
      → free < 2 ^ 20
      → used m.pm.bitmap free ≡ 0
      → map_aligned (p / 4096 * 4096) v f m
        ≡ done (
            enter
              (v / 2 ^ 22)
              (v / 2 ^ 12 % 1024)
              (bit_or (address_of (pm_alloc m.pm).0) f)
              (bit_or (p / 4096 * 4096) f)
              (record m { pm = (pm_alloc m.pm).1 }))
  unfolding map_aligned
  new_table_run free absent l is_free =
      let i = v / 2 ^ 22 in
      let (paged', tables) = alloc-IsTable m free paged l is_free in
      let m₁ : Vm = record m { pm = (pm_alloc m.pm).1 } in
      let d = bit_or (address_of (pm_alloc m.pm).0) f in
      let ok = tables i f (omega arith) lf odd in
      let no_table : (bit_and (pde m i) 1 == 0) ≡ true =
        bit_and-present (pde m i) ∙ (ap (λ b. if b then false else true) absent) in
      ap (λ r. r >>= λ e. map_below e (p / 4096 * 4096) v f m) (vload-pde_address m v paged.self lv)
      ∙ (below_none m v (pde m i) (p / 4096 * 4096) f no_table
          ∙ two_stores m₁ v d (bit_or (p / 4096 * 4096) f) paged'.self lv window ok.present)

  in_new_table :
      (free : ℕ)
      → is_present (pde m (v / 2 ^ 22)) ≡ false
      → free < 2 ^ 20
      → used m.pm.bitmap free ≡ 0
      → (m' : Vm) × (map_aligned (p / 4096 * 4096) v f m ≡ done m') × IsMapped m m' v p f
  in_new_table free absent l is_free =
      let i = v / 2 ^ 22 in
      let j = v / 2 ^ 12 % 1024 in
      let (paged', tables) = alloc-IsTable m free paged l is_free in
      let m₁ : Vm = record m { pm = (pm_alloc m.pm).1 } in
      let d = bit_or (address_of (pm_alloc m.pm).0) f in
      let t = bit_or (p / 4096 * 4096) f in
      let ok = tables i f (omega arith) lf odd in
      (
        enter i j d t m₁,
        new_table_run free absent l is_free,
        record {
          paged = enter-IsPaged i j d t m₁ paged' (omega arith) (omega arith) ok;
          mapped = λ w e.
              enter-translate i j d t m₁ paged' (omega arith) (omega arith) ok w (omega arith)
                (omega arith) (is_present-bit_or (p / 4096 * 4096) f odd)
              ∙ ap (λ (x : ℕ). done (x * 4096 + w % 4096)) frame-entry;
          others = λ w l' outside ne which.
              enter-translate_elsewhere i j d t m₁ paged' (omega arith) (omega arith) ok w l'
                outside
                (Sum-elim which (λ elsewhere. elsewhere) (λ there. absurd (cc (absent, there))))
              ∙ (unfold translate pde pte in refl);
          same_cr3 = unfold enter poke in refl;
          there =
              ap (λ (e : ℕ). is_present e)
                (this_entry i j d t m₁ paged' (omega arith) (omega arith) ok)
              ∙ ok.present;
          entry = enter-entry i j d t m₁ paged' (omega arith) (omega arith) ok;
          kept = λ k no_root no_table.
              enter-kept i j d t k m₁ (omega arith) (omega arith) no_root (λ e. no_table (
                e
                ∙ sym (
                    ap (λ (x : ℕ). frame x)
                      (this_entry i j d t m₁ paged' (omega arith) (omega arith) ok))));
          remain = λ k lk was.
              Sum-elim (entry_cases i j d t m₁ paged' (omega arith) (omega arith) ok k lk)
                (λ this. ap (λ (x : ℕ). is_present x) this.1 ∙ ok.present)
                (λ other. ap (λ (x : ℕ). is_present x) other.1 ∙ (unfold pde in was));
          tables = λ k lk was here. absurd (cc (absent, was));
        },
      )

-- Only the page counts, not the offset into it.
pub same_page :
    (m m' : Vm) (v v' p f : ℕ)
    → v / 2 ^ 12 ≡ v' / 2 ^ 12
    → IsMapped m m' v p f
    → IsMapped m m' v' p f
same_page m m' v v' p f e h =
    let i : v / 2 ^ 22 ≡ v' / 2 ^ 22 = omega arith in
    let j : v / 2 ^ 12 % 1024 ≡ v' / 2 ^ 12 % 1024 = omega arith in
    record {
      paged = h.paged;
      mapped = λ w same. h.mapped w (omega arith);
      others = λ w l outside ne which. h.others w l outside (λ same. ne (same ∙ e)) (rw i which);
      same_cr3 = h.same_cr3;
      there = rw (← i) h.there;
      entry = rw (← i, ← j) h.entry;
      kept = λ k no_root no_table. h.kept k no_root (rw i no_table);
      remain = h.remain;
      tables = λ k lk was. h.tables k lk (rw i was);
    }

-- An address that does not translate has no table or no page.
pub fault_cases :
    (m : Vm) (v : ℕ)
    → translate m v ≡ fault
    → (is_present (pde m (v / 2 ^ 22)) ≡ false)
      ⊎ ((is_present (pde m (v / 2 ^ 22)) ≡ true)
          × (is_present (pte m (pde m (v / 2 ^ 22)) (v / 2 ^ 12 % 1024)) ≡ false))
unfolding translate
fault_cases m v e = ground arith

pub done_cases :
    (m : Vm) (v a : ℕ)
    → translate m v ≡ done a
    → (is_present (pde m (v / 2 ^ 22)) ≡ true)
      × (is_present (pte m (pde m (v / 2 ^ 22)) (v / 2 ^ 12 % 1024)) ≡ true)
      × (a ≡ frame (pte m (pde m (v / 2 ^ 22)) (v / 2 ^ 12 % 1024)) * 4096 + v % 4096)
unfolding translate
done_cases m v a e = ground arith

-- In a well-formed address space with a free page in the pool, mapping a page outside of the
-- window on the tables that is not mapped, with 32-bit addresses and flags below 2 ^ 12, returns:
-- the page then translates to the physical page byte for byte, with its entry's flags, the space
-- is well formed, cr3 is as before, and so is every other page outside of the window that has
-- another table or whose table was there.
pub map_page_lem :
    (m : Vm) (v p flags free : ℕ)
    → IsPaged m
    → v < 2 ^ 32
    → v / 2 ^ 22 ≢ 1023
    → p < 2 ^ 32
    → flags < 4096
    → translate m v ≡ fault
    → free < 2 ^ 20
    → used m.pm.bitmap free ≡ 0
    → (m' : Vm) × (map_page p v flags m ≡ done m') × IsMapped m m' v p (bit_or flags 3)
unfolding map_page
map_page_lem m v p flags free paged lv window lp lf unmapped l is_free =
    let v₀ = v / 4096 * 4096 in
    let f = bit_or flags 3 in
    let lf' : f < 4096 = bit_or-lt 12 flags 3 lf (omega arith) in
    let odd : f % 2 ≡ 1 = omega (arith, bit-bit_or flags 3 0) in
    let i : v / 2 ^ 22 ≡ v₀ / 2 ^ 22 = omega arith in
    let j : v / 2 ^ 12 % 1024 ≡ v₀ / 2 ^ 12 % 1024 = omega arith in
    rw (paligndown_lem p lp, paligndown_lem v lv)
      (Sum-elim (fault_cases m v unmapped)
        (λ absent.
          let (m', ran, mapped) =
            in_new_table m v₀ p f paged (omega arith) (λ e. window (omega arith)) lf' odd free
              (ap (λ (k : ℕ). is_present (pde m k)) (sym i) ∙ absent) l is_free in
          (m', ran, same_page m m' v₀ v p f (omega arith) mapped))
        (λ entries.
          let (m', ran, mapped) =
            in_table m v₀ p f paged (omega arith) (λ e. window (omega arith)) lf' odd
              (ap (λ (k : ℕ). is_present (pde m k)) (sym i) ∙ entries.0)
              (ap₂ (λ (k n : ℕ). is_present (pte m (pde m k) n)) (sym i) (sym j) ∙ entries.1) in
          (m', ran, same_page m m' v₀ v p f (omega arith) mapped)))
