-- ===== src/Vm/Unmap.antt =====
-- kernel/vm.c: what unmapping a page writes.
use mathlib.Core.Path.{fun_ext}
use leoman.Base.{ℕ, ◌/◌, ◌%◌, ◌^◌, ◌<◌, ◌≡◌, ◌≢◌, refl, sym, ap, ◌∙◌, arith}
use leoman.Base.{true, done, fault}
use leoman.Address.{paligndown, paligndown_lem}
use leoman.Vm.Mmu.{Vm, frame, is_present, word_at, pde, translate, poke}
use leoman.Vm.Window.{vstore-pte_address}
use leoman.Vm.Space.{
  IsPaged, IsTable, enter, enter-IsPaged, enter-translate_other, enter-translate_absent,
}
use leoman.Base.{Sum-elim}
use leoman.Vm.Space.{IsData, enter-kept, entry_cases}
use leoman.Vm.Map.{done_cases}
use leoman.Vm.{unmap_page}

poke_same : (k x : ℕ) (m : Vm) → m.memory k ≡ x → poke k x m ≡ m
unfolding poke
poke_same k x m e = ap (λ (f : ℕ → ℕ). record m { memory = f }) (fun_ext λ j. ground arith)

enter_same : (i j t : ℕ) (m : Vm) → enter i j (pde m i) t m ≡ poke (word_at (frame (pde m i)) j) t m
unfolding enter pde
enter_same i j t m =
    ap (poke (word_at (frame (pde m i)) j) t) (poke_same (word_at (frame m.cr3) i) (pde m i) m refl)

old-IsTable :
    (m : Vm) (i : ℕ) → IsPaged m → i < 1023 → is_present (pde m i) ≡ true → IsTable m i (pde m i)
old-IsTable m i paged l there = record {
  present = there;
  unshared = λ k lk ne other. paged.distinct i k (omega arith) lk (λ e. ne (sym e)) there other;
  taken = λ q lq free. paged.taken i q (omega arith) there lq free;
}

-- What unmapping the page of `v` makes of the space: only the page's entry is another.
pub record IsUnmapped (m m' : Vm) (v : ℕ) : Type 0 where
  pub paged : IsPaged m'
  pub gone : (w : ℕ) → w / 2 ^ 12 ≡ v / 2 ^ 12 → translate m' w ≡ fault
  pub others :
      (w : ℕ)
      → w < 2 ^ 32
      → w / 2 ^ 22 ≢ 1023
      → w / 2 ^ 12 ≢ v / 2 ^ 12
      → translate m' w ≡ translate m w
  pub kept : (k : ℕ) → IsData m (k / 1024) → m'.memory k ≡ m.memory k
  pub same_data : (f : ℕ) → IsData m f → IsData m' f
  pub remain : (k : ℕ) → k < 1024 → is_present (pde m k) ≡ true → is_present (pde m' k) ≡ true
  pub same_pm : m'.pm ≡ m.pm

pub unmap_page-IsUnmapped :
    (m : Vm) (v a : ℕ)
    → IsPaged m
    → v < 2 ^ 32
    → v / 2 ^ 22 ≢ 1023
    → translate m v ≡ done a
    → (m' : Vm) × (unmap_page v m ≡ done m') × IsUnmapped m m' v
unfolding unmap_page
unmap_page-IsUnmapped m v a paged lv window hit =
    let i = v / 2 ^ 22 in
    let j = v / 2 ^ 12 % 1024 in
    let aligned = paligndown_lem v lv in
    let (there, _, _) = done_cases m v a hit in
    let i₀ : paligndown v / 2 ^ 22 ≡ i = omega (arith, aligned) in
    let j₀ : paligndown v / 2 ^ 12 % 1024 ≡ j = omega (arith, aligned) in
    let ok = old-IsTable m i paged (omega arith) there in
    (
      enter i j (pde m i) 0 m,
      vstore-pte_address m (paligndown v) 0 paged.self (omega (arith, aligned))
            (ap (λ (k : ℕ). is_present (pde m k)) i₀ ∙ there)
          ∙ (rw (i₀, j₀) (ap done (sym (enter_same i j 0 m)))),
      record {
        paged = enter-IsPaged i j (pde m i) 0 m paged (omega arith) (omega arith) ok;
        gone = λ w e.
            enter-translate_absent i j (pde m i) 0 m paged (omega arith) (omega arith) ok w
              (omega arith) (omega arith) refl;
        others = λ w l outside ne.
            enter-translate_other i j (pde m i) 0 m paged (omega arith) (omega arith) ok w l outside
              (λ e. ne (omega arith)) refl there;
        kept = λ k free.
            enter-kept i j (pde m i) 0 k m (omega arith) (omega arith)
              (λ e. free 1023 (omega arith) paged.self.present (e ∙ sym paged.self.itself))
              (free i (omega arith) there);
        same_data = λ f free k lk here e.
            Sum-elim (entry_cases i j (pde m i) 0 m paged (omega arith) (omega arith) ok k lk)
              (λ this. free i (omega arith) there (e ∙ ap (λ (x : ℕ). frame x) this.1))
              (λ other.
                free k lk (ap (λ (x : ℕ). is_present x) (sym other.1) ∙ here)
                  (e ∙ ap (λ (x : ℕ). frame x) other.1));
        remain = λ k lk was.
            Sum-elim (entry_cases i j (pde m i) 0 m paged (omega arith) (omega arith) ok k lk)
              (λ this. ap (λ (x : ℕ). is_present x) this.1 ∙ there)
              (λ other. ap (λ (x : ℕ). is_present x) other.1 ∙ was);
        same_pm = unfold enter poke in refl;
      },
    )
