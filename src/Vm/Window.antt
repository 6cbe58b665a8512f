-- ===== src/Vm/Window.antt =====
-- kernel/vm.c: through the self-mapped entry, the window's addresses are the directory and its
-- tables.
use leoman.Base.{ℕ, ◌+◌, ◌*◌, ◌/◌, ◌%◌, ◌^◌, ◌<◌, ◌≡◌, ap, ◌∙◌, arith, true, Run, done, ◌>>=◌}
use leoman.Address.{vm_pdir_idx, vm_ptab_idx_lem}
use leoman.Vm.Mmu.{Vm, frame, is_present, word_at, pde, pte, translate, poke, vload, vstore}
use leoman.Vm.{pde_address, pte_address}

-- The directory's last entry maps the directory into itself.
pub record IsSelfMapped (m : Vm) : Type 0 where
  pub present : is_present (pde m 1023) ≡ true
  pub itself : frame (pde m 1023) ≡ frame m.cr3

pub translate-present :
    (m : Vm) (v i j : ℕ)
    → v / 2 ^ 22 ≡ i
    → v / 2 ^ 12 % 1024 ≡ j
    → is_present (pde m i) ≡ true
    → is_present (pte m (pde m i) j) ≡ true
    → translate m v ≡ done (frame (pte m (pde m i) j) * 4096 + v % 4096)
unfolding translate
translate-present m v i j ei ej directory table = rw (ei, ej, directory, table)

pte_self : (m : Vm) (j : ℕ) → IsSelfMapped m → pte m (pde m 1023) j ≡ pde m j
unfolding pte pde
pte_self m j self = ap (λ (f : ℕ). m.memory (word_at f j)) self.itself

translate-window :
    (m : Vm) (v j : ℕ)
    → IsSelfMapped m
    → v / 2 ^ 22 ≡ 1023
    → v / 2 ^ 12 % 1024 ≡ j
    → is_present (pde m j) ≡ true
    → translate m v ≡ done (frame (pde m j) * 4096 + v % 4096)
translate-window m v j self ei ej there =
    translate-present m v 1023 j ei ej self.present
      (ap (λ (e : ℕ). is_present e) (pte_self m j self) ∙ there)
    ∙ ap (λ (e : ℕ). done (frame e * 4096 + v % 4096)) (pte_self m j self)

translate-pde_address :
    (m : Vm) (v : ℕ)
    → IsSelfMapped m
    → v < 2 ^ 32
    → translate m (pde_address v) ≡ done (frame m.cr3 * 4096 + 4 * (v / 2 ^ 22))
unfolding pde_address vm_pdir_idx
translate-pde_address m v self l =
    translate-window m (pde_address v) 1023 self (omega arith) (omega arith) self.present
    ∙ ap done (omega (arith, self.itself))

translate-pte_address :
    (m : Vm) (v : ℕ)
    → IsSelfMapped m
    → v < 2 ^ 32
    → is_present (pde m (v / 2 ^ 22)) ≡ true
    → translate m (pte_address v)
      ≡ done (frame (pde m (v / 2 ^ 22)) * 4096 + 4 * (v / 2 ^ 12 % 1024))
unfolding pte_address vm_pdir_idx
translate-pte_address m v self l there =
    let e = vm_ptab_idx_lem v in
    translate-window m (pte_address v) (v / 2 ^ 22) self (omega (arith, e)) (omega (arith, e)) there
    ∙ ap done (omega (arith, e))

-- The directory's entry for an address, read and written through the window.
pub vload-pde_address :
    (m : Vm) (v : ℕ)
    → IsSelfMapped m
    → v < 2 ^ 32
    → vload (pde_address v) m ≡ done (pde m (v / 2 ^ 22))
unfolding vload pde
vload-pde_address m v self l =
    ap (λ (r : Run ℕ). r >>= λ a. done (m.memory (a / 4))) (translate-pde_address m v self l)
    ∙ ap (λ (i : ℕ). done (m.memory i)) (omega arith)

pub vstore-pde_address :
    (m : Vm) (v x : ℕ)
    → IsSelfMapped m
    → v < 2 ^ 32
    → vstore (pde_address v) x m ≡ done (poke (word_at (frame m.cr3) (v / 2 ^ 22)) x m)
unfolding vstore
vstore-pde_address m v x self l =
    ap (λ (r : Run ℕ). r >>= λ a. done (poke (a / 4) x m)) (translate-pde_address m v self l)
    ∙ ap (λ (i : ℕ). done (poke i x m)) (omega arith)

-- The table's entry for an address whose table is present.
pub vload-pte_address :
    (m : Vm) (v : ℕ)
    → IsSelfMapped m
    → v < 2 ^ 32
    → is_present (pde m (v / 2 ^ 22)) ≡ true
    → vload (pte_address v) m ≡ done (pte m (pde m (v / 2 ^ 22)) (v / 2 ^ 12 % 1024))
unfolding vload pte
vload-pte_address m v self l there =
    ap (λ (r : Run ℕ). r >>= λ a. done (m.memory (a / 4))) (translate-pte_address m v self l there)
    ∙ ap (λ (i : ℕ). done (m.memory i)) (omega arith)

pub vstore-pte_address :
    (m : Vm) (v x : ℕ)
    → IsSelfMapped m
    → v < 2 ^ 32
    → is_present (pde m (v / 2 ^ 22)) ≡ true
    → vstore (pte_address v) x m
      ≡ done (poke (word_at (frame (pde m (v / 2 ^ 22))) (v / 2 ^ 12 % 1024)) x m)
unfolding vstore
vstore-pte_address m v x self l there =
    ap (λ (r : Run ℕ). r >>= λ a. done (poke (a / 4) x m)) (translate-pte_address m v self l there)
    ∙ ap (λ (i : ℕ). done (poke i x m)) (omega arith)
