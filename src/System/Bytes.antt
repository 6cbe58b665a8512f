-- ===== src/System/Bytes.antt =====
-- The bytes of the physical memory, and stores that change no translation.
use leoman.Base.{
  ℕ, zero, suc, ◌/◌, ◌%◌, ◌^◌, ◌<◌, ◌≡◌, ◌≢◌, refl, sym, ap, ◌∙◌, arith, true, Bool-cases, inl, inr,
  ℕ_discrete,
}
use leoman.Vm.Mmu.{Vm, frame, is_present, word_at, pde, pte, translate, poke}
use leoman.Vm.Space.{IsPaged, IsData}
use leoman.Vm.Window.{IsSelfMapped}
use mathlib.Core.Path.{subst}
use leoman.Pm.{Pm}
use leoman.Pm.Bitmap.{used, page_at}
use leoman.Pm.Laws.{IsValid}
use leoman.System.{byte_at, set_byte}

-- The byte at a physical address.
abbrev pub byte_of : Vm → ℕ → ℕ
byte_of m a = byte_at (a % 4) (m.memory (a / 4))

pub byte_at-lt : (i w : ℕ) → byte_at i w < 256
unfolding byte_at
byte_at-lt i w = omega arith

byte_at-set_byte : (i b w : ℕ) → i < 4 → b < 256 → byte_at i (set_byte i b w) ≡ b
unfolding set_byte
byte_at-set_byte zero b w li lb = omega arith
byte_at-set_byte (suc zero) b w li lb = omega arith
byte_at-set_byte (suc (suc zero)) b w li lb = omega arith
byte_at-set_byte (suc (suc (suc zero))) b w li lb = omega arith
byte_at-set_byte (suc (suc (suc (suc i)))) b w li lb = absurd (omega arith)

byte_at-set_byte_ne :
    (i j b w : ℕ) → i < 4 → j < 4 → j ≢ i → b < 256 → byte_at j (set_byte i b w) ≡ byte_at j w
unfolding set_byte
byte_at-set_byte_ne zero zero b w li lj ne lb = absurd (ne refl)
byte_at-set_byte_ne zero (suc zero) b w li lj ne lb = omega arith
byte_at-set_byte_ne zero (suc (suc zero)) b w li lj ne lb = omega arith
byte_at-set_byte_ne zero (suc (suc (suc zero))) b w li lj ne lb = omega arith
byte_at-set_byte_ne (suc zero) zero b w li lj ne lb = omega arith
byte_at-set_byte_ne (suc zero) (suc zero) b w li lj ne lb = absurd (ne refl)
byte_at-set_byte_ne (suc zero) (suc (suc zero)) b w li lj ne lb = omega arith
byte_at-set_byte_ne (suc zero) (suc (suc (suc zero))) b w li lj ne lb = omega arith
byte_at-set_byte_ne (suc (suc zero)) zero b w li lj ne lb = omega arith
byte_at-set_byte_ne (suc (suc zero)) (suc zero) b w li lj ne lb = omega arith
byte_at-set_byte_ne (suc (suc zero)) (suc (suc zero)) b w li lj ne lb = absurd (ne refl)
byte_at-set_byte_ne (suc (suc zero)) (suc (suc (suc zero))) b w li lj ne lb = omega arith
byte_at-set_byte_ne (suc (suc (suc zero))) zero b w li lj ne lb = omega arith
byte_at-set_byte_ne (suc (suc (suc zero))) (suc zero) b w li lj ne lb = omega arith
byte_at-set_byte_ne (suc (suc (suc zero))) (suc (suc zero)) b w li lj ne lb = omega arith
byte_at-set_byte_ne (suc (suc (suc zero))) (suc (suc (suc zero))) b w li lj ne lb = absurd (ne refl)
byte_at-set_byte_ne (suc (suc (suc (suc i)))) j b w li lj ne lb = absurd (omega arith)
byte_at-set_byte_ne i (suc (suc (suc (suc j)))) b w li lj ne lb = absurd (omega arith)

-- The memory with another byte at a physical address.
unfoldable pub put_byte : ℕ → ℕ → Vm → Vm
unfolding poke
put_byte a b m = poke (a / 4) (set_byte (a % 4) b (m.memory (a / 4))) m

pub byte_of-put_byte : (a b : ℕ) (m : Vm) → b < 256 → byte_of (put_byte a b m) a ≡ b
unfolding put_byte
byte_of-put_byte a b m lb =
    let here : (put_byte a b m).memory (a / 4) ≡ set_byte (a % 4) b (m.memory (a / 4)) =
      ground arith in
    ap (byte_at (a % 4)) here ∙ byte_at-set_byte (a % 4) b (m.memory (a / 4)) (omega arith) lb

pub byte_of-put_byte_ne :
    (a b c : ℕ) (m : Vm) → b < 256 → c ≢ a → byte_of (put_byte a b m) c ≡ byte_of m c
unfolding put_byte
byte_of-put_byte_ne a b c m lb ne = elim (ℕ_discrete (c / 4) (a / 4)) [
  | yes same ↦
      let here : (put_byte a b m).memory (c / 4) ≡ set_byte (a % 4) b (m.memory (a / 4)) =
        ground arith in
      ap (byte_at (c % 4)) here
      ∙ (byte_at-set_byte_ne (a % 4) (c % 4) b (m.memory (a / 4)) (omega arith) (omega arith)
            (λ e. ne (omega arith)) lb
          ∙ ap (λ (k : ℕ). byte_at (c % 4) (m.memory k)) (sym same))
  | no other ↦
      let here : (put_byte a b m).memory (c / 4) ≡ m.memory (c / 4) = ground arith in
      ap (byte_at (c % 4)) here
]

-- A space with the same directory and tables.
pub record SameSpace (m m' : Vm) : Type 0 where
  pub entries : (i : ℕ) → i < 1024 → pde m' i ≡ pde m i
  pub same_cr3 : m'.cr3 ≡ m.cr3
  pub same_pm : m'.pm ≡ m.pm
  pub translates : (v : ℕ) → v < 2 ^ 32 → translate m' v ≡ translate m v

pub SameSpace-refl : (m : Vm) → SameSpace m m
SameSpace-refl m = record {
  entries = λ i l. refl;
  same_cr3 = refl;
  same_pm = refl;
  translates = λ v l. refl;
}

pub SameSpace-trans : {m m₁ m₂ : Vm} → SameSpace m m₁ → SameSpace m₁ m₂ → SameSpace m m₂
SameSpace-trans s t = record {
  entries = λ i l. t.entries i l ∙ s.entries i l;
  same_cr3 = t.same_cr3 ∙ s.same_cr3;
  same_pm = t.same_pm ∙ s.same_pm;
  translates = λ v l. t.translates v l ∙ s.translates v l;
}

pub IsData-SameSpace : (m m' : Vm) (f : ℕ) → SameSpace m m' → IsData m f → IsData m' f
IsData-SameSpace m m' f s free i l there e =
    free i l (ap (λ (x : ℕ). is_present x) (sym (s.entries i l)) ∙ there)
      (e ∙ ap (λ (x : ℕ). frame x) (s.entries i l))

pub IsPaged-SameSpace : (m m' : Vm) → SameSpace m m' → IsPaged m → IsPaged m'
IsPaged-SameSpace m m' s paged = record {
  self = record {
    present = ap (λ (x : ℕ). is_present x) (s.entries 1023 (omega arith)) ∙ paged.self.present;
    itself =
        ap (λ (x : ℕ). frame x) (s.entries 1023 (omega arith))
        ∙ (paged.self.itself ∙ ap (λ (x : ℕ). frame x) (sym s.same_cr3));
  };
  distinct = λ i j li lj ne pi pj e. paged.distinct i j li lj ne (old i li pi) (old j lj pj) (
      ap (λ (x : ℕ). frame x) (sym (s.entries i li))
      ∙ (e ∙ ap (λ (x : ℕ). frame x) (s.entries j lj)));
  pool = subst (λ (pm : Pm). IsValid pm) (sym s.same_pm) paged.pool;
  taken = λ i q li pi lq free e.
      paged.taken i q li (old i li pi) lq
        (ap (λ (pm : Pm). used pm.bitmap q) (sym s.same_pm) ∙ free)
        (ap (λ (x : ℕ). frame x) (sym (s.entries i li))
          ∙ (e ∙ ap (λ (pm : Pm). frame (page_at pm.page_pool q)) s.same_pm));
}
  where
    old : (i : ℕ) → i < 1024 → is_present (pde m' i) ≡ true → is_present (pde m i) ≡ true
    old i l there = ap (λ (x : ℕ). is_present x) (sym (s.entries i l)) ∙ there

pde-poke :
    (k x i : ℕ) (m : Vm)
    → IsSelfMapped m
    → IsData m (k / 1024)
    → i < 1024
    → pde (poke k x m) i ≡ pde m i
unfolding pde poke
pde-poke k x i m self free l =
    let no_root = free 1023 (omega arith) self.present in
    let apart : word_at (frame m.cr3) i ≢ k = λ e. no_root (omega (arith, self.itself)) in
    ground arith

pte-poke :
    (k x i j : ℕ) (m : Vm)
    → IsData m (k / 1024)
    → i < 1024
    → j < 1024
    → is_present (pde m i) ≡ true
    → pte (poke k x m) (pde m i) j ≡ pte m (pde m i) j
unfolding pte poke
pte-poke k x i j m free li lj there =
    let apart : word_at (frame (pde m i)) j ≢ k = λ e. free i li there (omega arith) in ground arith

translate-poke :
    (k x v : ℕ) (m : Vm)
    → IsSelfMapped m
    → IsData m (k / 1024)
    → v < 2 ^ 32
    → translate (poke k x m) v ≡ translate m v
unfolding translate
translate-poke k x v m self free l =
    let i = v / 2 ^ 22 in
    let entry = pde-poke k x i m self free (omega arith) in
    elim (Bool-cases (is_present (pde m i))) [
      | inr absent ↦ rw (entry, absent)
      | inl there ↦
          rw (entry, pte-poke k x i (v / 2 ^ 12 % 1024) m free (omega arith) (omega arith) there)
    ]

pub poke-SameSpace :
    (k x : ℕ) (m : Vm) → IsSelfMapped m → IsData m (k / 1024) → SameSpace m (poke k x m)
poke-SameSpace k x m self free = record {
  entries = λ i l. pde-poke k x i m self free l;
  same_cr3 = unfold poke in refl;
  same_pm = unfold poke in refl;
  translates = λ v l. translate-poke k x v m self free l;
}
