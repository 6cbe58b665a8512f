-- ===== src/Vm/Space.antt =====
-- kernel/vm.c: the address space as a whole, and what entering a page into it changes.
use leoman.Base.{ℕ, ◌+◌, ◌*◌, ◌/◌, ◌%◌, ◌^◌, ◌<◌, ◌≡◌, ◌≢◌, sym, ap, ◌∙◌, arith, ◌⊎◌, inl, inr}
use leoman.Base.{true, false, ◌&&◌, ◌==◌, if◌then◌else◌, Bool-cases, done, fault, ℕ_discrete}
use leoman.Pm.Bitmap.{used, page_at}
use leoman.Pm.Laws.{IsValid}
use leoman.Vm.Mmu.{Vm, frame, is_present, word_at, pde, pte, translate, poke}
use leoman.Vm.Window.{IsSelfMapped}

-- The directory maps itself, its tables stand in frames of their own, and no free page of the pool
-- is one of them.
pub record IsPaged (m : Vm) : Type 0 where
  pub self : IsSelfMapped m
  pub distinct :
      (i j : ℕ)
      → i < 1024
      → j < 1024
      → i ≢ j
      → is_present (pde m i) ≡ true
      → is_present (pde m j) ≡ true
      → frame (pde m i) ≢ frame (pde m j)
  pub pool : IsValid m.pm
  pub taken :
      (i q : ℕ)
      → i < 1024
      → is_present (pde m i) ≡ true
      → q < 2 ^ 20
      → used m.pm.bitmap q ≡ 0
      → frame (pde m i) ≢ frame (page_at m.pm.page_pool q)

-- The directory's entry `i` is `directory` now, and entry `j` of the table that it points to is
-- `table`.
unfoldable pub enter : ℕ → ℕ → ℕ → ℕ → Vm → Vm
enter i j directory table m =
    poke (word_at (frame directory) j) table (poke (word_at (frame m.cr3) i) directory m)

pde-enter :
    (i j d t k : ℕ) (m : Vm)
    → j < 1024
    → k < 1024
    → i < 1024
    → frame d ≢ frame m.cr3
    → pde (enter i j d t m) k ≡ (if k == i then d else pde m k)
unfolding enter poke pde
pde-enter i j d t k m lj lk li apart = ground arith

pub pte-enter :
    (i j d t entry k : ℕ) (m : Vm)
    → i < 1024
    → j < 1024
    → k < 1024
    → frame entry ≢ frame m.cr3
    → pte (enter i j d t m) entry k
      ≡ (if (frame entry == frame d) && (k == j) then t else pte m entry k)
unfolding enter poke pte
pte-enter i j d t entry k m li lj lk apart = ground arith

-- Words outside of the directory and of this table are not written.
pub enter-kept :
    (i j d t k : ℕ) (m : Vm)
    → i < 1024
    → j < 1024
    → k / 1024 ≢ frame m.cr3
    → k / 1024 ≢ frame d
    → (enter i j d t m).memory k ≡ m.memory k
unfolding enter poke
enter-kept i j d t k m li lj no_root no_table = ground arith

-- No table of the space, nor its directory, stands in frame `f`.
abbrev pub IsData : Vm → ℕ → Type 0
IsData m f = (i : ℕ) → i < 1024 → is_present (pde m i) ≡ true → f ≢ frame (pde m i)

-- An entry `d` of the directory that can stand in slot `i`: its frame is no other entry's, and no
-- free page's.
pub record IsTable (m : Vm) (i d : ℕ) : Type 0 where
  pub present : is_present d ≡ true
  pub unshared :
      (k : ℕ) → k < 1024 → k ≢ i → is_present (pde m k) ≡ true → frame d ≢ frame (pde m k)
  pub taken :
      (q : ℕ) → q < 2 ^ 20 → used m.pm.bitmap q ≡ 0 → frame d ≢ frame (page_at m.pm.page_pool q)

pub apart : (i d : ℕ) (m : Vm) → IsPaged m → i < 1023 → IsTable m i d → frame d ≢ frame m.cr3
apart i d m paged l ok e =
    ok.unshared 1023 (omega arith) (omega arith) paged.self.present (e ∙ sym paged.self.itself)

pte-frame : (m : Vm) (a b k : ℕ) → frame a ≡ frame b → pte m a k ≡ pte m b k
unfolding pte
pte-frame m a b k e = ap (λ (f : ℕ). m.memory (word_at f k)) e

module _ (i j d t : ℕ) (m : Vm) (paged : IsPaged m) (li : i < 1023) (lj : j < 1024)
    (ok : IsTable m i d) where
  other_entry : (k : ℕ) → k < 1024 → k ≢ i → pde (enter i j d t m) k ≡ pde m k
  other_entry k l ne =
      ground (arith, pde-enter i j d t k m lj l (omega arith) (apart i d m paged li ok))

  pub this_entry : pde (enter i j d t m) i ≡ d
  this_entry =
      ground (arith, pde-enter i j d t i m lj (omega arith) (omega arith) (apart i d m paged li ok))

  -- The entries after the step, by cases.
  pub entry_cases :
      (k : ℕ)
      → k < 1024
      → ((k ≡ i) × (pde (enter i j d t m) k ≡ d)) ⊎ ((k ≢ i) × (pde (enter i j d t m) k ≡ pde m k))
  entry_cases k l = elim (ℕ_discrete k i) [
    | yes e ↦ inl (e, ap (pde (enter i j d t m)) e ∙ this_entry)
    | no ne ↦ inr (ne, other_entry k l ne)
  ]

  distinct_step :
      (a b : ℕ)
      → a < 1024
      → b < 1024
      → a ≢ b
      → is_present (pde (enter i j d t m) a) ≡ true
      → is_present (pde (enter i j d t m) b) ≡ true
      → frame (pde (enter i j d t m) a) ≢ frame (pde (enter i j d t m) b)
  distinct_step a b la lb ne pa pb = elim (entry_cases a la) [
    | inl (ea, da) ↦ elim (entry_cases b lb) [
      | inl (eb, _) ↦ absurd (ne (ea ∙ sym eb))
      | inr (nb, db) ↦ λ e.
          ok.unshared b lb nb (ap (λ (x : ℕ). is_present x) (sym db) ∙ pb)
            (ap (λ (x : ℕ). frame x) (sym da) ∙ (e ∙ ap (λ (x : ℕ). frame x) db))
    ]
    | inr (na, da) ↦ elim (entry_cases b lb) [
      | inl (eb, db) ↦ λ e.
          ok.unshared a la na (ap (λ (x : ℕ). is_present x) (sym da) ∙ pa)
            (ap (λ (x : ℕ). frame x) (sym db) ∙ (sym e ∙ ap (λ (x : ℕ). frame x) da))
      | inr (nb, db) ↦ λ e.
          paged.distinct a b la lb ne (ap (λ (x : ℕ). is_present x) (sym da) ∙ pa)
            (ap (λ (x : ℕ). is_present x) (sym db) ∙ pb)
            (ap (λ (x : ℕ). frame x) (sym da) ∙ (e ∙ ap (λ (x : ℕ). frame x) db))
    ]
  ]

  taken_step :
      (a q : ℕ)
      → a < 1024
      → is_present (pde (enter i j d t m) a) ≡ true
      → q < 2 ^ 20
      → used m.pm.bitmap q ≡ 0
      → frame (pde (enter i j d t m) a) ≢ frame (page_at m.pm.page_pool q)
  taken_step a q la pa lq free = elim (entry_cases a la) [
    | inl (_, da) ↦ λ e. ok.taken q lq free (ap (λ (x : ℕ). frame x) (sym da) ∙ e)
    | inr (_, da) ↦ λ e.
        paged.taken a q la (ap (λ (x : ℕ). is_present x) (sym da) ∙ pa) lq free
          (ap (λ (x : ℕ). frame x) (sym da) ∙ e)
  ]

  -- The space stays well formed.
  pub enter-IsPaged : IsPaged (enter i j d t m)
  unfolding enter poke
  enter-IsPaged = record {
    self = record {
      present =
          ap (λ (e : ℕ). is_present e) (other_entry 1023 (omega arith) (omega arith))
          ∙ paged.self.present;
      itself =
          ap (λ (e : ℕ). frame e) (other_entry 1023 (omega arith) (omega arith))
          ∙ paged.self.itself;
    };
    distinct = distinct_step;
    pool = paged.pool;
    taken = taken_step;
  }

  pub enter-translate :
      (v : ℕ)
      → v / 2 ^ 22 ≡ i
      → v / 2 ^ 12 % 1024 ≡ j
      → is_present t ≡ true
      → translate (enter i j d t m) v ≡ done (frame t * 4096 + v % 4096)
  unfolding translate
  enter-translate v ei ej present =
      let table = pte-enter i j d t d j m (omega arith) lj lj (apart i d m paged li ok) in
      let here : pte (enter i j d t m) d j ≡ t = ground (arith, table) in
      rw (ei, ej, this_entry, here, ok.present, present)

  pub enter-entry : pte (enter i j d t m) (pde (enter i j d t m) i) j ≡ t
  enter-entry =
      let table = pte-enter i j d t d j m (omega arith) lj lj (apart i d m paged li ok) in
      ap (λ (e : ℕ). pte (enter i j d t m) e j) this_entry ∙ ground (arith, table)

  pub enter-translate_absent :
      (v : ℕ)
      → v / 2 ^ 22 ≡ i
      → v / 2 ^ 12 % 1024 ≡ j
      → is_present t ≡ false
      → translate (enter i j d t m) v ≡ fault
  unfolding translate
  enter-translate_absent v ei ej absent =
      let table = pte-enter i j d t d j m (omega arith) lj lj (apart i d m paged li ok) in
      let here : pte (enter i j d t m) d j ≡ t = ground (arith, table) in
      rw (ei, ej, this_entry, here, ok.present, absent)

  -- A page under another entry of the directory.
  pub enter-translate_elsewhere :
      (w : ℕ)
      → w < 2 ^ 32
      → w / 2 ^ 22 ≢ 1023
      → w / 2 ^ 22 ≢ i
      → translate (enter i j d t m) w ≡ translate m w
  unfolding translate
  enter-translate_elsewhere w l window other_table =
      let k = w / 2 ^ 22 in
      let entry = other_entry k (omega arith) other_table in
      elim (Bool-cases (is_present (pde m k))) [
        | inr absent ↦ rw (entry, absent)
        | inl there ↦
            let unshared = ok.unshared k (omega arith) other_table there in
            let no_root = λ (e : frame (pde m k) ≡ frame m.cr3).
              paged.distinct k 1023 (omega arith) (omega arith) window there paged.self.present
                (e ∙ sym paged.self.itself) in
            let table : pte (enter i j d t m) (pde m k) (w / 2 ^ 12 % 1024)
                ≡ pte m (pde m k) (w / 2 ^ 12 % 1024) =
              ground (
                arith,
                pte-enter i j d t (pde m k) (w / 2 ^ 12 % 1024) m (omega arith) lj (omega arith)
                    no_root,
                unshared,
              ) in
            rw (entry, table)
      ]

  -- Any other page, unless its table is new with this step.
  pub enter-translate_other :
      (w : ℕ)
      → w < 2 ^ 32
      → w / 2 ^ 22 ≢ 1023
      → w / 2 ^ 12 ≢ i * 1024 + j
      → frame d ≡ frame (pde m i)
      → is_present (pde m i) ≡ true
      → translate (enter i j d t m) w ≡ translate m w
  unfolding translate
  enter-translate_other w l window other_page same present = elim (ℕ_discrete (w / 2 ^ 22) i) [
    | no ne ↦ enter-translate_elsewhere w l window ne
    | yes e ↦
        let slot = w / 2 ^ 12 % 1024 in
        let step =
          pte-enter i j d t d slot m (omega arith) lj (omega arith) (apart i d m paged li ok) in
        let table : pte (enter i j d t m) d slot ≡ pte m (pde m i) slot =
          ground (arith, step) ∙ pte-frame m d (pde m i) slot same in
        rw (e, this_entry, table, ok.present, present)
  ]
