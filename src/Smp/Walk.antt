-- ===== src/Smp/Walk.antt =====
-- kernel/smp.c: which processors the walk over the configuration table starts.
use mathlib.Core.Path.{fun_ext}
use leoman.Base.{
  ℕ, zero, suc, ◌+◌, ◌^◌, ◌≤◌, ◌<◌, ◌≡◌, refl, ap, ◌∙◌, arith, true, false, ◌==◌, if◌then◌else◌,
  Option, none, some, List, [], ◌∷◌, length, Run, done, fault, halted, ◌>>=◌, u32, Bool-cases, inl,
  inr,
}
use leoman.Smp.{Platform, Smp, smp_init_core, start_cpu, serve_entry, entry_size, walk_entries}
use leoman.Smp.Search.{Reads}

-- The entries of the table: a processor with its APIC's id, one of the types 1 to 4, and another.
pub data MpEntry : Type 0 where
  cpu : ℕ → MpEntry
  device : ℕ → MpEntry
  unknown : ℕ → MpEntry

abbrev pub size_of : MpEntry → ℕ
size_of (cpu id) = 20
size_of (device t) = 8
size_of (unknown t) = 8

abbrev pub IsEntry : (ℕ → ℕ) → ℕ → MpEntry → Type 0
IsEntry memory a (cpu id) = (memory a ≡ 0) × (memory (a + 1) ≡ id)
IsEntry memory a (device t) = (0 < t) × (t < 5) × (memory a ≡ t)
IsEntry memory a (unknown t) = (4 < t) × (memory a ≡ t)

-- The entries stand one behind the other from `a` on.
abbrev pub AreEntries : (ℕ → ℕ) → ℕ → List MpEntry → Type 0
AreEntries memory a [] = Unit {0}
AreEntries memory a (x ∷ xs) = IsEntry memory a x × AreEntries memory (a + size_of x) xs

abbrev pub entries_end : ℕ → List MpEntry → ℕ
entries_end a [] = a
entries_end a (x ∷ xs) = entries_end (a + size_of x) xs

-- The processors to start: those before the first entry of an unknown type, but for the one with
-- the id 0.
unfoldable pub cores_of : List MpEntry → List ℕ
cores_of [] = []
cores_of (cpu id ∷ xs) = if id == 0 then cores_of xs else id ∷ cores_of xs
cores_of (device t ∷ xs) = cores_of xs
cores_of (unknown t ∷ xs) = []

unfoldable pub start_all : Platform → ℕ → List ℕ → Smp → Run Smp
start_all host apic [] s = done s
start_all host apic (id ∷ ids) s =
    smp_init_core host apic id s >>= λ (status, s'). start_all host apic ids s'

entries_end-le : (a : ℕ) (xs : List MpEntry) → a ≤ entries_end a xs
entries_end-le a [] = omega arith
entries_end-le a (cpu id ∷ xs) = omega (arith, entries_end-le (a + 20) xs)
entries_end-le a (device t ∷ xs) = omega (arith, entries_end-le (a + 8) xs)
entries_end-le a (unknown t ∷ xs) = omega (arith, entries_end-le (a + 8) xs)

entry_size-device : (t : ℕ) → 0 < t → t < 5 → entry_size t ≡ some 8
unfolding entry_size
entry_size-device zero some_ l = absurd (omega arith)
entry_size-device (suc t) some_ l = ground arith

entry_size-unknown : (t : ℕ) → 4 < t → entry_size t ≡ none
unfolding entry_size
entry_size-unknown zero l = absurd (omega arith)
entry_size-unknown (suc t) l = ground arith

serve_entry-device :
    (host : Platform) (peek : ℕ → Run ℕ) (apic t a : ℕ) (s : Smp)
    → 0 < t
    → serve_entry host peek apic t a s ≡ done s
unfolding serve_entry
serve_entry-device host peek apic zero a s l = absurd (omega arith)
serve_entry-device host peek apic (suc t) a s l = refl

bind_bind :
    (r : Run (ℕ × Smp)) (k : Smp → Run Smp)
    → ((r >>= λ (status, s'). done s') >>= k) ≡ (r >>= λ (status, s'). k s')
bind_bind (done (status, s)) k = refl
bind_bind fault k = refl
bind_bind halted k = refl

abbrev by_size : Platform → (ℕ → Run ℕ) → ℕ → ℕ → ℕ → ℕ → Smp → Option ℕ → Run Smp
by_size host peek apic n type a s size = elim size [
  | none ↦ done s
  | some size ↦ serve_entry host peek apic type a s >>= λ s'.
      walk_entries host peek apic n (u32 (a + size)) s'
]

walk-type :
    (host : Platform) (peek : ℕ → Run ℕ) (apic t n a : ℕ) (s : Smp)
    → peek a ≡ done t
    → walk_entries host peek apic (suc n) a s ≡ by_size host peek apic n t a s (entry_size t)
unfolding walk_entries
walk-type host peek apic t n a s first = rw first refl

walk-cpu :
    (host : Platform) (peek : ℕ → Run ℕ) (apic id n a : ℕ) (s : Smp)
    → peek a ≡ done 0
    → peek (u32 (a + 1)) ≡ done id
    → walk_entries host peek apic (suc n) a s
      ≡ (start_cpu host apic id s >>= λ s'. walk_entries host peek apic n (u32 (a + 20)) s')
unfolding walk_entries serve_entry entry_size
walk-cpu host peek apic id n a s first second = rw first (rw second refl)

start_cpu-first :
    (host : Platform) (apic id : ℕ) (s : Smp) → (id == 0) ≡ true → start_cpu host apic id s ≡ done s
unfolding start_cpu
start_cpu-first host apic id s e = rw e refl

start_cpu-other :
    (host : Platform) (apic id : ℕ) (s : Smp)
    → (id == 0) ≡ false
    → start_cpu host apic id s ≡ (smp_init_core host apic id s >>= λ (status, s'). done s')
unfolding start_cpu
start_cpu-other host apic id s e = rw e refl

-- Over a configuration table whose entries can be read below 2 ^ 32, the walk is the start of the
-- processors it lists, one after the other in their order, leaving out the one with the id 0 and
-- all behind the first entry of an unknown type.
pub walk_entries_lem :
    (host : Platform) (peek : ℕ → Run ℕ) (memory : ℕ → ℕ) (apic : ℕ) (xs : List MpEntry) (a : ℕ)
    (s : Smp)
    → Reads peek memory (entries_end a xs)
    → entries_end a xs < 2 ^ 32
    → AreEntries memory a xs
    → walk_entries host peek apic (length xs) a s ≡ start_all host apic (cores_of xs) s
unfolding walk_entries start_all cores_of
walk_entries_lem host peek memory apic [] a s reads small table = refl
walk_entries_lem host peek memory apic (cpu id ∷ xs) a s reads small ((type, here), table) =
    let room = entries_end-le (a + 20) xs in
    let first : peek a ≡ done 0 = reads a (omega arith) ∙ ap done type in
    let second : peek (u32 (a + 1)) ≡ done id =
      ap peek (omega arith) ∙ (reads (a + 1) (omega arith) ∙ ap done here) in
    let next : u32 (a + 20) ≡ a + 20 = omega arith in
    let rest = λ (s' : Smp).
      ap (λ (n : ℕ). walk_entries host peek apic (length xs) n s') next
      ∙ walk_entries_lem host peek memory apic xs (a + 20) s' reads small table in
    let step = walk-cpu host peek apic id (length xs) a s first second in
    let go = λ (s' : Smp). walk_entries host peek apic (length xs) (u32 (a + 20)) s' in
    elim (Bool-cases (id == 0)) [
      | inl e ↦ step ∙ (ap (λ r. r >>= go) (start_cpu-first host apic id s e) ∙ (rw e (rest s)))
      | inr e ↦
          step
          ∙ (ap (λ r. r >>= go) (start_cpu-other host apic id s e)
              ∙ (bind_bind (smp_init_core host apic id s) go
                  ∙ (rw e (
                      ap
                        (λ (k : Smp → Run Smp).
                          smp_init_core host apic id s >>= λ (status, s'). k s')
                        (fun_ext rest)))))
    ]
walk_entries_lem host peek memory apic (device t ∷ xs) a s reads small ((lo, hi, type), table) =
    let room = entries_end-le (a + 8) xs in
    let first : peek a ≡ done t = reads a (omega arith) ∙ ap done type in
    let next : u32 (a + 8) ≡ a + 8 = omega arith in
    walk-type host peek apic t (length xs) a s first
    ∙ (ap (by_size host peek apic (length xs) t a s) (entry_size-device t lo hi)
        ∙ (ap (λ r. r >>= λ s'. walk_entries host peek apic (length xs) (u32 (a + 8)) s')
              (serve_entry-device host peek apic t a s lo)
            ∙ (ap (λ (n : ℕ). walk_entries host peek apic (length xs) n s) next
                ∙ walk_entries_lem host peek memory apic xs (a + 8) s reads small table)))
walk_entries_lem host peek memory apic (unknown t ∷ xs) a s reads small ((lo, type), table) =
    let room = entries_end-le (a + 8) xs in
    let first : peek a ≡ done t = reads a (omega arith) ∙ ap done type in
    walk-type host peek apic t (length xs) a s first
    ∙ ap (by_size host peek apic (length xs) t a s) (entry_size-unknown t lo)
