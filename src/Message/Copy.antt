-- ===== src/Message/Copy.antt =====
-- kernel/syscall.c: the copy of a message into the memory of a waiting process, page by page.
use mathlib.Core.Path.{subst, ap₂}
use leoman.Base.{
  ℕ, ◌+◌, ◌*◌, ◌/◌, ◌%◌, ◌^◌, ◌≤◌, ◌<◌, ◌≡◌, ◌≢◌, refl, sym, ap, ◌∙◌, arith, done, fault, ◌>>=◌,
  u32, true, false, ◌==◌, inr,
}
use leoman.Base.Bits.Masks.{bit_and-low_mask}
use leoman.Address.{paligndown_lem}
use leoman.Vm.Mmu.{Vm, is_present, pde, pte, translate}
use leoman.Vm.Space.{IsPaged, IsData}
use leoman.Vm.Map.{IsMapped}
use leoman.Vm.Unmap.{IsUnmapped, unmap_page-IsUnmapped}
use leoman.Vm.Range.{map_page_in_table}
use leoman.Vm.{map_loop, map_pages, unmap_loop, unmap_pages, npages}
use leoman.System.{byte_at, memcpy}
use leoman.System.Bytes.{byte_of, IsData-SameSpace, IsPaged-SameSpace}
use leoman.System.Copies.{memcpy_lem}
use leoman.Message.{window_at, copy_to_phys}

-- Up to a page of memory is one page of it.
one_page : (len : ℕ) → 0 < len → len ≤ 4096 → npages len ≡ 1
unfolding npages
one_page len some_asked small = ground arith

pub map_pages_one :
    (m : Vm) (v p len : ℕ)
    → IsPaged m
    → v < 2 ^ 32
    → v / 2 ^ 22 ≢ 1023
    → p < 2 ^ 32
    → 0 < len
    → len ≤ 4096
    → is_present (pde m (v / 2 ^ 22)) ≡ true
    → translate m (v / 4096 * 4096) ≡ fault
    → (m' : Vm) × (map_pages p v 0 len m ≡ done m')
      × IsMapped m m' (v / 4096 * 4096) (p / 4096 * 4096) 3
unfolding map_pages map_loop
map_pages_one m v p len paged lv window lp some_asked small there unmapped =
    let i : v / 4096 * 4096 / 2 ^ 22 ≡ v / 2 ^ 22 = omega arith in
    let (m', ran, mapped) =
      map_page_in_table m (v / 4096 * 4096) (p / 4096 * 4096) 0 paged (omega arith)
        (λ e. window (omega arith)) (omega arith) (omega arith)
        (ap (λ (k : ℕ). is_present (pde m k)) i ∙ there) unmapped in
    let asked : (len == 0) ≡ false = ground arith in
    (
      m',
      rw (asked, one_page len some_asked small, paligndown_lem p lp, paligndown_lem v lv)
          (ap
            (λ r. r >>= λ n.
              map_loop 0 (u32 (p / 4096 * 4096 + 4096)) (u32 (v / 4096 * 4096 + 4096)) 0 n)
            ran),
      mapped,
    )

pub unmap_pages_one :
    (m : Vm) (v a len : ℕ)
    → IsPaged m
    → v < 2 ^ 32
    → v / 2 ^ 22 ≢ 1023
    → 0 < len
    → len ≤ 4096
    → translate m (v / 4096 * 4096) ≡ done a
    → (m' : Vm) × (unmap_pages v len m ≡ done m') × IsUnmapped m m' (v / 4096 * 4096)
unfolding unmap_pages unmap_loop
unmap_pages_one m v a len paged lv window some_asked small hit =
    let (m', ran, gone) =
      unmap_page-IsUnmapped m (v / 4096 * 4096) a paged (omega arith) (λ e. window (omega arith))
        hit in
    let asked : (len == 0) ≡ false = ground arith in
    (
      m',
      rw (asked, one_page len some_asked small, paligndown_lem v lv)
          (ap (λ r. r >>= λ n. unmap_loop 0 (u32 (v / 4096 * 4096 + 4096)) n) ran),
      gone,
    )

pub window_at_lem :
    (base buf : ℕ) → base < 2 ^ 32 → base % 4096 ≡ 0 → window_at base buf ≡ base + buf % 4096
unfolding window_at
window_at_lem base buf l aligned = omega (arith, bit_and-low_mask 12 buf)

-- A frame that held no table holds none after a page is mapped under a table that was there.
pub IsData-IsMapped :
    (m m' : Vm) (v p f g : ℕ)
    → IsMapped m m' v p f
    → is_present (pde m (v / 2 ^ 22)) ≡ true
    → IsData m g
    → IsData m' g
IsData-IsMapped m m' v p f g h was free k l here e =
    let (there, same) = h.tables k l was here in free k l there (e ∙ same)

byte_of-IsMapped :
    (m m' : Vm) (v p f a : ℕ)
    → IsPaged m
    → IsMapped m m' v p f
    → v < 2 ^ 32
    → is_present (pde m (v / 2 ^ 22)) ≡ true
    → IsData m (a / 4096)
    → byte_of m' a ≡ byte_of m a
byte_of-IsMapped m m' v p f a paged h lv was free =
    let (there, same) = h.tables (v / 2 ^ 22) (omega arith) was h.there in
    let here : a / 4 / 1024 ≡ a / 4096 = omega arith in
    ap (byte_at (a % 4)) (
      h.kept (a / 4)
        (λ e. free 1023 (omega arith) paged.self.present (sym here ∙ (e ∙ sym paged.self.itself)))
        (λ e. free (v / 2 ^ 22) (omega arith) was (sym here ∙ (e ∙ same))))

byte_of-IsUnmapped :
    (m m' : Vm) (v a : ℕ) → IsUnmapped m m' v → IsData m (a / 4096) → byte_of m' a ≡ byte_of m a
byte_of-IsUnmapped m m' v a h free =
    ap (byte_at (a % 4)) (h.kept (a / 4) (subst (λ (f : ℕ). IsData m f) (omega arith) free))

-- Two addresses of one page translate together.
fault-no_page :
    (m : Vm) (v w a : ℕ)
    → w / 2 ^ 12 ≡ v / 2 ^ 12
    → translate m v ≡ fault
    → translate m w ≡ done a
    → ⊥
unfolding translate
fault-no_page m v w a e missing hit =
    let i : w / 2 ^ 22 ≡ v / 2 ^ 22 = omega arith in
    let j : w / 2 ^ 12 % 1024 ≡ v / 2 ^ 12 % 1024 = omega arith in
    ground (arith, missing, hit, ap (pde m) i, ap₂ (λ (k n : ℕ). pte m (pde m k) n) i j)

-- A buffer of `len` bytes at `src`, whose bytes stand at `from`, and that can be read while the
-- page of `base` is mapped to `phys`.
pub record IsReadable (m : Vm) (phys src len : ℕ) (from : ℕ → ℕ) : Type 0 where
  pub small : src + len < 2 ^ 32
  pub loads : (i : ℕ) → i < len → translate m (src + i) ≡ done (from i)
  pub outside : (i : ℕ) → i < len → (src + i) / 2 ^ 22 ≢ 1023
  pub data_only : (i : ℕ) → i < len → IsData m (from i / 4096)
  pub apart : (i j : ℕ) → i < len → j < len → from i ≢ phys + j

-- What the copy leaves: the bytes are at `phys` and on, and nothing else of the data is another.
pub record IsSent (m m' : Vm) (base phys len : ℕ) (from : ℕ → ℕ) : Type 0 where
  pub paged : IsPaged m'
  pub arrived : (i : ℕ) → i < len → byte_of m' (phys + i) ≡ byte_of m (from i)
  pub kept :
      (a : ℕ)
      → IsData m (a / 4096)
      → ((i : ℕ) → i < len → a ≢ phys + i)
      → byte_of m' a ≡ byte_of m a
  pub others :
      (w : ℕ)
      → w < 2 ^ 32
      → w / 2 ^ 22 ≢ 1023
      → w / 4096 ≢ base / 4096
      → translate m' w ≡ translate m w
  pub closed : translate m' base ≡ fault
  pub same_data : (g : ℕ) → IsData m g → IsData m' g
  pub remain : (k : ℕ) → k < 1024 → is_present (pde m k) ≡ true → is_present (pde m' k) ≡ true

pub copy_to_phys_lem :
    (m : Vm) (base phys buf src len : ℕ) (from : ℕ → ℕ)
    → IsPaged m
    → base % 4096 ≡ 0
    → base / 2 ^ 22 < 1023
    → is_present (pde m (base / 2 ^ 22)) ≡ true
    → translate m base ≡ fault
    → phys < 2 ^ 32
    → phys % 4096 ≡ buf % 4096
    → 0 < len
    → phys % 4096 + len ≤ 4096
    → IsData m (phys / 4096)
    → IsReadable m phys src len from
    → (m' : Vm) × (copy_to_phys base phys buf src len m ≡ done m') × IsSent m m' base phys len from
unfolding copy_to_phys
copy_to_phys_lem m base phys buf src len from paged aligned window was unmapped lp offset some_asked
      fits free r =
    let page : base / 4096 * 4096 ≡ base = omega arith in
    let (m₁, mapped, h₀) =
      map_pages_one m base phys len paged (omega arith) (λ e. omega arith) lp some_asked
        (omega arith) was (ap (translate m) page ∙ unmapped) in
    let h : IsMapped m m₁ base (phys / 4096 * 4096) 3 =
      subst (λ (v : ℕ). IsMapped m m₁ v (phys / 4096 * 4096) 3) page h₀ in
    let at : window_at base buf ≡ base + buf % 4096 =
      window_at_lem base buf (omega arith) aligned in
    let clear = λ (i : ℕ) (l : i < len) (e : (src + i) / 2 ^ 12 ≡ base / 2 ^ 12).
      fault-no_page m base (src + i) (from i) e unmapped (r.loads i l) in
    let (m₂, copied, c) =
      memcpy_lem len (base + buf % 4096) src phys from m₁ h.paged (omega arith) r.small
        (λ i l.
          h.others (src + i) (omega (arith, r.small)) (r.outside i l) (clear i l) (inr was)
          ∙ r.loads i l)
        (λ i l. h.mapped (base + buf % 4096 + i) (omega arith) ∙ ap done (omega arith))
        (λ i l.
          IsData-IsMapped m m₁ base (phys / 4096 * 4096) 3 ((phys + i) / 4096) h was
            (subst (λ (g : ℕ). IsData m g) (omega arith) free))
        (λ i j li lj. r.apart i j li lj) in
    let still : translate m₂ (base / 4096 * 4096) ≡ done (phys / 4096 * 4096) =
      ap (translate m₂) page
      ∙ (c.space.translates base (omega arith) ∙ (h.mapped base refl ∙ ap done (omega arith))) in
    let (m', gone, u₀) =
      unmap_pages_one m₂ base (phys / 4096 * 4096) len (IsPaged-SameSpace m₁ m₂ c.space h.paged)
        (omega arith) (λ e. omega arith) some_asked (omega arith) still in
    let u : IsUnmapped m₂ m' base = subst (λ (v : ℕ). IsUnmapped m₂ m' v) page u₀ in
    let data₂ = λ (g : ℕ) (d : IsData m g).
      IsData-SameSpace m₁ m₂ g c.space
        (IsData-IsMapped m m₁ base (phys / 4096 * 4096) 3 g h was d) in
    (
      m',
      ap (λ t. t >>= λ n. memcpy (window_at base buf) src len n >>= λ n'. unmap_pages base len n')
            mapped
          ∙ (ap (λ (d : ℕ). memcpy d src len m₁ >>= λ n'. unmap_pages base len n') at
              ∙ (ap (λ t. t >>= λ n'. unmap_pages base len n') copied ∙ gone)),
      record {
        paged = u.paged;
        arrived = λ i l.
            byte_of-IsUnmapped m₂ m' base (phys + i) u
              (data₂ ((phys + i) / 4096) (subst (λ (g : ℕ). IsData m g) (omega arith) free))
            ∙ (c.copied i l
                ∙ byte_of-IsMapped m m₁ base (phys / 4096 * 4096) 3 (from i) paged h (omega arith)
                    was (r.data_only i l));
        kept = λ a d out.
            byte_of-IsUnmapped m₂ m' base a u (data₂ (a / 4096) d)
            ∙ (c.kept a out
                ∙ byte_of-IsMapped m m₁ base (phys / 4096 * 4096) 3 a paged h (omega arith) was d);
        others = λ w l outside ne.
            u.others w l outside ne ∙ (c.space.translates w l ∙ h.others w l outside ne (inr was));
        closed = u.gone base refl;
        same_data = λ g d. u.same_data g (data₂ g d);
        remain = λ k lk was'.
            u.remain k lk
              (ap (λ (x : ℕ). is_present x) (c.space.entries k lk) ∙ h.remain k lk was');
      },
    )
