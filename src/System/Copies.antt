-- ===== src/System/Copies.antt =====
-- kernel/kernel.c: what `memcpy` does to the physical memory.
use leoman.Base.{
  ℕ, zero, suc, ◌+◌, ◌/◌, ◌%◌, ◌^◌, ◌<◌, ◌≡◌, ◌≢◌, refl, ap, ◌∙◌, arith, done, ◌>>=◌, >>=-at_done,
  u32,
}
use mathlib.Core.Path.{subst, ap₂}
use leoman.Vm.Mmu.{Vm, translate}
use leoman.Vm.Space.{IsPaged, IsData}
use leoman.System.{set_byte, load_byte, store_byte, memcpy}
use leoman.System.Bytes.{
  byte_of, byte_at-lt, put_byte, byte_of-put_byte, byte_of-put_byte_ne, SameSpace, SameSpace-refl,
  SameSpace-trans, IsData-SameSpace, IsPaged-SameSpace, poke-SameSpace,
}

load_byte_lem : (v a : ℕ) (m : Vm) → translate m v ≡ done a → load_byte v m ≡ done (byte_of m a)
unfolding load_byte
load_byte_lem v a m hit = >>=-at_done (translate m v) _ hit

store_byte_lem :
    (v a b : ℕ) (m : Vm) → translate m v ≡ done a → store_byte v b m ≡ done (put_byte a b m)
unfolding store_byte put_byte
store_byte_lem v a b m hit = >>=-at_done (translate m v) _ hit

-- A copy of `n` bytes from `src`, whose bytes stand at `from`, to the physical address `to`.
pub record IsCopied (m m' : Vm) (n to : ℕ) (from : ℕ → ℕ) : Type 0 where
  pub space : SameSpace m m'
  pub copied : (i : ℕ) → i < n → byte_of m' (to + i) ≡ byte_of m (from i)
  pub kept : (a : ℕ) → ((i : ℕ) → i < n → a ≢ to + i) → byte_of m' a ≡ byte_of m a

copy_step :
    (dst src n : ℕ) (m : Vm) (a b : ℕ)
    → translate m src ≡ done a
    → translate m dst ≡ done b
    → memcpy dst src (suc n) m
      ≡ memcpy (u32 (dst + 1)) (u32 (src + 1)) n (put_byte b (byte_of m a) m)
unfolding memcpy
copy_step dst src n m a b from to =
    ap (λ r. r >>= λ m'. memcpy (u32 (dst + 1)) (u32 (src + 1)) n m')
      (>>=-at_done (load_byte src m) _ (load_byte_lem src a m from)
        ∙ store_byte_lem dst b (byte_of m a) m to)

pub memcpy_lem :
    (n dst src to : ℕ) (from : ℕ → ℕ) (m : Vm)
    → IsPaged m
    → dst + n < 2 ^ 32
    → src + n < 2 ^ 32
    → ((i : ℕ) → i < n → translate m (src + i) ≡ done (from i))
    → ((i : ℕ) → i < n → translate m (dst + i) ≡ done (to + i))
    → ((i : ℕ) → i < n → IsData m ((to + i) / 4096))
    → ((i j : ℕ) → i < n → j < n → from i ≢ to + j)
    → (m' : Vm) × (memcpy dst src n m ≡ done m') × IsCopied m m' n to from
memcpy_lem zero dst src to from m paged ld ls loads stores free apart = (
  m,
  (unfold memcpy in refl),
  record { space = SameSpace-refl m; copied = λ i l. absurd (omega arith); kept = λ a out. refl },
)
memcpy_lem (suc n) dst src to from m paged ld ls loads stores free apart =
    let b = byte_of m (from 0) in
    let lb : b < 256 = byte_at-lt (from 0 % 4) (m.memory (from 0 / 4)) in
    let m₁ = put_byte to b m in
    let frame_of : IsData m (to / 4 / 1024) =
      subst (λ (f : ℕ). IsData m f) (omega arith) (free 0 (omega arith)) in
    let same : SameSpace m m₁ =
      unfold put_byte in
      poke-SameSpace (to / 4) (set_byte (to % 4) b (m.memory (to / 4))) m paged.self frame_of in
    let next_dst : u32 (dst + 1) ≡ dst + 1 = omega arith in
    let next_src : u32 (src + 1) ≡ src + 1 = omega arith in
    let (m', ran, rest) =
      memcpy_lem n (dst + 1) (src + 1) (to + 1) (λ i. from (suc i)) m₁
        (IsPaged-SameSpace m m₁ same paged) (omega arith) (omega arith)
        (λ i l.
          same.translates (src + 1 + i) (omega arith)
          ∙ (ap (translate m) (omega arith) ∙ loads (suc i) (omega arith)))
        (λ i l.
          same.translates (dst + 1 + i) (omega arith)
          ∙ (ap (translate m) (omega arith)
              ∙ (stores (suc i) (omega arith) ∙ ap done (omega arith))))
        (λ i l.
          IsData-SameSpace m m₁ ((to + 1 + i) / 4096) same
            (subst (λ (f : ℕ). IsData m f) (omega arith) (free (suc i) (omega arith))))
        (λ i j li lj e. apart (suc i) (suc j) (omega arith) (omega arith) (omega arith)) in
    let first : byte_of m' to ≡ b =
      rest.kept to (λ i l e. omega arith) ∙ byte_of-put_byte to b m lb in
    (
      m',
      copy_step dst src n m (from 0) to (ap (translate m) (omega arith) ∙ loads 0 (omega arith))
            (ap (translate m) (omega arith) ∙ (stores 0 (omega arith) ∙ ap done (omega arith)))
          ∙ (ap₂ (λ (x y : ℕ). memcpy x y n m₁) next_dst next_src ∙ ran),
      record {
        space = SameSpace-trans same rest.space;
        copied = copied_from m' first rest.copied;
        kept = λ a out.
            rest.kept a (λ i l e. out (suc i) (omega arith) (omega arith))
            ∙ byte_of-put_byte_ne to b a m lb (λ e. out 0 (omega arith) (omega arith));
      },
    )
  where
    copied_from :
        (m' : Vm)
        → byte_of m' to ≡ byte_of m (from 0)
        → ((i : ℕ)
            → i < n
            → byte_of m' (to + 1 + i) ≡ byte_of (put_byte to (byte_of m (from 0)) m) (from (suc i)))
        → (i : ℕ) → i < suc n
        → byte_of m' (to + i) ≡ byte_of m (from i)
    copied_from m' first rest zero l = ap (byte_of m') (omega arith) ∙ first
    copied_from m' first rest (suc i) l =
        ap (byte_of m') (omega arith)
        ∙ (rest i (omega arith)
            ∙ byte_of-put_byte_ne to (byte_of m (from 0)) (from (suc i)) m
                (byte_at-lt (from 0 % 4) (m.memory (from 0 / 4)))
                (λ e. apart (suc i) 0 (omega arith) (omega arith) (omega arith)))
