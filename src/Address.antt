-- ===== src/Address.antt =====
-- include/kernel/vm.h: page alignment, the split of a virtual address, and the offset between
-- the kernel's physical and virtual addresses.
use leoman.Base.{ℕ, ◌+◌, ◌-◌, ◌*◌, ◌/◌, ◌%◌, ◌^◌, ◌<◌, bit_and, ◌≡◌, arith}
use leoman.Base.{u32, sub32, not32, shr}
use leoman.Base.Bits.Masks.{bit_and-shl, bit_and-low_mask}

abbrev pub page_size : ℕ
page_size = 4096

abbrev pub kern_voff : ℕ
kern_voff = 0xe0000000

-- `PALIGNUP` and `PALIGNDOWN`.
unfoldable pub palignup : ℕ → ℕ
palignup addr = bit_and (u32 (addr + page_size - 1)) (not32 (page_size - 1))

unfoldable pub paligndown : ℕ → ℕ
paligndown addr = bit_and addr (not32 (page_size - 1))

unfoldable pub p2v : ℕ → ℕ
p2v addr = u32 (addr + kern_voff)

unfoldable pub v2p : ℕ → ℕ
v2p addr = sub32 addr kern_voff

unfoldable pub vm_pdir_idx : ℕ → ℕ
vm_pdir_idx vaddr = shr vaddr 22

unfoldable pub vm_ptab_idx : ℕ → ℕ
vm_ptab_idx vaddr = bit_and (shr vaddr 12) 0x3ff

pub paligndown_lem : (a : ℕ) → a < 2 ^ 32 → paligndown a ≡ a / 4096 * 4096
unfolding paligndown
paligndown_lem a h = omega (arith, bit_and-shl a (2 ^ 20 - 1) 12, bit_and-low_mask 20 (a / 2 ^ 12))

pub palignup_lem : (a : ℕ) → palignup a ≡ u32 (a + 4095) / 4096 * 4096
unfolding palignup
palignup_lem a =
    let e : a + 4096 - 1 ≡ a + 4095 = omega arith in
    omega (
      arith,
      bit_and-shl (u32 (a + 4096 - 1)) (2 ^ 20 - 1) 12,
      bit_and-low_mask 20 (u32 (a + 4096 - 1) / 2 ^ 12),
    )

pub v2p-p2v : (a : ℕ) → a < 2 ^ 32 → v2p (p2v a) ≡ a
unfolding v2p p2v
v2p-p2v a h = omega arith

pub p2v-v2p : (a : ℕ) → a < 2 ^ 32 → p2v (v2p a) ≡ a
unfolding v2p p2v
p2v-v2p a h = omega arith

pub v2p-lt : (a : ℕ) → v2p a < 2 ^ 32
unfolding v2p
v2p-lt a = omega arith

pub vm_ptab_idx_lem : (v : ℕ) → vm_ptab_idx v ≡ v / 4096 % 1024
unfolding vm_ptab_idx
vm_ptab_idx_lem v = bit_and-low_mask 10 (v / 2 ^ 12)

-- An address of 32 bits is its directory index, its table index and its offset into the page, and
-- both indices are below 1024.
pub vaddr_split :
    (v : ℕ)
    → v < 2 ^ 32
    → (vm_pdir_idx v < 1024)
      × (vm_ptab_idx v < 1024)
      × (v ≡ vm_pdir_idx v * 2 ^ 22 + vm_ptab_idx v * 2 ^ 12 + v % 4096)
unfolding vm_pdir_idx
vaddr_split v h = omega (arith, vm_ptab_idx_lem v)

pub p2v-lt : (a : ℕ) → p2v a < 2 ^ 32
unfolding p2v
p2v-lt a = omega arith
