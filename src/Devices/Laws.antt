-- ===== src/Devices/Laws.antt =====
-- kernel/pci.c and kernel/timer.c: what is read from the configuration space, and the timer's
-- divisor.
use native.Mathlib.Nat.{div-lt_iff_lt-mul}
use leoman.Base.{
  ℕ, ◌+◌, ◌*◌, ◌/◌, ◌%◌, ◌^◌, ◌≤◌, ◌<◌, ◌≡◌, refl, ap, ◌∙◌, arith, ◌∷◌, bit_and, bit_or, shl, shr,
}
use leoman.Base.Bits.Masks.{bit_and-low_mask, bit_and-shl, bit_and-pow}
use leoman.Base.Bits.Fields.{shl-bit_or}
use leoman.Devices.{Ports, pci_id, pci_read_config, timer_set_phase}

-- The fields of the address do not overlap.
pci_id_lem :
    (bus dev fun reg : ℕ)
    → bus < 256
    → dev < 32
    → fun < 8
    → reg < 256
    → pci_id bus dev fun reg ≡ 2 ^ 31 + bus * 2 ^ 16 + dev * 2 ^ 11 + fun * 2 ^ 8 + reg / 4 * 4
unfolding pci_id
pci_id_lem bus dev fun reg lb ld lf lr =
    let low = bit_and reg 0xfc in
    let x : low ≡ reg / 4 * 4 = omega (arith, bit_and-shl reg 63 2, bit_and-low_mask 6 (reg / 4)) in
    let a = 2 ^ 15 + bus in
    let b = a * 32 + dev in
    let first : bit_or (shl 1 31) (shl bus 16) ≡ shl a 16 =
      shl-bit_or 1 (shl bus 16) 31 (omega arith) ∙ omega arith in
    let second : bit_or (shl a 16) (shl dev 11) ≡ shl b 11 =
      shl-bit_or a (shl dev 11) 16 (omega arith) ∙ omega arith in
    let third : bit_or (shl b 11) (shl fun 8) ≡ shl (b * 8 + fun) 8 =
      shl-bit_or b (shl fun 8) 11 (omega arith) ∙ omega arith in
    ap (λ (t : ℕ). bit_or (bit_or (bit_or t (shl dev 11)) (shl fun 8)) low) first
    ∙ (ap (λ (t : ℕ). bit_or (bit_or t (shl fun 8)) low) second
        ∙ (ap (λ (t : ℕ). bit_or t low) third
            ∙ (shl-bit_or (b * 8 + fun) low 8 (omega (arith, x)) ∙ omega (arith, x))))

-- For a bus below 256, a device below 32, a function below 8 and a register below 256, the
-- address that is written has these as its fields; from the lower half of a register of 32 bits
-- the low 16 bits of its word are read, and from the upper half always 0.
pub pci_read_config_lem :
    (config : ℕ → ℕ) (bus dev fun reg : ℕ)
    → bus < 256
    → dev < 32
    → fun < 8
    → reg < 256
    → let id = 2 ^ 31 + bus * 2 ^ 16 + dev * 2 ^ 11 + fun * 2 ^ 8 + reg / 4 * 4 in
      (reg % 4 < 2 → pci_read_config config bus dev fun reg ≡ config id % 2 ^ 16)
      × (2 ≤ reg % 4 → pci_read_config config bus dev fun reg ≡ 0)
unfolding pci_read_config
pci_read_config_lem config bus dev fun reg lb ld lf lr =
    let same = ap config (pci_id_lem bus dev fun reg lb ld lf lr) in
    let word = config (pci_id bus dev fun reg) % 2 ^ 16 in
    let half = bit_and-pow reg 1 in
    let mask = bit_and-low_mask 16 (shr word (bit_and reg 2 * 8)) in
    (
      λ lo.
          let none_ : bit_and reg 2 * 8 ≡ 0 = omega (arith, half) in
          let whole : shr word (bit_and reg 2 * 8) ≡ word =
            ap (λ (k : ℕ). word / 2 ^ k) none_ ∙ omega arith in
          omega (arith, mask, whole, same),
      λ hi.
          let all_ : bit_and reg 2 * 8 ≡ 16 = omega (arith, half) in
          let gone : shr word (bit_and reg 2 * 8) ≡ 0 =
            ap (λ (k : ℕ). word / 2 ^ k) all_ ∙ omega arith in
          omega (arith, mask, gone),
    )

divisor-lt : (hz : ℕ) → 19 ≤ hz → 1193180 / hz < 65536
divisor-lt hz l =
    (div-lt_iff_lt-mul {k = hz} {x = 1193180} {y = 65536} (omega arith)).1 (omega arith)

-- For a frequency of 19 Hz and more the divisor of the timer fits into the two bytes that are written.
pub timer_set_phase_lem :
    (hz : ℕ) (ports : Ports)
    → 19 ≤ hz
    → (low high : ℕ) × (timer_set_phase hz ports
        ≡ (0x40, high) ∷ (0x40, low) ∷ (0x43, 0x36) ∷ ports)
      × (low < 256)
      × (high < 256)
      × (low + 256 * high ≡ 1193180 / hz)
unfolding timer_set_phase
timer_set_phase_lem hz ports l =
    let small = divisor-lt hz l in
    let mask = bit_and-low_mask 8 (1193180 / hz) in
    (
      bit_and (1193180 / hz) 0xff,
      shr (1193180 / hz) 8 % 2 ^ 8,
      refl,
      omega (arith, mask),
      omega arith,
      omega (arith, mask, small),
    )
