-- ===== src/Idt/Gates.antt =====
-- kernel/idt.c: what a gate that was set holds, and the table after `idt_init`.
use leoman.Base.{ℕ, zero, suc, ◌+◌, ◌-◌, ◌/◌, ◌%◌, ◌^◌, ◌≤◌, ◌<◌, bit_and, ◌&&◌, true, false, List}
use leoman.Base.{◌≡◌, refl, sym, ap, ◌∙◌, arith, leb, ltb, ◌==◌, if◌then◌else◌, u8, shr, ℕ_discrete}
use leoman.Base.{
  length, get_or, replicate, length-set, length-replicate, get_or-replicate, get_or-set_self,
  get_or-set_ne, for_from, Bool-cases, inl, inr,
}
use leoman.Base.Bits.Masks.{bit_and-shl, bit_and-low_mask}
use leoman.Base.Bits.Fields.{shl-bit_or}
use leoman.Idt.{
  Gate, zero_gate, make_gate, gate_base, idt_set_gate, idt_get_gate, idt_init, Tables, Machine,
}

gate_base-make_gate :
    (base segm flags : ℕ) → base < 2 ^ 32 → gate_base (make_gate base segm flags) ≡ base
unfolding gate_base make_gate
gate_base-make_gate base segm flags h = omega (
  arith,
  bit_and-low_mask 16 base,
  bit_and-shl base (2 ^ 16 - 1) 16,
  bit_and-low_mask 16 (base / 2 ^ 16),
  shl-bit_or (shr (bit_and base 0xffff0000) 16) (bit_and base 0xffff) 16
      (omega (arith, bit_and-low_mask 16 base)),
)

gate-idt_set_gate :
    (num base segm flags n : ℕ) (idt : List Gate)
    → length idt ≡ 256
    → get_or (idt_set_gate num base segm flags idt) n zero_gate
      ≡ (if n == u8 num then make_gate base segm flags else get_or idt n zero_gate)
unfolding idt_set_gate
gate-idt_set_gate num base segm flags n idt size = elim (ℕ_discrete n (u8 num)) [
  | yes same ↦
      let hit : (n == u8 num) ≡ true = ground arith in
      rw (hit, same)
        (get_or-set_self idt (u8 num) (make_gate base segm flags) zero_gate (omega arith))
  | no other ↦
      let miss : (n == u8 num) ≡ false = ground arith in
      rw miss
        (get_or-set_ne idt (u8 num) n (make_gate base segm flags) zero_gate (λ e. other (sym e)))
]

-- After a gate of the table of 256 was set to a 32-bit address, its number reads back that
-- address, and every other number reads what it did before; a number counts modulo 256.
pub idt_get_gate-idt_set_gate :
    (n num base segm flags : ℕ) (idt : List Gate)
    → length idt ≡ 256
    → base < 2 ^ 32
    → idt_get_gate n (idt_set_gate num base segm flags idt)
      ≡ (if u8 n == u8 num then base else idt_get_gate n idt)
unfolding idt_get_gate
idt_get_gate-idt_set_gate n num base segm flags idt size h = elim (Bool-cases (u8 n == u8 num)) [
  | inl same ↦
      rw (gate-idt_set_gate num base segm flags (u8 n) idt size, same)
        (gate_base-make_gate base segm flags h)
  | inr other ↦ rw (gate-idt_set_gate num base segm flags (u8 n) idt size, other) refl
]

gates_step :
    (from rounds : ℕ) (stub : ℕ → ℕ) (n : ℕ) (before after : Gate)
    → from + suc rounds ≤ 256
    → after ≡ (if n == u8 from then make_gate (stub from) 0x8 0x8e else before)
    → (if leb (suc from) n && ltb n (suc from + rounds) then make_gate (stub n) 0x8 0x8e else after)
      ≡ (if leb from n && ltb n (from + suc rounds) then make_gate (stub n) 0x8 0x8e else before)
gates_step from rounds stub n before after l e = elim (ℕ_discrete n from) [
  | yes same ↦
      let later : (leb (suc from) n && ltb n (suc from + rounds)) ≡ false = ground arith in
      let here : (leb from n && ltb n (from + suc rounds)) ≡ true = ground arith in
      let hit : (n == u8 from) ≡ true = ground arith in rw (later, here, e, hit, same) refl
  | no other ↦
      let miss : (n == u8 from) ≡ false = ground arith in
      let both : (leb (suc from) n && ltb n (suc from + rounds))
          ≡ (leb from n && ltb n (from + suc rounds)) =
        ground arith in
      rw (e, miss, both) refl
]

-- The gates `from` to `from + rounds - 1` are set to the stubs, the others are as before.
gates_lem :
    (rounds from : ℕ) (stub : ℕ → ℕ) (idt : List Gate) (n : ℕ)
    → length idt ≡ 256
    → from + rounds ≤ 256
    → let idt' = for_from from rounds (λ i. idt_set_gate i (stub i) 0x8 0x8e) idt in
      (length idt' ≡ 256)
      × (get_or idt' n zero_gate ≡ (
          if leb from n && ltb n (from + rounds)
          then make_gate (stub n) 0x8 0x8e
          else get_or idt n zero_gate))
unfolding for_from
gates_lem zero from stub idt n size l =
    let none_left : (leb from n && ltb n (from + 0)) ≡ false = ground arith in
    (size, rw none_left refl)
gates_lem (suc rounds) from stub idt n size l =
    let idt' = idt_set_gate from (stub from) 0x8 0x8e idt in
    let size' : length idt' ≡ 256 =
      unfold idt_set_gate in length-set idt (u8 from) (make_gate (stub from) 0x8 0x8e) ∙ size in
    let (size'', rest) = gates_lem rounds (suc from) stub idt' n size' (omega arith) in
    let this = gate-idt_set_gate from (stub from) 0x8 0x8e n idt size in
    (size'', rest ∙ gates_step from rounds stub n _ _ l this)

regions :
    (n : ℕ) (line exception none_set below : Gate)
    → below ≡ (if leb 0 n && ltb n 32 then exception else none_set)
    → (if leb 32 n && ltb n 48 then line else below)
      ≡ (if ltb n 32 then exception else if ltb n 48 then line else none_set)
regions n line exception none_set below e = ground (arith, e)

-- A present interrupt gate of the highest privilege (0x8e) into the kernel's code segment (0x8), as
-- the processor reads it: the address in two halves of 16 bits.
abbrev pub kernel_gate : ℕ → Gate
kernel_gate address = record {
  base_low = address % 2 ^ 16;
  segm = 0x8;
  zero = 0;
  flags = 0x8e;
  base_high = address / 2 ^ 16 % 2 ^ 16;
}

make_gate-kernel_gate : (address : ℕ) → make_gate address 0x8 0x8e ≡ kernel_gate address
unfolding make_gate
make_gate-kernel_gate address =
    let low : bit_and address 0xffff ≡ address % 2 ^ 16 =
      omega (arith, bit_and-low_mask 16 address) in
    let high : shr (bit_and address 0xffff0000) 16 ≡ address / 2 ^ 16 % 2 ^ 16 =
      omega (arith, bit_and-shl address (2 ^ 16 - 1) 16, bit_and-low_mask 16 (address / 2 ^ 16)) in
    rw (low, high) refl

-- From tables of any content, idt_init points the gates 0 to 31 at the exception stubs and 32 to
-- 47 at those of the interrupt lines, all present interrupt gates of the highest privilege into
-- the kernel's code segment, with the address in two halves, and clears the others.
pub idt_init-gates :
    (isr irq : ℕ → ℕ) (screen_of_death n : ℕ) (t : Tables) (m : Machine)
    → n < 256
    → get_or (idt_init isr irq screen_of_death t m).0.idt n zero_gate ≡ (
        if ltb n 32
        then kernel_gate (isr n)
        else if ltb n 48
        then kernel_gate (irq (n - 32))
        else zero_gate)
unfolding idt_init
idt_init-gates isr irq screen_of_death n t m l =
    let empty = replicate 256 zero_gate in
    let (size, isrs) = gates_lem 32 0 isr empty n (length-replicate 256 zero_gate) (omega arith) in
    let (size', irqs) = gates_lem 16 32 (λ i. irq (i - 32)) _ n size (omega arith) in
    rw (sym (make_gate-kernel_gate (isr n)), sym (make_gate-kernel_gate (irq (n - 32))))
      (irqs
        ∙ regions n (make_gate (irq (n - 32)) 0x8 0x8e) (make_gate (isr n) 0x8 0x8e) zero_gate _ (
            isrs
            ∙ ap (λ (g : Gate). if leb 0 n && ltb n 32 then make_gate (isr n) 0x8 0x8e else g)
                (get_or-replicate 256 n zero_gate)))
