-- ===== src/Idt.antt =====
-- kernel/idt.c and include/kernel/idt.h: the interrupt gates, the tables of handlers, and the
-- functions that the interrupt stubs call. The address of a stub of kernel/idt_obj.asm, and what a
-- handler does when it is called, are parameters. NULL is 0.
pub mod Gates
pub mod Handlers
use leoman.Base.{ℕ, zero, suc, ◌+◌, ◌-◌, ◌*◌, ◌^◌, bit_and, bit_or, ◌||◌, List, [], ◌∷◌, ◌++◌}
use leoman.Base.{leb, ltb, ◌==◌, not, if◌then◌else◌, u8, u16, u32, shl, shr, get_or, set, replicate}
use leoman.Base.{Bool, ◌&&◌, Run, done, fault, for_from}
use leoman.TextMode.{Cells, write}

-- `struct idt_entry`
pub record Gate : Type 0 where
  pub base_low : ℕ
  pub segm : ℕ
  pub zero : ℕ
  pub flags : ℕ
  pub base_high : ℕ

abbrev pub zero_gate : Gate
zero_gate = record { base_low = 0; segm = 0; zero = 0; flags = 0; base_high = 0 }

-- The fields that `idt_set_gate` writes.
unfoldable pub make_gate : ℕ → ℕ → ℕ → Gate
make_gate base segm flags = record {
  base_low = bit_and base 0xffff;
  segm = u16 segm;
  zero = 0;
  flags = u8 flags;
  base_high = shr (bit_and base 0xffff0000) 16;
}

unfoldable pub idt_set_gate : ℕ → ℕ → ℕ → ℕ → List Gate → List Gate
idt_set_gate num base segm flags idt = set idt (u8 num) (make_gate base segm flags)

unfoldable pub gate_base : Gate → ℕ
gate_base g = u32 (bit_or (shl g.base_high 16) g.base_low)

unfoldable pub idt_get_gate : ℕ → List Gate → ℕ
unfolding gate_base
idt_get_gate num idt = gate_base (get_or idt (u8 num) zero_gate)

-- `struct irq_handler_entry`
pub record IrqHandlerEntry : Type 0 where
  pub handler : ℕ
  pub pdir : ℕ

abbrev pub no_entry : IrqHandlerEntry
no_entry = record { handler = 0; pdir = 0 }

-- The static tables of idt.c.
pub record Tables : Type 0 where
  pub idt : List Gate
  pub isr_handlers : List ℕ
  pub irq_handlers : List IrqHandlerEntry
  pub int_handlers : List ℕ

-- A C `int` modulo 2 ^ 32.
abbrev pub is_negative : ℕ → Bool
is_negative num = leb (2 ^ 31) num

-- `num < 16` as a test of ints; a negative index lies before the array.
unfoldable pub irq_install_handler : ℕ → ℕ → ℕ → Tables → Run Tables
irq_install_handler num handler pdir t =
    if is_negative num
    then fault
    else if ltb num 16
    then done (record t {
      irq_handlers = set t.irq_handlers num (record { handler = handler; pdir = pdir });
    })
    else done t

unfoldable pub irq_uninstall_handler : ℕ → Tables → Run Tables
irq_uninstall_handler num t =
    if is_negative num
    then fault
    else if ltb num 16
    then (let old = get_or t.irq_handlers num no_entry in
        done (record t { irq_handlers = set t.irq_handlers num (record old { handler = 0 }) }))
    else done t

-- `num >= 48` as a test of ints; an index from 256 on lies behind the array.
unfoldable pub int_install_handler : ℕ → ℕ → Tables → Run Tables
int_install_handler num handler t =
    if is_negative num || ltb num 48
    then done t
    else if leb 256 num
    then fault
    else done (record t { int_handlers = set t.int_handlers (num - 48) handler })

unfoldable pub int_uninstall_handler : ℕ → Tables → Run Tables
unfolding int_install_handler
int_uninstall_handler num t = int_install_handler num 0 t

-- What the dispatch reads and writes: the number in a saved register frame by the frame's address,
-- the page directory register, the bytes written to ports (the last one first), and the text
-- memory.
pub record Machine : Type 0 where
  pub num : ℕ → ℕ
  pub cr3 : ℕ
  pub ports : List (ℕ × ℕ)
  pub text : Cells

unfoldable pub outb : ℕ → ℕ → Machine → Machine
outb port byte m = record m { ports = (port, byte) ∷ m.ports }

unfoldable pub set_cr3 : ℕ → Machine → Machine
set_cr3 pdir m = record m { cr3 = pdir }

unfoldable pub show : ℕ → ℕ → Machine → Machine
show cell value m = record m { text = write m.text cell value }

-- The call of the handler at an address with the frame at an address: the frame that it returns,
-- and the machine after it.
module _ (call : ℕ → ℕ → Machine → ℕ × Machine) where
  unfoldable pub isr_handler : Tables → ℕ → Machine → Machine
  unfolding show
  isr_handler t regs m =
      let handler = get_or t.isr_handlers (m.num regs) 0 in
      if ltb (m.num regs) 32
      then (if handler == 0 then show 0 0xc053 m else (call handler regs m).1)
      else m

  -- The call in the address space of the entry, where it names one.
  unfoldable pub run_irq : IrqHandlerEntry → ℕ → Machine → ℕ × Machine
  unfolding set_cr3
  run_irq entry regs m =
      let (ret, m') =
        call entry.handler regs (if entry.pdir == 0 then m else set_cr3 entry.pdir m) in
      (ret, if entry.pdir == 0 then m' else set_cr3 m.cr3 m')

  unfoldable pub dispatch_irq : Tables → ℕ → Machine → ℕ × Machine
  unfolding run_irq show
  dispatch_irq t regs m =
      let entry = get_or t.irq_handlers (m.num regs - 32) no_entry in
      if leb 32 (m.num regs) && ltb (m.num regs) 48
      then (if entry.handler == 0 then (regs, show 1 0xc051 m) else run_irq entry regs m)
      else (regs, m)

  unfoldable pub end_of_interrupt : ℕ → Machine → Machine
  unfolding outb
  end_of_interrupt regs m = outb 0x20 0x20 (if leb 40 (m.num regs) then outb 0xa0 0x20 m else m)

  unfoldable pub irq_handler : Tables → ℕ → Machine → ℕ × Machine
  unfolding dispatch_irq end_of_interrupt
  irq_handler t regs m = let (ret, m') = dispatch_irq t regs m in (ret, end_of_interrupt regs m')

  -- The number is that of a vector, below 256.
  unfoldable pub int_handler : Tables → ℕ → Machine → Run Machine
  unfolding show
  int_handler t regs m =
      let handler = get_or t.int_handlers (m.num regs - 48) 0 in
      if ltb (m.num regs) 48
      then done m
      else if leb 256 (m.num regs)
      then fault
      else done (if handler == 0 then show 2 0xc04e m else (call handler regs m).1)

unfoldable pub irq_remap : Machine → Machine
unfolding outb
irq_remap m = outb 0xa1 0x00 (
    outb 0x21 0x00 (
      outb 0xa1 0x01 (
        outb 0x21 0x01 (
          outb 0xa1 0x02 (
            outb 0x21 0x04
              (outb 0xa1 0x28 (outb 0x21 0x20 (outb 0xa0 0x11 (outb 0x20 0x11 m)))))))))

-- The handlers after the last loop of `idt_init`.
unfoldable pub default_isr : ℕ → List ℕ → List ℕ
default_isr screen_of_death [] = []
default_isr screen_of_death (h ∷ hs) =
    (if h == 0 then screen_of_death else h) ∷ default_isr screen_of_death hs

-- `isr` and `irq` give the addresses of the stubs. That the table is loaded into the processor is
-- left out.
unfoldable pub idt_init : (ℕ → ℕ) → (ℕ → ℕ) → ℕ → Tables → Machine → Tables × Machine
unfolding idt_set_gate irq_remap default_isr
idt_init isr irq screen_of_death t m =
    let isrs = for_from 0 32 (λ i. idt_set_gate i (isr i) 0x8 0x8e) (replicate 256 zero_gate) in
    let gates = for_from 32 16 (λ i. idt_set_gate i (irq (i - 32)) 0x8 0x8e) isrs in
    (
      record t { idt = gates; isr_handlers = default_isr screen_of_death t.isr_handlers },
      irq_remap m,
    )
