-- ===== src/Idt/Handlers.antt =====
-- kernel/idt.c: an interrupt reaches the handler that was installed for it.
use leoman.Base.{ℕ, zero, suc, ◌+◌, ◌-◌, ◌^◌, ◌≤◌, ◌<◌, ◌&&◌, ◌||◌, true, false, List, [], ◌∷◌}
use leoman.Base.{◌≡◌, ◌≢◌, refl, ap, ◌∙◌, arith, leb, ltb, ◌==◌, if◌then◌else◌, done}
use leoman.Base.{length, get_or, set, get_or-set_self}
use leoman.Idt.{
  Tables, Machine, IrqHandlerEntry, no_entry, irq_install_handler, int_install_handler, isr_handler,
  irq_handler, int_handler, dispatch_irq, run_irq, end_of_interrupt, outb, set_cr3, default_isr,
  idt_init,
}

-- The outcome `r` of an interrupt on a line whose handler, called in the address space `pdir` (0
-- for the current one), gave `called`: the handler's frame, the address space as before where
-- `pdir` names one and as the handler left it otherwise, and the end of the interrupt signalled
-- to the master controller, for a line from 8 on after the slave.
abbrev pub IsDelivered : ℕ → ℕ → Machine → ℕ × Machine → ℕ × Machine → Type 0
IsDelivered line pdir m called r =
    (r.0 ≡ called.0)
    × (r.1.cr3 ≡ (if pdir == 0 then called.1.cr3 else m.cr3))
    × (r.1.ports
        ≡ (0x20, 0x20) ∷ (if leb 8 line then (0xa0, 0x20) ∷ called.1.ports else called.1.ports))
    × (r.1.text ≡ called.1.text)

module _ (call : ℕ → ℕ → Machine → ℕ × Machine) where
  run_irq-delivers :
      (t : Tables) (regs : ℕ) (m : Machine) (entry : IrqHandlerEntry)
      → 32 ≤ m.num regs
      → m.num regs < 48
      → get_or t.irq_handlers (m.num regs - 32) no_entry ≡ entry
      → entry.handler ≢ 0
      → dispatch_irq call t regs m ≡ run_irq call entry regs m
  unfolding dispatch_irq
  run_irq-delivers t regs m entry low high found some_handler =
      let line : (leb 32 (m.num regs) && ltb (m.num regs) 48) ≡ true = ground arith in
      let given : (entry.handler == 0) ≡ false = ground arith in simp (line, found, given)

  -- The call of an entry's handler, in its address space where it names one.
  abbrev called_at : IrqHandlerEntry → ℕ → Machine → ℕ × Machine
  called_at entry regs m =
      call entry.handler regs (if entry.pdir == 0 then m else set_cr3 entry.pdir m)

  abbrev finish : ℕ → ℕ × Machine → ℕ × Machine
  finish regs r = (r.0, end_of_interrupt call regs r.1)

  irq_handler-finish :
      (t : Tables) (regs : ℕ) (m : Machine)
      → irq_handler call t regs m ≡ finish regs (dispatch_irq call t regs m)
  unfolding irq_handler
  irq_handler-finish t regs m = refl

  run_irq-IsDelivered :
      (line regs : ℕ) (m : Machine) (entry : IrqHandlerEntry)
      → (called_at entry regs m).1.num regs ≡ 32 + line
      → IsDelivered line entry.pdir m
          (called_at entry regs m)
          (finish regs (run_irq call entry regs m))
  unfolding end_of_interrupt run_irq set_cr3 outb
  run_irq-IsDelivered line regs m entry num = ground (arith, num)

  -- Once a handler is installed for one of the 16 interrupt lines, an interrupt on the line calls
  -- it with the register frame, in the address space it was installed with, and returns the frame
  -- that it returns; then the address space is as before where the handler was installed with
  -- one, and as the handler left it otherwise, and, if the handler leaves the number in the
  -- frame, the end of the interrupt is signalled to the master controller, for a line from 8 on
  -- after the slave.
  pub irq_handler-irq_install_handler :
      (line handler pdir regs : ℕ) (t : Tables) (m : Machine)
      → line < 16
      → length t.irq_handlers ≡ 16
      → handler ≢ 0
      → m.num regs ≡ 32 + line
      → (call handler regs (if pdir == 0 then m else set_cr3 pdir m)).1.num regs ≡ 32 + line
      → (t' : Tables) × (irq_install_handler line handler pdir t ≡ done t')
        × IsDelivered line pdir m
            (call handler regs (if pdir == 0 then m else set_cr3 pdir m))
            (irq_handler call t' regs m)
  unfolding irq_install_handler
  irq_handler-irq_install_handler line handler pdir regs t m l size some_handler num num' =
      let entry : IrqHandlerEntry = record { handler = handler; pdir = pdir } in
      let t' : Tables = record t { irq_handlers = set t.irq_handlers line entry } in
      let e : m.num regs - 32 ≡ line = omega arith in
      let found : get_or t'.irq_handlers (m.num regs - 32) no_entry ≡ entry =
        ap (λ (i : ℕ). get_or t'.irq_handlers i no_entry) e
        ∙ get_or-set_self t.irq_handlers line entry no_entry (omega arith) in
      let delivered =
        run_irq-delivers t' regs m entry (omega arith) (omega arith) found some_handler in
      let positive : leb (2 ^ 31) line ≡ false = ground arith in
      let inside : ltb line 16 ≡ true = ground arith in
      (
        t',
        simp (positive, inside),
        rw (irq_handler-finish t' regs m ∙ ap (finish regs) delivered)
            (run_irq-IsDelivered line regs m entry num'),
      )

  -- Once a handler is installed for a vector from 48 to 255, the software interrupt calls it.
  pub int_handler-int_install_handler :
      (vector handler regs : ℕ) (t : Tables) (m : Machine)
      → 48 ≤ vector
      → vector < 256
      → length t.int_handlers ≡ 208
      → handler ≢ 0
      → m.num regs ≡ vector
      → (t' : Tables) × (int_install_handler vector handler t ≡ done t')
        × (int_handler call t' regs m ≡ done (call handler regs m).1)
  unfolding int_install_handler int_handler
  int_handler-int_install_handler vector handler regs t m low high size some_handler num =
      let t' : Tables = record t { int_handlers = set t.int_handlers (vector - 48) handler } in
      let found : get_or t'.int_handlers (m.num regs - 48) 0 ≡ handler =
        ap (λ (i : ℕ). get_or t'.int_handlers (i - 48) 0) num
        ∙ get_or-set_self t.int_handlers (vector - 48) handler 0 (omega arith) in
      let a : (leb (2 ^ 31) vector || ltb vector 48) ≡ false = ground arith in
      let b : leb 256 vector ≡ false = ground arith in
      let c : ltb (m.num regs) 48 ≡ false = ground arith in
      let d : leb 256 (m.num regs) ≡ false = ground arith in
      let given : (handler == 0) ≡ false = ground arith in
      (t', simp (a, b), simp (c, d, found, given))

  get_or-default_isr :
      (screen_of_death n : ℕ) (hs : List ℕ)
      → n < length hs
      → get_or (default_isr screen_of_death hs) n 0
        ≡ (if get_or hs n 0 == 0 then screen_of_death else get_or hs n 0)
  unfolding default_isr
  get_or-default_isr sod n [] l = absurd (omega arith)
  get_or-default_isr sod zero (h ∷ hs) l = refl
  get_or-default_isr sod (suc n) (h ∷ hs) l = get_or-default_isr sod n hs (omega arith)

  -- After idt_init every exception calls the handler that was in its slot, or the screen of death
  -- where there was none.
  pub isr_handler-idt_init :
      (isr irq : ℕ → ℕ) (screen_of_death regs : ℕ) (t : Tables) (m m' : Machine)
      → screen_of_death ≢ 0
      → length t.isr_handlers ≡ 32
      → m'.num regs < 32
      → let old = get_or t.isr_handlers (m'.num regs) 0 in
        isr_handler call (idt_init isr irq screen_of_death t m).0 regs m'
        ≡ (call (if old == 0 then screen_of_death else old) regs m').1
  unfolding isr_handler idt_init
  isr_handler-idt_init isr irq sod regs t m m' some_handler size l =
      let old = get_or t.isr_handlers (m'.num regs) 0 in
      let below : ltb (m'.num regs) 32 ≡ true = ground arith in
      let given : ((if old == 0 then sod else old) == 0) ≡ false = ground arith in
      simp (below, get_or-default_isr sod (m'.num regs) t.isr_handlers (omega arith), given)
