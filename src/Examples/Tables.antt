-- ===== src/Examples/Tables.antt =====
-- The descriptor tables and the interrupt tables, with handlers that return to the frame they get.
use leoman.Base.{ℕ, ◌+◌, ◌-◌, ◌%◌, ◌^◌, List, [], ◌≡◌, refl, arith, replicate, length-replicate}
use leoman.Base.{◌==◌, ltb, if◌then◌else◌, u8, done, get_or}
use leoman.Gdt.{GdtEntry, TssEntry, null_entry, gdt_init}
use leoman.Gdt.Laws.{IsFlat, segment_base, segment_limit, gdt_init_lem}
use leoman.Idt.{
  zero_gate, idt_set_gate, idt_get_gate, Tables, no_entry, Machine, idt_init, irq_install_handler,
  irq_handler, set_cr3,
}
use leoman.Idt.Gates.{kernel_gate, idt_get_gate-idt_set_gate, idt_init-gates}
use leoman.Idt.Handlers.{IsDelivered, irq_handler-irq_install_handler}

abbrev empty_gdt : List GdtEntry
empty_gdt = replicate 6 null_entry

gdt_init_example :
    (gdt : List GdtEntry) × (tss : TssEntry) × (gdt_init 0xe0105000 0xe0106000 0xe0110000 empty_gdt
      ≡ done (gdt, tss, record { size = 47; address = 0xe0105000 }, 0x2b))
    × (get_or gdt 0 null_entry ≡ null_entry)
    × IsFlat (get_or gdt 1 null_entry) 0
    × IsFlat (get_or gdt 2 null_entry) 0
    × IsFlat (get_or gdt 3 null_entry) 3
    × IsFlat (get_or gdt 4 null_entry) 3
    × (segment_base (get_or gdt 5 null_entry) ≡ 0xe0106000)
    × (segment_limit (get_or gdt 5 null_entry) ≡ (0xe0106000 + 104) % 2 ^ 20)
    × (tss.ss0 ≡ 0x10)
    × (tss.esp0 ≡ 0xe0110000)
gdt_init_example =
    gdt_init_lem 0xe0105000 0xe0106000 0xe0110000 null_entry null_entry null_entry null_entry
      null_entry null_entry (omega arith) (omega arith)

idt_get_gate_example :
    idt_get_gate 0x7f (idt_set_gate 0x7f 0xe0101234 0x8 0xee (replicate 256 zero_gate))
    ≡ (if u8 0x7f == u8 0x7f then 0xe0101234 else idt_get_gate 0x7f (replicate 256 zero_gate))
idt_get_gate_example =
    idt_get_gate-idt_set_gate 0x7f 0x7f 0xe0101234 0x8 0xee (replicate 256 zero_gate)
      (length-replicate 256 zero_gate) (omega arith)

abbrev no_handlers : Tables
no_handlers = record {
  idt = replicate 256 zero_gate;
  isr_handlers = replicate 32 0;
  irq_handlers = replicate 16 no_entry;
  int_handlers = replicate 208 0;
}

abbrev isr_stub : ℕ → ℕ
isr_stub i = 0xe0100000 + i

abbrev irq_stub : ℕ → ℕ
irq_stub i = 0xe0100100 + i

-- A machine whose every register frame holds the same number.
abbrev at_vector : ℕ → Machine
at_vector vector = record { num = λ regs. vector; cr3 = 0x5000; ports = []; text = λ i. 0 }

-- Each handler writes its address into the text memory.
abbrev call : ℕ → ℕ → Machine → ℕ × Machine
call handler regs m = (regs, record m { text = λ i. handler })

idt_init_example :
    get_or (idt_init isr_stub irq_stub 0xe0107000 no_handlers (at_vector 0)).0.idt 33 zero_gate ≡ (
      if ltb 33 32
      then kernel_gate (isr_stub 33)
      else if ltb 33 48
      then kernel_gate (irq_stub (33 - 32))
      else zero_gate)
idt_init_example =
    idt_init-gates isr_stub irq_stub 0xe0107000 33 no_handlers (at_vector 0) (omega arith)

irq_handler_example :
    (t' : Tables) × (irq_install_handler 1 0x8048000 0x9000 no_handlers ≡ done t')
    × IsDelivered 1 0x9000
        (at_vector 33)
        (call 0x8048000 0x100 (if 0x9000 == 0 then at_vector 33 else set_cr3 0x9000 (at_vector 33)))
        (irq_handler call t' 0x100 (at_vector 33))
unfolding set_cr3
irq_handler_example =
    irq_handler-irq_install_handler call 1 0x8048000 0x9000 0x100 no_handlers (at_vector 33)
      (omega arith) refl (λ e. omega arith) (omega arith) refl
