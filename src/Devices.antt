-- ===== src/Devices.antt =====
-- kernel/com.c, kernel/pci.c and kernel/timer.c, and what kernel/print.c and kernel/vga.c make of
-- them: the devices behind ports. What a port reads is a parameter.
pub mod Laws
use leoman.Base.{
  ℕ, zero, suc, ◌+◌, ◌-◌, ◌*◌, ◌/◌, ◌%◌, ◌^◌, Bool, true, false, ◌==◌, ◌||◌, if◌then◌else◌, List,
  [], ◌∷◌, Run, done, fault, halted, ◌>>=◌, u32, shl, shr, bit_and, bit_or, ltb, length,
}
use leoman.Proc.{Kernel}
use leoman.Sched.{proc_schedule_after_irq}
use leoman.Idt.{Tables, irq_install_handler}
use leoman.Vga.{Vga, vga_init, vga_puts}
use leoman.Print.{Arg, kvformat}

-- The values written to ports, the last one first: `outb` and `outl`.
abbrev pub Ports : Type 0
Ports = List (ℕ × ℕ)

unfoldable pub out : ℕ → ℕ → Ports → Ports
out port value ports = (port, value) ∷ ports

-- COM1
abbrev pub com_port : ℕ
com_port = 0x3f8

unfoldable pub com_init : Ports → Ports
unfolding out
com_init ports = out (com_port + 4) 0x0b (
    out (com_port + 2) 0xc7 (
      out (com_port + 3) 0x03 (
        out (com_port + 1) 0x00 (
          out com_port (115200 / 115200)
            (out (com_port + 3) 0x80 (out (com_port + 1) 0x00 ports))))))

-- The wait for the transmitter, where the `n`th read of its status gives `status n`.
unfoldable pub com_wait : ℕ → (ℕ → ℕ) → ℕ → Run ℕ
com_wait zero status n = halted
com_wait (suc fuel) status n =
    let rest = com_wait fuel status (n + 1) in
    if bit_and (status n) 0x20 == 0 then rest else done (n + 1)

-- `com_putc`, with the number of reads of the status before and after it.
unfoldable pub com_putc : ℕ → (ℕ → ℕ) → ℕ → ℕ → Ports → Run (ℕ × Ports)
unfolding com_wait out
com_putc fuel status ch n ports = com_wait fuel status n >>= λ n'. done (n', out com_port ch ports)

unfoldable pub com_puts : ℕ → (ℕ → ℕ) → List ℕ → ℕ → Ports → Run (ℕ × Ports)
unfolding com_putc
com_puts fuel status [] n ports = fault
com_puts fuel status (ch ∷ s) n ports = elim (ch == 0) [
  | true ↦ done (n, ports)
  | false ↦ com_putc fuel status ch n ports >>= λ (n', ports'). com_puts fuel status s n' ports'
]

-- The address of a register in the configuration space.
unfoldable pub pci_id : ℕ → ℕ → ℕ → ℕ → ℕ
pci_id bus dev fun reg =
    bit_or (bit_or (bit_or (bit_or (shl 1 31) (shl bus 16)) (shl dev 11)) (shl fun 8))
      (bit_and reg 0xfc)

-- `pci_read_config`, where a read of the data port gives `config id` for the address written last.
-- The 16 bits of `result` are filled before the shift.
unfoldable pub pci_read_config : (ℕ → ℕ) → ℕ → ℕ → ℕ → ℕ → ℕ
unfolding pci_id
pci_read_config config bus dev fun reg =
    let result = config (pci_id bus dev fun reg) % 2 ^ 16 in
    bit_and (shr result (bit_and reg 2 * 8)) 0xffff

-- The devices that `pci_init` reports, in its order: bus, device, function, vendor and device id.
unfoldable pub probe : (ℕ → ℕ) → ℕ → ℕ → ℕ → List (ℕ × ℕ × ℕ × ℕ × ℕ) → List (ℕ × ℕ × ℕ × ℕ × ℕ)
unfolding pci_read_config
probe config bus dev fun rest =
    let vendor_id = pci_read_config config bus dev fun 0 in
    let device_id = pci_read_config config bus dev fun 2 in
    if (vendor_id == 0) || (vendor_id == 0xffff)
    then rest
    else (bus, dev, fun, vendor_id, device_id) ∷ rest

-- The three loops, `left` functions from the number `i` on.
unfoldable pub probe_loop : (ℕ → ℕ) → ℕ → ℕ → List (ℕ × ℕ × ℕ × ℕ × ℕ)
unfolding probe
probe_loop config zero i = []
probe_loop config (suc left) i =
    probe config (i / 256) (i / 8 % 32) (i % 8) (probe_loop config left (i + 1))

unfoldable pub pci_init : (ℕ → ℕ) → List (ℕ × ℕ × ℕ × ℕ × ℕ)
unfolding probe_loop
pci_init config = probe_loop config 2048 0

-- `timer_set_phase` for a positive frequency: the low and the high byte of the divisor.
unfoldable pub timer_set_phase : ℕ → Ports → Ports
unfolding out
timer_set_phase hz ports =
    let divisor = 1193180 / hz in
    out 0x40 (shr divisor 8 % 2 ^ 8) (out 0x40 (bit_and divisor 0xff) (out 0x43 0x36 ports))

-- `timer_install`, with the address of `timer_handler`.
unfoldable pub timer_install : ℕ → Tables → Ports → Run (Tables × Ports)
unfolding timer_set_phase
timer_install handler t ports =
    irq_install_handler 0 handler 0 t >>= λ t'. done (t', timer_set_phase 1000 ports)

module _ {Q : Type 0} where
  -- `timer_handler`: the ticks, and the frame that the scheduler goes on with. The counter is an int.
  unfoldable pub timer_handler : ℕ → ℕ → Kernel Q → Run (ℕ × ℕ × Kernel Q)
  timer_handler regs timer_ticks k = elim (timer_ticks == 2 ^ 31 - 1) [
    | true ↦ fault
    | false ↦ proc_schedule_after_irq regs k >>= λ (ret, k'). done (timer_ticks + 1, ret, k')
  ]

-- The serial port and the console.
pub record Output : Type 0 where
  pub reads : ℕ
  pub ports : Ports
  pub vga : Vga

unfoldable pub print_init : Output → Output
print_init o = record o { ports = com_init o.ports; vga = vga_init o.vga }

-- A buffer of 256 characters on the stack with the formatted text and its NUL.
unfoldable pub stack_buffer : List ℕ → List Arg → Run (List ℕ)
stack_buffer fmt args =
    kvformat fmt args [] >>= λ buf. if ltb 256 (length buf) then fault else done buf

unfoldable pub kprintf : ℕ → (ℕ → ℕ) → List ℕ → List Arg → Output → Run Output
unfolding com_puts stack_buffer
kprintf fuel status fmt args o = do
  buf ← stack_buffer fmt args
  (reads, ports) ← com_puts fuel status buf o.reads o.ports
  done (record { reads = reads; ports = ports; vga = vga_puts buf o.vga })

-- `vga_printf` and `vga_vprintf`
unfoldable pub vga_vprintf : List ℕ → List Arg → Vga → Run Vga
unfolding stack_buffer
vga_vprintf fmt args s = stack_buffer fmt args >>= λ buf. done (vga_puts buf s)
