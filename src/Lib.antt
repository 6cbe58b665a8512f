-- ===== src/Lib.antt =====
-- leoman: a small message-passing kernel for i386, with its servers in user mode.
--
-- The kernel hands out physical pages from a bitmap, keeps a heap of linked blocks for its own
-- tables, runs the processes of a table of 64 slots round robin from the timer interrupt, and
-- prints on the text console. Processes send each other messages by system calls, which copy between
-- their address spaces; the screen server prints the messages it gets, and the keyboard server
-- answers with the last key.
--
-- Which file models which part:
-- - Base and its children: the names that all share, C arrays as lists (Base/Lists), casts and
--   shifts of machine words (Base/Word), the outcome of code that may fault (Base/Outcome), and the
--   binary digits of `&`, `|` and `~` (Base/Bits).
-- - Address: the macros and conversions on addresses of include/kernel/vm.h.
-- - Bootinfo: the memory map's entries of include/kernel/common.h.
-- - MemoryMap: adjust_the_memory_map of kernel/kernel.c. The map is the memory from its first entry
--   on, as the code goes over 64 entries where the structure has 16; pointers to words differ and
--   add in units of 4 bytes, as they do in the source.
-- - Pm: kernel/pm.c. The state is the bitmap and the pool's address; the operations are pm_alloc,
--   pm_alloc_cont, pm_free and pm_init under their own names.
-- - Vm: kernel/vm.c. The state is the physical memory word by word, cr3 and the page pool; Vm/Mmu is
--   the processor's two-level translation, through which the code reads and writes the tables, and
--   Vm/Directory the directory of a new process. Every operation is under its own name.
-- - Heap: kernel/heap.c. The memory is a function from the address of a block's header to the
--   header; kalloc and kfree are under their own names, and heap_lay is the part of heap_init that
--   lays the first block (the rest is in System).
-- - Proc and Sched: kernel/proc.c. The state `Kernel` holds the process table and the file's static
--   variables, and what a switch writes of the TSS and of cr3; a pointer to a process is the index
--   of its slot, and the type of the receive queues of include/queue.h is a parameter.
-- - Stailq: what is used of include/queue.h, as a record of operations and of what its documentation
--   says of them; lists are one implementation.
-- - System: the kernel's tables, its memory and its heap together, memcpy and memset, heap_init, and
--   proc_schedule_without_irq; the bytes of the memory in System/Bytes and System/Copies.
-- - Message and Ipc: include/ipc.h and kernel/syscall.c, with the calls of lib/libipc/ipc.c in
--   Ipc/Client. A pointer to a queue's entry is the entry, which has its address on the heap.
--   Message/Copy and Message/Deliver follow the bytes of a message into the receiver's memory;
--   Ipc/Mailboxes is the abstract view: the pid, the state and the waiting senders of each process.
-- - Spawn: proc_new, proc_earlyinit and proc_load of kernel/proc.c, and kernel/elf.c.
-- - Dispatcher: kernel/msg_dispatcher.c, a round of its loop.
-- - Keyboard: kernel/kbd.c and servers/kbd.c.
-- - Sar: kernel/sar.c and include/kernel/sar.h.
-- - SarTool: tools/sar.c. A file is the list of its bytes, and the archive being written has the
--   descriptor's position beside it.
-- - TextMode: the 80 by 25 cells and the scrolling loops that the next two share.
-- - Vga: kernel/vga.c.
-- - Screen: drivers/screen.c with the messages of include/msg/io.h.
-- - Gdt: kernel/gdt.c and kernel/tss.c.
-- - Idt: kernel/idt.c; what a handler does when it is called is a parameter, a function on the
--   machine.
-- - Smp: kernel/smp.c with include/kernel/smp.h and kernel/mmio.c. The stores to the APIC are a list;
--   what it answers and when a started processor counts itself are parameters.
-- - Print: kernel/print.c, with the buffer as a list and the variable arguments as a list.
-- - Devices: kernel/com.c, kernel/pci.c and kernel/timer.c, with kprintf and vga_printf over them.
-- - Examples: the theorems at concrete inputs.
--
-- Numbers are natural numbers with the wrap-around at 8, 16 and 32 bits written out. Undefined
-- behaviour (NULL followed, a shift by the width) is the outcome `fault`. The walk of `kalloc` takes
-- fuel: two more than the number of blocks behind the first are enough on a well-formed heap; the
-- system calls take that fuel as a parameter. The search in an archive takes fuel, of which one more
-- than the tool's arguments is enough for an archive that the tool made. The first loop over the memory map takes 61 rounds at most, since its index only grows. The
-- merging of entries, the wait for the APIC and that for the serial port take fuel as a parameter.
-- The search of `pm_alloc` within an entry, which has no guard in the source, runs over the 32 bits.
-- The digits of `putd` have the ten slots of the source. All other loops are recursions over the
-- arrays that they visit or over their counter.
--
-- Not modelled: the boot loaders and the assembly stubs, the processor's cache of translations,
-- ports and other devices but for the values read, what is printed as a diagnostic, what a started
-- processor runs, and the start of the kernel but for its memory map. The packet of a system call is
-- read as a whole when the call begins. A read behind the end of an archive faults, where the kernel
-- goes on into the memory that follows. Ipc/Laws follows a system call up to the scheduler,
-- and Ipc/Turns and Ipc/Running go on with it. A word of a process's memory that is
-- not at a multiple of 4 is accessed byte by byte; the words of the tables are at multiples of 4.
pub mod Base
pub mod Address
pub mod Bootinfo
pub mod MemoryMap
pub mod Pm
pub mod Vm
pub mod Heap
pub mod Proc
pub mod Sched
pub mod Stailq
pub mod System
pub mod Message
pub mod Ipc
pub mod Spawn
pub mod Dispatcher
pub mod Keyboard
pub mod Sar
pub mod SarTool
pub mod TextMode
pub mod Vga
pub mod Screen
pub mod Gdt
pub mod Idt
pub mod Smp
pub mod Print
pub mod Devices
pub mod Examples
