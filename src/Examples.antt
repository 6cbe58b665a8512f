-- ===== src/Examples.antt =====
-- The theorems at concrete inputs: machines with a few MiB of memory, small process tables, and
-- messages to processes, to the console and to the screen server.
mod Memory
mod Paging
mod Messages
mod Keys
mod Processes
mod Console
mod Tables
mod Printing
mod Delivery
mod Maps
mod Packing
mod Cores
mod Devices
