-- ===== src/Message.antt =====
-- include/ipc.h, and in kernel/syscall.c the accesses to the packets and buffers of the processes.
pub mod Copy
pub mod Deliver
use leoman.Base.{ℕ, ◌+◌, Run, done, ◌>>=◌}
use leoman.Base.{u32, bit_and}
use leoman.Vm.Mmu.{Vm}
use leoman.Vm.{map_pages, unmap_pages}
use leoman.System.{memcpy, load_word, store_word}

-- `struct msg_packet`
pub record MsgPacket : Type 0 where
  pub sender : ℕ
  pub receiver : ℕ
  pub send_buf : ℕ
  pub recv_buf : ℕ
  pub send_len : ℕ
  pub recv_len : ℕ
  pub phys_send_buf : ℕ
  pub phys_recv_buf : ℕ
  pub phys_msg_packet : ℕ

-- `struct msg_packet_queue` at its address.
pub record MsgPacketQueue : Type 0 where
  pub address : ℕ
  pub msg : MsgPacket

abbrev pub sizeof_msg_packet : ℕ
sizeof_msg_packet = 36

abbrev pub sizeof_msg_packet_queue : ℕ
sizeof_msg_packet_queue = 40

-- The packet at a virtual address.
unfoldable pub load_packet : ℕ → Vm → Run MsgPacket
unfolding load_word
load_packet msg m = do
  sender ← load_word msg m
  receiver ← load_word (u32 (msg + 4)) m
  send_buf ← load_word (u32 (msg + 8)) m
  recv_buf ← load_word (u32 (msg + 12)) m
  send_len ← load_word (u32 (msg + 16)) m
  recv_len ← load_word (u32 (msg + 20)) m
  phys_send_buf ← load_word (u32 (msg + 24)) m
  phys_recv_buf ← load_word (u32 (msg + 28)) m
  phys_msg_packet ← load_word (u32 (msg + 32)) m
  done (record {
    sender = sender;
    receiver = receiver;
    send_buf = send_buf;
    recv_buf = recv_buf;
    send_len = send_len;
    recv_len = recv_len;
    phys_send_buf = phys_send_buf;
    phys_recv_buf = phys_recv_buf;
    phys_msg_packet = phys_msg_packet;
  })

-- `base + (buf & 0xfff)`
unfoldable pub window_at : ℕ → ℕ → ℕ
window_at base buf = u32 (base + bit_and buf 0xfff)

-- A copy with `len` bytes of the memory at `phys` mapped at `base`.
unfoldable pub copy_to_phys : ℕ → ℕ → ℕ → ℕ → ℕ → Vm → Run Vm
unfolding window_at
copy_to_phys base phys buf src len m = do
  m₁ ← map_pages phys base 0 len m
  m₂ ← memcpy (window_at base buf) src len m₁
  unmap_pages base len m₂

-- The message that a blocked receiver gets: `waiting` is the entry that it left in its queue.
unfoldable pub deliver : MsgPacket → MsgPacket → ℕ → Vm → Run Vm
unfolding copy_to_phys
deliver waiting msg sender m = do
  m₁ ←
      copy_to_phys 0xdead0000 waiting.phys_recv_buf waiting.recv_buf msg.send_buf waiting.recv_len m
  let packet = window_at 0xbabe0000 waiting.phys_msg_packet
  m₂ ← map_pages waiting.phys_msg_packet packet 0 sizeof_msg_packet m₁
  m₃ ← store_word packet sender m₂
  unmap_pages packet sizeof_msg_packet m₃
