-- ===== src/Ipc/Client.antt =====
-- lib/libipc/ipc.c: the packets that a process hands to the system calls.
use leoman.Base.{ℕ, zero, suc, ◌==◌, if◌then◌else◌, List, [], ◌∷◌}
use leoman.Message.{MsgPacket}
use leoman.Dispatcher.{MsgKernel, find_proc_by_name}
use leoman.Spawn.{max_proc_name_len}

-- The fields that an initializer does not name are 0.
abbrev pub no_packet : MsgPacket
no_packet = record {
  sender = 0;
  receiver = 0;
  send_buf = 0;
  recv_buf = 0;
  send_len = 0;
  recv_len = 0;
  phys_send_buf = 0;
  phys_recv_buf = 0;
  phys_msg_packet = 0;
}

unfoldable pub ipc_send : ℕ → ℕ → ℕ → ℕ → ℕ → MsgPacket
ipc_send receiver send_buf send_len recv_buf recv_len = record no_packet {
  receiver = receiver;
  send_buf = send_buf;
  send_len = send_len;
  recv_buf = recv_buf;
  recv_len = recv_len;
}

unfoldable pub ipc_recv : ℕ → ℕ → MsgPacket
ipc_recv recv_buf recv_len = record no_packet { recv_buf = recv_buf; recv_len = recv_len }

unfoldable pub ipc_reply : ℕ → ℕ → ℕ → MsgPacket
ipc_reply sender send_buf send_len = record no_packet {
  sender = sender;
  send_buf = send_buf;
  send_len = send_len;
}

-- The request of `find_by_name`, with what `name` points to, and its result: the response as a
-- `bool`.
unfoldable pub copy_name : ℕ → List ℕ → List ℕ
copy_name zero name = []
copy_name (suc n) [] = []
copy_name (suc n) (c ∷ name) = c ∷ copy_name n name

unfoldable pub find_by_name_request : List ℕ → MsgKernel
unfolding copy_name
find_by_name_request name = find_proc_by_name (copy_name max_proc_name_len name)

unfoldable pub find_by_name_result : ℕ → ℕ
find_by_name_result response = if response == 0 then 0 else 1
