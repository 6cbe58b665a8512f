-- ===== src/Examples/Delivery.antt =====
-- The delivery of a message of four bytes in a machine whose windows have their tables.
use leoman.Base.{ℕ, zero, suc, ◌+◌, ◌/◌, ◌^◌, ◌<◌, ◌≡◌, ◌≢◌, refl, ap, arith, ◌⊎◌}
use leoman.Base.{true, ◌∷◌, replicate, length-replicate, ◌==◌, if◌then◌else◌, done}
use leoman.Address.{v2p}
use leoman.Pm.{Pm}
use leoman.Pm.Bitmap.{used, page_at}
use leoman.Pm.Laws.{IsValid}
use leoman.Pm.Init.{replicate-AreWords}
use leoman.Vm.Mmu.{Vm, frame, is_present, pde, pte, translate}
use leoman.Vm.Space.{IsPaged, IsData}
use leoman.System.Bytes.{byte_of}
use leoman.Message.{MsgPacket, deliver}
use leoman.Message.Copy.{IsReadable}
use leoman.Message.Deliver.{AreWindows, IsWaitingAt, deliver_lem}

abbrev pages : Pm
pages = record { bitmap = 15 ∷ replicate 32767 0; page_pool = 0xe0100000 }

abbrev words : ℕ → ℕ
words n =
    if n == 263167
    then 0x100003
    else if n == 262144
    then 0x101003
    else if n == 263034
    then 0x102003
    else if n == 262890
    then 0x103003
    else if n == 263173
    then 0x5003
    else if n == 5120
    then 0x04030201
    else 0

abbrev machine : Vm
machine = record { memory = words; cr3 = 0x100000; pm = pages }

pages-IsValid : IsValid pages
pages-IsValid = record {
  size = ap suc (length-replicate {A = ℕ} 32767 0);
  are_words = (omega arith, replicate-AreWords 32767);
  pool-lt = omega arith;
  pool_aligned = omega arith;
}

entries :
    (i : ℕ)
    → i < 1024
    → is_present (pde machine i) ≡ true
    → ((i ≡ 0) × (frame (pde machine i) ≡ 257))
      ⊎ ((i ≡ 1023) × (frame (pde machine i) ≡ 256))
      ⊎ ((i ≡ 890) × (frame (pde machine i) ≡ 258))
      ⊎ ((i ≡ 746) × (frame (pde machine i) ≡ 259))
unfolding pde
entries i l there = ground arith

used_low :
    (used pages.bitmap 0 ≡ 1)
    × (used pages.bitmap 1 ≡ 1)
    × (used pages.bitmap 2 ≡ 1)
    × (used pages.bitmap 3 ≡ 1)
unfolding used
used_low = (refl, refl, refl, refl)

free_elsewhere :
    (q : ℕ)
    → q < 2 ^ 20
    → used pages.bitmap q ≡ 0
    → (frame (page_at pages.page_pool q) < 256) ⊎ (259 < frame (page_at pages.page_pool q))
unfolding page_at v2p
free_elsewhere zero l free = absurd (omega (arith, free, used_low.0))
free_elsewhere (suc zero) l free = absurd (omega (arith, free, used_low.1))
free_elsewhere (suc (suc zero)) l free = absurd (omega (arith, free, used_low.2))
free_elsewhere (suc (suc (suc zero))) l free = absurd (omega (arith, free, used_low.3))
free_elsewhere (suc (suc (suc (suc q)))) l free = omega arith

machine-IsPaged : IsPaged machine
machine-IsPaged = record {
  self = record { present = unfold pde in refl; itself = unfold pde in refl };
  distinct =
      λ i j li lj ne there there' same. ground (arith, entries i li there, entries j lj there');
  pool = pages-IsValid;
  taken = λ i q li there lq free same. ground (arith, entries i li there, free_elsewhere q lq free);
}

low-IsData : (f : ℕ) → f < 256 → IsData machine f
low-IsData f l i li there same = ground (arith, entries i li there)

abbrev waiting : MsgPacket
waiting = record {
  sender = 0;
  receiver = 7;
  send_buf = 0;
  recv_buf = 0x7010;
  send_len = 0;
  recv_len = 4;
  phys_send_buf = 0;
  phys_recv_buf = 0x9010;
  phys_msg_packet = 0x9100;
}

abbrev letter : MsgPacket
letter = record {
  sender = 3;
  receiver = 7;
  send_buf = 0x5000;
  recv_buf = 0;
  send_len = 4;
  recv_len = 0;
  phys_send_buf = 0x5000;
  phys_recv_buf = 0;
  phys_msg_packet = 0x5100;
}

loads : (i : ℕ) → i < 4 → translate machine (0x5000 + i) ≡ done (0x5000 + i)
unfolding translate pde pte
loads zero l = refl
loads (suc zero) l = refl
loads (suc (suc zero)) l = refl
loads (suc (suc (suc zero))) l = refl
loads (suc (suc (suc (suc i)))) l = absurd (omega arith)

letter-IsReadable : IsReadable machine 0x9010 0x5000 4 (λ i. 0x5000 + i)
letter-IsReadable = record {
  small = omega arith;
  loads = loads;
  outside = λ i l e. omega arith;
  data_only = λ i l. low-IsData ((0x5000 + i) / 4096) (omega arith);
  apart = λ i j li lj e. omega arith;
}

machine-AreWindows : AreWindows machine
machine-AreWindows = record {
  buffer_table = unfold pde in refl;
  packet_table = unfold pde in refl;
  buffer_closed = unfold translate pde pte in refl;
  packet_closed = unfold translate pde pte in refl;
}

waiting-IsWaitingAt : IsWaitingAt machine waiting
waiting-IsWaitingAt = record {
  buffer-lt = omega arith;
  packet-lt = omega arith;
  aligned = refl;
  offset = omega arith;
  some_asked = omega arith;
  fits = omega arith;
  buffer_data = low-IsData 9 (omega arith);
  packet_data = low-IsData 9 (omega arith);
  apart = λ i l e. omega arith;
}

deliver_example :
    (m' : Vm) × (deliver waiting letter 3 machine ≡ done m')
    × IsPaged m'
    × ((i : ℕ) → i < 4 → byte_of m' (0x9010 + i) ≡ byte_of machine (0x5000 + i))
    × (m'.memory (0x9100 / 4) ≡ 3)
    × ((a : ℕ)
        → IsData machine (a / 4096)
        → ((i : ℕ) → i < 4 → a ≢ 0x9010 + i)
        → a / 4 ≢ 0x9100 / 4
        → byte_of m' a ≡ byte_of machine a)
deliver_example =
    deliver_lem machine waiting letter 3 (λ i. 0x5000 + i) machine-IsPaged machine-AreWindows
      waiting-IsWaitingAt letter-IsReadable
