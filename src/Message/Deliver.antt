-- ===== src/Message/Deliver.antt =====
-- kernel/syscall.c: what a blocked receiver finds in its memory when a message has come.
use mathlib.Core.Path.{subst}
use leoman.Base.{
  ℕ, ◌+◌, ◌*◌, ◌/◌, ◌%◌, ◌^◌, ◌≤◌, ◌<◌, ◌≡◌, ◌≢◌, sym, ap, ◌∙◌, arith, Run, done, fault, ◌>>=◌,
  >>=-at_done, true,
}
use leoman.Vm.Mmu.{Vm, is_present, pde, translate, poke, vstore}
use leoman.Base.{◌==◌}
use leoman.Vm.Space.{IsPaged, IsData}
use leoman.Vm.Map.{IsMapped}
use leoman.Vm.{map_pages, unmap_pages}
use leoman.System.{byte_at, store_word}
use leoman.System.Bytes.{byte_of, IsData-SameSpace, IsPaged-SameSpace, poke-SameSpace}
use leoman.Message.{MsgPacket, window_at, deliver}
use leoman.Message.Copy.{
  map_pages_one, unmap_pages_one, IsData-IsMapped, IsReadable, copy_to_phys_lem, window_at_lem,
}

-- A word stored at a physical address through a page mapped at `v` for the while.
pub record IsWritten (m m' : Vm) (phys x : ℕ) : Type 0 where
  pub paged : IsPaged m'
  pub written : m'.memory (phys / 4) ≡ x
  pub kept : (k : ℕ) → IsData m (k / 1024) → k ≢ phys / 4 → m'.memory k ≡ m.memory k

word-poke : (k x : ℕ) (m : Vm) → (poke k x m).memory k ≡ x
unfolding poke
word-poke k x m = ground arith

word-poke_ne : (k x n : ℕ) (m : Vm) → n ≢ k → (poke k x m).memory n ≡ m.memory n
unfolding poke
word-poke_ne k x n m ne = ground arith

abbrev write_word : ℕ → ℕ → ℕ → Vm → Run Vm
write_word phys v x m =
    map_pages phys v 0 36 m >>= λ m₁. store_word v x m₁ >>= λ m₂. unmap_pages v 36 m₂

write_word_lem :
    (m : Vm) (v phys x : ℕ)
    → IsPaged m
    → v / 2 ^ 22 < 1023
    → phys < 2 ^ 32
    → phys % 4096 ≡ v % 4096
    → phys % 4 ≡ 0
    → is_present (pde m (v / 2 ^ 22)) ≡ true
    → translate m (v / 4096 * 4096) ≡ fault
    → IsData m (phys / 4096)
    → (m' : Vm) × (write_word phys v x m ≡ done m') × IsWritten m m' phys x
write_word_lem m v phys x paged window lp offset aligned was unmapped free =
    let v₀ = v / 4096 * 4096 in
    let p₀ = phys / 4096 * 4096 in
    let i : v₀ / 2 ^ 22 ≡ v / 2 ^ 22 = omega arith in
    let was₀ = ap (λ (k : ℕ). is_present (pde m k)) i ∙ was in
    let (m₁, mapped, h) =
      map_pages_one m v phys 36 paged (omega arith) (λ e. omega arith) lp (omega arith)
        (omega arith) was unmapped in
    let data₁ = λ (g : ℕ) (d : IsData m g). IsData-IsMapped m m₁ v₀ p₀ 3 g h was₀ d in
    let free₁ : IsData m₁ (phys / 4 / 1024) =
      data₁ (phys / 4 / 1024) (subst (λ (g : ℕ). IsData m g) (omega arith) free) in
    let s = poke-SameSpace (phys / 4) x m₁ h.paged.self free₁ in
    let m₂ = poke (phys / 4) x m₁ in
    let whole : (v % 4 == 0) ≡ true = ground (arith, offset, aligned) in
    let stored : store_word v x m₁ ≡ done m₂ =
      unfold store_word in
      unfold vstore in
      rw whole (
        >>=-at_done (translate m₁ v) (λ a. done (poke (a / 4) x m₁))
          (h.mapped v (omega arith) ∙ ap done (omega arith))) in
    let (m', gone, u) =
      unmap_pages_one m₂ v p₀ 36 (IsPaged-SameSpace m₁ m₂ s h.paged) (omega arith)
        (λ e. omega arith) (omega arith) (omega arith)
        (s.translates v₀ (omega arith) ∙ (h.mapped v₀ (omega arith) ∙ ap done (omega arith))) in
    (
      m',
      ap (λ t. t >>= λ n. store_word v x n >>= λ n'. unmap_pages v 36 n') mapped
          ∙ (ap (λ t. t >>= λ n'. unmap_pages v 36 n') stored ∙ gone),
      record {
        paged = u.paged;
        written =
            u.kept (phys / 4) (IsData-SameSpace m₁ m₂ (phys / 4 / 1024) s free₁)
            ∙ word-poke (phys / 4) x m₁;
        kept = λ k d ne.
            u.kept k (IsData-SameSpace m₁ m₂ (k / 1024) s (data₁ (k / 1024) d))
            ∙ (word-poke_ne (phys / 4) x k m₁ ne
                ∙ word_kept m m₁ v₀ p₀ k paged h (omega arith) was₀ d);
      },
    )
  where
    word_kept :
        (m m' : Vm) (v p k : ℕ)
        → IsPaged m
        → IsMapped m m' v p 3
        → v < 2 ^ 32
        → is_present (pde m (v / 2 ^ 22)) ≡ true
        → IsData m (k / 1024)
        → m'.memory k ≡ m.memory k
    word_kept m m' v p k paged h lv was free =
        let (there, same) = h.tables (v / 2 ^ 22) (omega arith) was h.there in
        h.kept k (λ e. free 1023 (omega arith) paged.self.present (e ∙ sym paged.self.itself))
          (λ e. free (v / 2 ^ 22) (omega arith) was (e ∙ same))

byte_of-IsWritten :
    (m m' : Vm) (phys x a : ℕ)
    → IsWritten m m' phys x
    → IsData m (a / 4096)
    → a / 4 ≢ phys / 4
    → byte_of m' a ≡ byte_of m a
byte_of-IsWritten m m' phys x a h free ne =
    ap (byte_at (a % 4)) (h.kept (a / 4) (subst (λ (f : ℕ). IsData m f) (omega arith) free) ne)

-- The windows that the kernel maps the receiver's pages at are closed, their tables are there.
pub record AreWindows (m : Vm) : Type 0 where
  pub buffer_table : is_present (pde m (0xdead0000 / 2 ^ 22)) ≡ true
  pub packet_table : is_present (pde m (0xbabe0000 / 2 ^ 22)) ≡ true
  pub buffer_closed : translate m 0xdead0000 ≡ fault
  pub packet_closed : translate m 0xbabe0000 ≡ fault

-- The buffer and the packet of the receiver, each within a page that holds no table, and apart; the
-- packet is at a multiple of 4.
pub record IsWaitingAt (m : Vm) (w : MsgPacket) : Type 0 where
  pub buffer-lt : w.phys_recv_buf < 2 ^ 32
  pub packet-lt : w.phys_msg_packet < 2 ^ 32
  pub aligned : w.phys_msg_packet % 4 ≡ 0
  pub offset : w.phys_recv_buf % 4096 ≡ w.recv_buf % 4096
  pub some_asked : 0 < w.recv_len
  pub fits : w.phys_recv_buf % 4096 + w.recv_len ≤ 4096
  pub buffer_data : IsData m (w.phys_recv_buf / 4096)
  pub packet_data : IsData m (w.phys_msg_packet / 4096)
  pub apart : (i : ℕ) → i < w.recv_len → (w.phys_recv_buf + i) / 4 ≢ w.phys_msg_packet / 4

-- In a well-formed address space in which the two windows of the delivery are closed and have
-- their tables, a message for a waiting receiver whose buffer of at least one byte lies within
-- one page, at the same offset as its virtual address, apart from the word of its packet, which
-- is at a multiple of 4, and whose pages hold no table, copied from a buffer of the sender that
-- can be read, does not wrap around, lies outside of the window on the tables, in pages without
-- tables, and apart from the receiver's, is delivered: the space is well formed, the receiver's
-- memory holds the sender's bytes, its packet the sender's pid, and every other byte of a page
-- without a table is as before.
pub deliver_lem :
    (m : Vm) (waiting msg : MsgPacket) (sender : ℕ) (from : ℕ → ℕ)
    → IsPaged m
    → AreWindows m
    → IsWaitingAt m waiting
    → IsReadable m waiting.phys_recv_buf msg.send_buf waiting.recv_len from
    → (m' : Vm) × (deliver waiting msg sender m ≡ done m')
      × IsPaged m'
      × ((i : ℕ)
          → i < waiting.recv_len
          → byte_of m' (waiting.phys_recv_buf + i) ≡ byte_of m (from i))
      × (m'.memory (waiting.phys_msg_packet / 4) ≡ sender)
      × ((a : ℕ)
          → IsData m (a / 4096)
          → ((i : ℕ) → i < waiting.recv_len → a ≢ waiting.phys_recv_buf + i)
          → a / 4 ≢ waiting.phys_msg_packet / 4
          → byte_of m' a ≡ byte_of m a)
unfolding deliver
deliver_lem m waiting msg sender from paged w at r =
    let phys = waiting.phys_msg_packet in
    let packet = window_at 0xbabe0000 phys in
    let (m₁, sent, h) =
      copy_to_phys_lem m 0xdead0000 waiting.phys_recv_buf waiting.recv_buf msg.send_buf
        waiting.recv_len from paged (omega arith) (omega arith) w.buffer_table w.buffer_closed
        at.buffer-lt at.offset at.some_asked at.fits at.buffer_data r in
    let place : packet ≡ 0xbabe0000 + phys % 4096 =
      window_at_lem 0xbabe0000 phys (omega arith) (omega arith) in
    let closed =
      h.others 0xbabe0000 (omega arith) (λ e. omega arith) (λ e. omega arith) ∙ w.packet_closed in
    let (m', ran, x) =
      write_word_lem m₁ packet phys sender h.paged (omega arith) at.packet-lt (omega arith)
        at.aligned
        (ap (λ (k : ℕ). is_present (pde m₁ k)) (omega arith)
          ∙ h.remain (0xbabe0000 / 2 ^ 22) (omega arith) w.packet_table)
        (ap (translate m₁) (omega arith) ∙ closed) (h.same_data (phys / 4096) at.packet_data) in
    (
      m',
      ap (λ t. t >>= λ n. write_word phys packet sender n) sent ∙ ran,
      x.paged,
      λ i l.
          byte_of-IsWritten m₁ m' phys sender (waiting.phys_recv_buf + i) x
            (h.same_data ((waiting.phys_recv_buf + i) / 4096)
              (subst (λ (f : ℕ). IsData m f) (omega (arith, at.fits)) at.buffer_data))
            (at.apart i l)
          ∙ h.arrived i l,
      x.written,
      λ a free out ne.
          byte_of-IsWritten m₁ m' phys sender a x (h.same_data (a / 4096) free) ne
          ∙ h.kept a free out,
    )
