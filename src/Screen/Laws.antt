-- ===== src/Screen/Laws.antt =====
-- drivers/screen.c: what a served message shows, and what it leaves alone.
use leoman.Base.{ℕ, suc, ◌+◌, ◌-◌, ◌*◌, ◌≤◌, ◌<◌, ◌^◌, bit_or, List, [], ◌∷◌, ◌++◌}
use leoman.Base.{◌≡◌, ◌≢◌, refl, ◌∙◌, true, false, arith, Bool-cases, inl, inr, ◌⊎◌}
use leoman.Base.{leb, ltb, ◌==◌, if◌then◌else◌, u32, shl, length}
use leoman.Base.Bits.Fields.{shl-bit_or, bit_or-parts, bit_or-zero, zero-bit_or, bit_or-ones}
use leoman.TextMode.{Cells, write}
use leoman.TextMode.Scroll.{scroll_lem}
use leoman.Screen.{
  Screen, MsgIo, MsgIoType, msg_getc, msg_puts, msg_putc, scrollup, char_to_int, screen_cell,
  put_char, put_chars, serve, serve_type,
}

pub record IsOnScreen (s : Screen) : Type 0 where
  pub row-lt : s.row < 25
  pub column-le : s.column ≤ 80
  pub fg-lt : s.fg_color < 16
  pub bg-lt : s.bg_color < 16

scrollup_lem :
    (mem : Cells) (i : ℕ)
    → scrollup mem i ≡ (if ltb i 1920 then mem (i + 80) else if ltb i 2000 then 0 else mem i)
unfolding scrollup
scrollup_lem mem i = scroll_lem 0 mem i

-- `put_char` keeps the cursor and the colors, and the memory from cell 2000 on.
pub put_char_lem :
    (ch : ℕ) (s : Screen)
    → IsOnScreen s
    → IsOnScreen (put_char ch s) × ((i : ℕ) → 2000 ≤ i → (put_char ch s).mem i ≡ s.mem i)
unfolding put_char write
put_char_lem ch s on = (ground arith, λ i l. ground (arith, scrollup_lem s.mem i))

put_chars_lem :
    (i : ℕ) (chs : List ℕ) (s : Screen)
    → IsOnScreen s
    → IsOnScreen (put_chars i chs s) × ((j : ℕ) → 2000 ≤ j → (put_chars i chs s).mem j ≡ s.mem j)
unfolding put_chars
put_chars_lem i [] s on = (on, λ j l. refl)
put_chars_lem i (ch ∷ chs) s on =
    let (on', kept) = put_char_lem ch s on in
    let (on'', kept') = put_chars_lem (suc i) chs (put_char ch s) on' in
    (ground arith, λ j l. ground (arith, kept j l, kept' j l))

serve_type_lem :
    (type : MsgIoType) (bytes : List ℕ) (ch : ℕ) (s : Screen)
    → IsOnScreen s
    → IsOnScreen (serve_type type bytes ch s)
      × ((i : ℕ) → 2000 ≤ i → (serve_type type bytes ch s).mem i ≡ s.mem i)
unfolding serve_type
serve_type_lem msg_getc bytes ch s on = (on, λ i l. refl)
serve_type_lem msg_putc bytes ch s on = put_char_lem ch s on
serve_type_lem msg_puts bytes ch s on =
    let (on', kept) = put_chars_lem 0 bytes s on in
    let (on'', kept') = put_char_lem ch (put_chars 0 bytes s) on' in
    (on'', λ i l. kept' i l ∙ kept i l)

-- Whatever message is served on a screen whose cursor and colors are in range, they stay in
-- range, no memory from cell 2000 on is written, and the reply is the same.
pub serve_lem :
    (msg : MsgIo) (s : Screen)
    → IsOnScreen s
    → IsOnScreen (serve msg s).0
      × ((i : ℕ) → 2000 ≤ i → (serve msg s).0.mem i ≡ s.mem i)
      × ((serve msg s).1 ≡ 0x11babe11)
unfolding serve
serve_lem msg s on =
    let (a, b) = serve_type_lem msg.type (msg.chars ++ msg.beyond) msg.one_char s on in (a, b, refl)

-- The characters of a string, one after the other.
abbrev pub print : List ℕ → Screen → Screen
print [] s = s
print (ch ∷ chs) s = print chs (put_char ch s)

abbrev pub HasNoNul : List ℕ → Type 0
HasNoNul [] = Unit {0}
HasNoNul (ch ∷ chs) = (ch ≢ 0) × HasNoNul chs

put_chars-print :
    (i : ℕ) (str rest : List ℕ) (s : Screen)
    → HasNoNul str
    → i + length str ≤ 64
    → put_chars i (str ++ 0 ∷ rest) s ≡ print str s
unfolding put_chars
put_chars-print i [] rest s h l = refl
put_chars-print i (ch ∷ str) rest s h l =
    let nul : (ch == 0) ≡ false = ground (arith, h.0) in
    let inside : leb 64 i ≡ false = ground arith in
    rw (nul, inside) (put_chars-print (suc i) str rest (put_char ch s) h.1 (omega arith))

put_chars-full :
    (i : ℕ) (str : List ℕ) (ch : ℕ) (rest : List ℕ) (s : Screen)
    → HasNoNul str
    → i + length str ≡ 64
    → put_chars i (str ++ ch ∷ rest) s ≡ print str s
unfolding put_chars
put_chars-full i [] ch rest s h e =
    let outside : leb 64 i ≡ true = ground arith in ground (arith, outside)
put_chars-full i (c ∷ str) ch rest s h e =
    let nul : (c == 0) ≡ false = ground (arith, h.0) in
    let inside : leb 64 i ≡ false = ground arith in
    rw (nul, inside) (put_chars-full (suc i) str ch rest (put_char c s) h.1 (omega arith))

put_chars-end :
    (str rest : List ℕ) (ch : ℕ) (s : Screen)
    → HasNoNul str
    → length str ≤ 64
    → (ch ≡ 0) ⊎ (length str ≡ 64)
    → put_chars 0 (str ++ ch ∷ rest) s ≡ print str s
put_chars-end str rest ch s h l (inl nul) = rw nul (put_chars-print 0 str rest s h (omega arith))
put_chars-end str rest ch s h l (inr full) = put_chars-full 0 str ch rest s h (omega arith)

-- A message that prints a string of at most 64 characters, which a NUL ends or the end of the
-- buffer, prints its characters in order, and after them the message's single character, which is
-- that of another kind of message.
pub serve_puts :
    (str rest : List ℕ) (ch : ℕ) (msg : MsgIo) (s : Screen)
    → msg.type ≡ msg_puts
    → msg.chars ++ msg.beyond ≡ str ++ ch ∷ rest
    → HasNoNul str
    → length str ≤ 64
    → (ch ≡ 0) ⊎ (length str ≡ 64)
    → (serve msg s).0 ≡ put_char msg.one_char (print str s)
unfolding serve serve_type
serve_puts str rest ch msg s is_puts bytes h l end =
    simp (is_puts, bytes, put_chars-end str rest ch s h l end)

-- On a screen whose colors are in range, a character of the ASCII range is shown in them; any
-- other byte turns both colors into white.
pub screen_cell_lem :
    (ch : ℕ) (s : Screen)
    → IsOnScreen s
    → ch < 256
    → screen_cell ch s ≡ ch + 256 * (if ltb ch 128 then s.bg_color * 16 + s.fg_color else 255)
unfolding screen_cell
screen_cell_lem ch s on l =
    let bg = on.bg-lt in
    let fg = on.fg-lt in
    let attr = s.bg_color * 16 + s.fg_color in
    let e : bit_or (shl s.bg_color 4) s.fg_color ≡ attr = shl-bit_or s.bg_color s.fg_color 4 fg in
    let small : u32 (shl attr 8) ≡ attr * 2 ^ 8 + 0 = omega arith in
    elim (Bool-cases (ltb ch 128)) [
      | inl ascii ↦
          let same : char_to_int ch ≡ 0 * 2 ^ 8 + ch = unfold char_to_int in ground arith in
          rw (ascii, e, small, same)
            (omega
              (arith, bit_or-parts 8 attr 0 0 ch (omega arith) l, bit_or-zero attr, zero-bit_or ch))
      | inr high ↦
          let sign : char_to_int ch ≡ (2 ^ 24 - 1) * 2 ^ 8 + ch =
            unfold char_to_int in ground arith in
          rw (high, e, small, sign)
            (omega (
              arith,
              bit_or-parts 8 attr (2 ^ 24 - 1) 0 ch (omega arith) l,
              bit_or-ones 24 attr (omega arith),
              zero-bit_or ch,
            ))
    ]
