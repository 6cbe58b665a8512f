-- ===== src/Vga/Laws.antt =====
-- kernel/vga.c: the cursor stays on the screen, and no cell outside of it is written.
use leoman.Base.{ℕ, ◌+◌, ◌-◌, ◌*◌, ◌≤◌, ◌<◌, List, [], ◌∷◌}
use leoman.Base.{◌≡◌, ◌≢◌, refl, ◌∙◌, ◌||◌, ◌&&◌, Bool, arith, Bool-cases, inl, inr, false}
use leoman.Base.{leb, ltb, ◌==◌, if◌then◌else◌, u8}
use leoman.Base.Bits.Fields.{bit_or-shl}
use leoman.TextMode.{Cells, write}
use leoman.TextMode.Scroll.{scroll_lem}
use leoman.Vga.{Vga, vga_scrollup, vga_make_char, vga_putchat, vga_putch, vga_puts}

pub record IsOnScreen (s : Vga) : Type 0 where
  pub row-lt : s.row < 25
  pub col-le : s.col ≤ 80

-- A cell is the character in its low byte and the color in its high byte.
pub vga_make_char_lem : (ch color : ℕ) → vga_make_char ch color ≡ u8 ch + 256 * u8 color
unfolding vga_make_char
vga_make_char_lem ch color = omega (arith, bit_or-shl (u8 ch) (u8 color) 8 (omega arith))

-- Whether `vga_putch` scrolls: a new line is begun on the last row.
abbrev pub scrolls : ℕ → Vga → Bool
scrolls ch s = (leb 80 s.col || (ch == b'\n')) && leb 24 s.row

scrollup_lem :
    (mem : Cells) (i : ℕ)
    → vga_scrollup mem i ≡ (if ltb i 1920 then mem (i + 80) else if ltb i 2000 then b' ' else mem i)
unfolding vga_scrollup
scrollup_lem mem i = scroll_lem b' ' mem i

-- Whether `vga_putch` begins a new line.
abbrev pub wraps : ℕ → Vga → Bool
wraps ch s = leb 80 s.col || (ch == b'\n')

-- On a screen whose cursor is in range, vga_putch keeps it in range and the color: a newline, and
-- a character behind the last column, go on to the next row, or stay on the last; the column is 0
-- after a newline, and one more than that of the character otherwise. A character other than a
-- newline stands in the cell before the new cursor; every other cell is as it was, or, exactly
-- where the text scrolls, as the one a row below was, blank in the last row; the memory from cell
-- 2000 on is never written.
pub vga_putch_lem :
    (ch : ℕ) (s : Vga)
    → IsOnScreen s
    → let s' = vga_putch ch s in
      IsOnScreen s'
      × (s'.color ≡ s.color)
      × (s'.row ≡ (if wraps ch s then (if leb 24 s.row then 24 else s.row + 1) else s.row))
      × (s'.col ≡ (if ch == b'\n' then 0 else if leb 80 s.col then 1 else s.col + 1))
      × (ch ≢ b'\n' → (1 ≤ s'.col) × (s'.mem (s'.row * 80 + s'.col - 1) ≡ u8 ch + 256 * u8 s.color))
      × ((i : ℕ)
          → (ch ≢ b'\n' → i ≢ s'.row * 80 + s'.col - 1)
          → s'.mem i ≡ (
              if scrolls ch s
              then (if ltb i 1920 then s.mem (i + 80) else if ltb i 2000 then b' ' else s.mem i)
              else s.mem i))
unfolding vga_putch vga_putchat write
vga_putch_lem ch s on = (
  ground arith,
  ground arith,
  ground arith,
  ground arith,
  λ ne. ground (arith, vga_make_char_lem ch s.color),
  λ i other. ground (arith, scrollup_lem s.mem i),
)

vga_putch_below :
    (ch : ℕ) (s : Vga) (i : ℕ) → IsOnScreen s → 2000 ≤ i → (vga_putch ch s).mem i ≡ s.mem i
vga_putch_below ch s i on l =
    let (on', _, _, _, shown, kept) = vga_putch_lem ch s on in
    let row = on'.row-lt in
    let col = on'.col-le in
    let same = kept i (λ ne e. omega (arith, shown ne)) in
    let a : ltb i 1920 ≡ false = ground arith in
    let b : ltb i 2000 ≡ false = ground arith in ground (arith, same, a, b)

-- On a screen whose cursor is in range, a whole string is printed within the screen, the color is
-- kept, and the memory from cell 2000 on stays as it was.
pub vga_puts_lem :
    (chs : List ℕ) (s : Vga)
    → IsOnScreen s
    → IsOnScreen (vga_puts chs s)
      × ((vga_puts chs s).color ≡ s.color)
      × ((i : ℕ) → 2000 ≤ i → (vga_puts chs s).mem i ≡ s.mem i)
unfolding vga_puts
vga_puts_lem [] s on = (on, refl, λ i l. refl)
vga_puts_lem (ch ∷ chs) s on = elim (Bool-cases (ch == 0)) [
  | inl end ↦ rw end (on, refl, λ i l. refl)
  | inr more ↦
      let (on', color', _, _, shown, kept) = vga_putch_lem ch s on in
      let (on'', color'', kept') = vga_puts_lem chs (vga_putch ch s) on' in
      rw more (on'', color'' ∙ color', λ i l. kept' i l ∙ vga_putch_below ch s i on l)
]
