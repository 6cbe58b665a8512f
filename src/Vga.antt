-- ===== src/Vga.antt =====
-- kernel/vga.c: the kernel's text console.
pub mod Laws
use leoman.Base.{ℕ, zero, suc, ◌+◌, ◌-◌, ◌*◌, bit_or, ◌||◌, List, [], ◌∷◌}
use leoman.Base.{leb, ◌==◌, if◌then◌else◌, u8, u16, shl}
use leoman.Base.{for_from}
use leoman.TextMode.{Cells, width, height, write, copy_rows, blank_last_row}

-- The colors that the console is set to, of `enum vga_color`.
abbrev pub color_black : ℕ
color_black = 0

abbrev pub color_white : ℕ
color_white = 15

-- VGA_MEM, and the variables of vga.c.
pub record Vga : Type 0 where
  pub mem : Cells
  pub col : ℕ
  pub row : ℕ
  pub color : ℕ

unfoldable pub vga_scrollup : Cells → Cells
vga_scrollup mem = blank_last_row b' ' (copy_rows mem)

unfoldable pub vga_make_color : ℕ → ℕ → ℕ
vga_make_color fg bg = u8 (bit_or fg (shl bg 4))

unfoldable pub vga_make_char : ℕ → ℕ → ℕ
vga_make_char ch color = u16 (bit_or (u8 ch) (shl (u8 color) 8))

unfoldable pub vga_putchat : ℕ → ℕ → ℕ → ℕ → Cells → Cells
vga_putchat ch color x y mem = write mem (y * width + x) (vga_make_char ch color)

-- The first two tests of `vga_putch`: the next line, and scrolling at the end of the screen.
unfoldable pub next_line : ℕ → Vga → Vga
next_line ch s =
    if leb width s.col || (ch == b'\n') then record s { col = 0; row = s.row + 1 } else s

unfoldable pub keep_on_screen : Vga → Vga
keep_on_screen s =
    if leb height s.row then record s { mem = vga_scrollup s.mem; row = s.row - 1 } else s

unfoldable pub vga_putch : ℕ → Vga → Vga
unfolding next_line keep_on_screen
vga_putch ch s =
    let s' = keep_on_screen (next_line ch s) in
    if ch == b'\n'
    then s'
    else record s' { mem = vga_putchat ch s'.color s'.col s'.row s'.mem; col = s'.col + 1 }

unfoldable pub vga_init : Vga → Vga
unfolding vga_putchat vga_make_color
vga_init s =
    let color = vga_make_color color_white color_black in
    record {
      mem = for_from 0 height (λ y. for_from 0 width (λ x. vga_putchat b' ' color x y)) s.mem;
      col = 0;
      row = 0;
      color = color;
    }

-- The string ends at its first NUL.
unfoldable pub vga_puts : List ℕ → Vga → Vga
vga_puts [] s = s
vga_puts (ch ∷ chs) s = let rest = vga_puts chs (vga_putch ch s) in if ch == 0 then s else rest
