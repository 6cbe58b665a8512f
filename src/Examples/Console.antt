-- ===== src/Examples/Console.antt =====
-- The text console and the screen server at a blank screen.
use leoman.Base.{ℕ, ◌+◌, ◌-◌, ◌*◌, ◌≤◌, List, [], ◌∷◌, ◌≡◌, ◌≢◌, refl, inl, arith}
use leoman.Base.{ltb, leb, ◌==◌, if◌then◌else◌, u8}
use leoman.Vga.{Vga, vga_putch}
use leoman.Vga.Laws as VgaLaws
use leoman.Vga.Laws.{vga_putch_lem, vga_puts_lem, scrolls, wraps}
use leoman.Screen.{Screen, MsgIo, msg_puts, serve, put_char}
use leoman.Screen.Laws as ScreenLaws
use leoman.Screen.Laws.{serve_lem, serve_puts, screen_cell_lem, print}

-- The cursor behind the last column of the last row.
abbrev full_console : Vga
full_console = record { mem = λ i. i; col = 80; row = 24; color = 15 }

full_console-IsOnScreen : VgaLaws.IsOnScreen full_console
full_console-IsOnScreen = record { row-lt = omega arith; col-le = omega arith }

abbrev letter : ℕ
letter = b'A'

vga_putch_example :
    let s' = vga_putch letter full_console in
    VgaLaws.IsOnScreen s'
    × (s'.color ≡ 15)
    × (s'.row ≡ (if wraps letter full_console then (if leb 24 24 then 24 else 25) else 24))
    × (s'.col ≡ (if letter == b'\n' then 0 else if leb 80 80 then 1 else 81))
    × (letter ≢ b'\n'
        → (1 ≤ s'.col) × (s'.mem (s'.row * 80 + s'.col - 1) ≡ u8 letter + 256 * u8 15))
    × ((i : ℕ)
        → (letter ≢ b'\n' → i ≢ s'.row * 80 + s'.col - 1)
        → s'.mem i ≡ (
            if scrolls letter full_console
            then (if ltb i 1920 then i + 80 else if ltb i 2000 then b' ' else i)
            else i))
vga_putch_example = vga_putch_lem letter full_console full_console-IsOnScreen

abbrev greeting : List ℕ
greeting = b'h' ∷ b'i' ∷ b'\n' ∷ []

abbrev blank_screen : Screen
blank_screen = record { mem = λ i. i; column = 0; row = 0; fg_color = 0xb; bg_color = 0 }

blank_screen-IsOnScreen : ScreenLaws.IsOnScreen blank_screen
blank_screen-IsOnScreen = record {
  row-lt = omega arith;
  column-le = omega arith;
  fg-lt = omega arith;
  bg-lt = omega arith;
}

abbrev hello : MsgIo
hello = record { type = msg_puts; one_char = b'!'; chars = b'h' ∷ b'i' ∷ 0 ∷ []; beyond = 7 ∷ [] }

serve_puts_example :
    (serve hello blank_screen).0 ≡ put_char b'!' (print (b'h' ∷ b'i' ∷ []) blank_screen)
serve_puts_example =
    serve_puts (b'h' ∷ b'i' ∷ []) (7 ∷ []) 0 hello blank_screen refl refl
      ((λ e. omega arith), ((λ e. omega arith), tt)) (omega arith) (inl refl)
