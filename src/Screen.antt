-- ===== src/Screen.antt =====
-- drivers/screen.c: the screen server, and include/msg/io.h: the messages that it serves.
pub mod Laws
use leoman.Base.{ℕ, zero, suc, ◌+◌, ◌-◌, ◌*◌, ◌^◌, bit_or, Bool, ◌||◌, List, [], ◌∷◌, ◌++◌}
use leoman.Base.{leb, ltb, ◌==◌, if◌then◌else◌, u16, u32, shl}
use leoman.Base.{for_from}
use leoman.TextMode.{Cells, width, height, write, copy_rows, blank_last_row}

-- `MSG_IO_BUFSIZE`
abbrev pub msg_io_bufsize : ℕ
msg_io_bufsize = 64

pub data MsgIoType : Type 0 where
  msg_getc msg_puts msg_putc : MsgIoType

-- `struct msg_io`; `beyond` are the bytes of memory that follow the array `chars`.
pub record MsgIo : Type 0 where
  pub type : MsgIoType
  pub one_char : ℕ
  pub chars : List ℕ
  pub beyond : List ℕ

-- The variables of screen.c; the cells are those of `video_memory`.
pub record Screen : Type 0 where
  pub mem : Cells
  pub column : ℕ
  pub row : ℕ
  pub fg_color : ℕ
  pub bg_color : ℕ

unfoldable pub scrollup : Cells → Cells
scrollup mem = blank_last_row 0 (copy_rows mem)

-- `char` is signed: as an `int`, modulo 2 ^ 32, a character from 0x80 on has all its upper bits
-- set.
unfoldable pub char_to_int : ℕ → ℕ
char_to_int ch = if ltb ch 0x80 then ch else 2 ^ 32 - 2 ^ 8 + ch

unfoldable pub screen_cell : ℕ → Screen → ℕ
screen_cell ch s =
    u16 (bit_or (u32 (shl (bit_or (shl s.bg_color 4) s.fg_color) 8)) (char_to_int ch))

unfoldable pub put_char_at : ℕ → ℕ → ℕ → Screen → Screen
unfolding screen_cell
put_char_at ch x y s = record s { mem = write s.mem (y * width + x) (screen_cell ch s) }

unfoldable pub next_line : ℕ → Screen → Screen
next_line ch s =
    if leb width s.column || (ch == b'\n') then record s { column = 0; row = s.row + 1 } else s

unfoldable pub keep_on_screen : Screen → Screen
keep_on_screen s =
    if leb height s.row then record s { mem = scrollup s.mem; row = s.row - 1 } else s

unfoldable pub put_char : ℕ → Screen → Screen
unfolding next_line keep_on_screen put_char_at
put_char ch s =
    let s' = keep_on_screen (next_line ch s) in
    if ch == b'\n'
    then s'
    else (let shown = put_char_at ch s'.column s'.row s' in record shown { column = s'.column + 1 })

unfoldable pub clear : Screen → Screen
unfolding put_char_at
clear = for_from 0 height (λ y. for_from 0 width (λ x. put_char_at 0 x y))

-- The loop of MSG_PUTS over the bytes from `msg.chars` on: it reads a byte, ends at a NUL, and only
-- then tests whether the byte lay in the buffer.
unfoldable pub put_chars : ℕ → List ℕ → Screen → Screen
put_chars i [] s = s
put_chars i (ch ∷ chs) s =
    let rest = put_chars (suc i) chs (put_char ch s) in
    if ch == 0 then s else if leb msg_io_bufsize i then s else rest

-- One round of the server's loop; the case of MSG_PUTS runs on into that of MSG_PUTC.
unfoldable pub serve_type : MsgIoType → List ℕ → ℕ → Screen → Screen
serve_type msg_puts bytes one_char s = put_char one_char (put_chars 0 bytes s)
serve_type msg_putc bytes one_char s = put_char one_char s
serve_type msg_getc bytes one_char s = s

-- The screen after a message, and the reply.
unfoldable pub serve : MsgIo → Screen → Screen × ℕ
unfolding serve_type
serve msg s = (serve_type msg.type (msg.chars ++ msg.beyond) msg.one_char s, 0x11babe11)

-- The server's start: the variables are set, and the screen is cleared.
unfoldable pub start : Cells → Screen
unfolding clear
start mem = clear (record { mem = mem; column = 0; row = 0; fg_color = 0xb; bg_color = 0x0 })
