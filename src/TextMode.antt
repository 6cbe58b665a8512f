-- ===== src/TextMode.antt =====
-- The 80 by 25 text memory that kernel/vga.c and drivers/screen.c write, cell by cell, and the
-- loops of their scrolling.
pub mod Scroll
use leoman.Base.{ℕ, for_from, ◌+◌, ◌-◌, ◌*◌, ◌==◌, if◌then◌else◌}

abbrev pub width : ℕ
width = 80

abbrev pub height : ℕ
height = 25

-- The cell at index `i` of the text memory; each is a `uint16_t`.
abbrev pub Cells : Type 0
Cells = ℕ → ℕ

unfoldable pub write : Cells → ℕ → ℕ → Cells
write mem i v j = if j == i then v else mem j

unfoldable pub copy_cell : ℕ → ℕ → Cells → Cells
copy_cell y x mem = write mem ((y - 1) * width + x) (mem (y * width + x))

unfoldable pub copy_rows : Cells → Cells
copy_rows = for_from 1 (height - 1) (λ y. for_from 0 width (copy_cell y))

unfoldable pub blank_last_row : ℕ → Cells → Cells
blank_last_row blank = for_from 0 width (λ x mem. write mem ((height - 1) * width + x) blank)
