-- ===== src/TextMode/Scroll.antt =====
-- The scrolling loops move every row up by one and blank the last.
use leoman.Base.{
  ℕ, zero, suc, ◌+◌, ◌-◌, ◌*◌, ◌≤◌, ◌≡◌, refl, ap, arith, if◌then◌else◌, ltb, ◌&&◌, leb,
}
use leoman.Base.{for_from}
use leoman.TextMode.{Cells, write, copy_cell, copy_rows, blank_last_row}

-- Copying row `y` up from column `x` on.
copy_row_lem :
    (rounds x y : ℕ) (mem : Cells) (i : ℕ)
    → 1 ≤ y
    → x + rounds ≡ 80
    → for_from x rounds (copy_cell y) mem i
      ≡ (if leb ((y - 1) * 80 + x) i && ltb i (y * 80) then mem (i + 80) else mem i)
unfolding for_from copy_cell write
copy_row_lem zero x y mem i pos e = ground arith
copy_row_lem (suc rounds) x y mem i pos e = ground (
  arith,
  copy_row_lem rounds (suc x) y (copy_cell y x mem) i pos (omega arith),
  ap mem {x = y * 80 + x} {y = i + 80},
)

copy_rows_lem :
    (rounds y : ℕ) (mem : Cells) (i : ℕ)
    → 1 ≤ y
    → y + rounds ≡ 25
    → for_from y rounds (λ r. for_from 0 80 (copy_cell r)) mem i
      ≡ (if leb ((y - 1) * 80) i && ltb i 1920 then mem (i + 80) else mem i)
unfolding for_from
copy_rows_lem zero y mem i pos e = ground arith
copy_rows_lem (suc rounds) y mem i pos e =
    let row = for_from 0 80 (copy_cell y) mem in
    ground (
      arith,
      copy_rows_lem rounds (suc y) row i (omega arith) (omega arith),
      copy_row_lem 80 0 y mem i pos refl,
      copy_row_lem 80 0 y mem (i + 80) pos refl,
    )

blank_lem :
    (rounds x blank : ℕ) (mem : Cells) (i : ℕ)
    → x + rounds ≡ 80
    → for_from x rounds (λ c m. write m ((25 - 1) * 80 + c) blank) mem i
      ≡ (if leb (1920 + x) i && ltb i 2000 then blank else mem i)
unfolding for_from write
blank_lem zero x blank mem i e = ground arith
blank_lem (suc rounds) x blank mem i e =
    ground
      (arith, blank_lem rounds (suc x) blank (write mem ((25 - 1) * 80 + x) blank) i (omega arith))

-- Both loops together: the text moves up by a row, the last row is blank, and no cell outside of
-- the text memory is written.
pub scroll_lem :
    (blank : ℕ) (mem : Cells) (i : ℕ)
    → blank_last_row blank (copy_rows mem) i
      ≡ (if ltb i 1920 then mem (i + 80) else if ltb i 2000 then blank else mem i)
unfolding blank_last_row copy_rows
scroll_lem blank mem i = ground (
  arith,
  blank_lem 80 0 blank (for_from 1 24 (λ r. for_from 0 80 (copy_cell r)) mem) i refl,
  copy_rows_lem 24 1 mem i (omega arith) refl,
)
