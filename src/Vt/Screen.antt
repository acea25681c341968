-- ===== src/Vt/Screen.antt =====
-- src/drivers/char/vt_scroll.c: what changes the characters of a screen. `none` is a read or a write
-- outside of the screen's buffer.
use protura.Base.{
  ℕ, zero, suc, ◌>>=◌, ◌+◌, ◌-◌, ◌*◌, ◌==◌, ltb, leb, min, Bool, true, false, ◌&&◌, Option, none,
  some, if◌then◌else◌,
}

-- `struct screen_char`
pub record Cell : Type 0 where
  pub chr : ℕ
  pub color : ℕ

-- `struct screen`: its size, and the characters by their place in the buffer.
pub record Screen : Type 0 where
  pub rows : ℕ
  pub cols : ℕ
  pub buf : ℕ → Cell

-- A space in white on black.
abbrev pub blank : Cell
blank = record { chr = 32; color = 7 }

abbrev pub size : Screen → ℕ
size s = s.rows * s.cols

-- `*vt_char(vt, r, c) = cell`
unfoldable pub put_cell : ℕ → ℕ → Cell → Screen → Option Screen
put_cell r c cell s =
    let at = r * s.cols + c in
    if ltb at (size s)
    then some (record s { buf = λ i. if i == at then cell else s.buf i })
    else none

-- The loop over `n` columns of a row.
unfoldable pub fill_cols : ℕ → ℕ → ℕ → Cell → Screen → Option Screen
fill_cols r c zero cell s = some s
fill_cols r c (suc n) cell s = put_cell r c cell s >>= fill_cols r (c + 1) n cell

-- The loop over `n` rows.
unfoldable pub fill_rows : ℕ → ℕ → Cell → Screen → Option Screen
fill_rows r zero cell s = some s
fill_rows r (suc n) cell s = fill_cols r 0 s.cols cell s >>= fill_rows (r + 1) n cell

-- `memmove` of `n` characters
unfoldable pub move_cells : ℕ → ℕ → ℕ → Screen → Option Screen
move_cells dst src n s =
    if leb (dst + n) (size s) && leb (src + n) (size s)
    then some (record s {
      buf = λ i. if leb dst i && ltb i (dst + n) then s.buf (src + (i - dst)) else s.buf i;
    })
    else none

abbrev pub move_if : Bool → ℕ → ℕ → ℕ → Screen → Option Screen
move_if true dst src n s = move_cells dst src n s
move_if false dst src n s = some s

abbrev pub clear : Screen → Option Screen
clear s = fill_rows 0 s.rows blank s

abbrev pub clear_to_end : ℕ → ℕ → Screen → Option Screen
clear_to_end row col s =
    if ltb row s.rows
    then (fill_cols row col (s.cols - col) blank s
        >>= fill_rows (row + 1) (s.rows - (row + 1)) blank)
    else some s

abbrev pub clear_to_cursor : ℕ → ℕ → Screen → Option Screen
clear_to_cursor row col s = fill_rows 0 row blank s >>= fill_cols row 0 (col + 1) blank

abbrev pub clear_line_to_end : ℕ → ℕ → Screen → Option Screen
clear_line_to_end row col s = fill_cols row col (s.cols - col) blank s

abbrev pub clear_line_to_cursor : ℕ → ℕ → Screen → Option Screen
clear_line_to_cursor row col s = fill_cols row 0 (col + 1) blank s

abbrev pub clear_line : ℕ → Screen → Option Screen
clear_line row s = fill_cols row 0 s.cols blank s

-- `__vt_scroll`, of the rows from `top` to the one before `bottom`. The count of the move is that of
-- the code, which leaves `top` out.
unfoldable pub scroll : ℕ → ℕ → ℕ → Screen → Option Screen
scroll top bottom lines s =
    let n = min lines (bottom - top) in
    move_if (ltb n (bottom - top)) (top * s.cols) ((n + top) * s.cols) (s.cols * (bottom - n)) s
    >>= fill_rows (bottom - n) n blank

-- `__vt_scroll_from_cursor`, and `__vt_scroll_up_from_cursor`. Below the region they do nothing.
unfoldable pub scroll_from_cursor : ℕ → ℕ → ℕ → Screen → Option Screen
scroll_from_cursor row bottom lines s =
    let total = bottom - row in
    let n = min lines total in
    move_if (ltb n total) (row * s.cols) ((row + n) * s.cols) (s.cols * (total - n)) s
    >>= fill_rows (bottom - n) n blank

unfoldable pub scroll_up_from_cursor : ℕ → ℕ → ℕ → Screen → Option Screen
scroll_up_from_cursor row bottom lines s =
    let total = bottom - row in
    let n = min lines total in
    move_if (ltb n total) ((row + n) * s.cols) (row * s.cols) (s.cols * (total - n)) s
    >>= fill_rows row n blank

unfoldable pub shift_left_from_cursor : ℕ → ℕ → ℕ → Screen → Option Screen
shift_left_from_cursor row col chars s =
    let total = s.cols - col in
    let n = min chars total in
    move_if (ltb n total) (row * s.cols + col) (row * s.cols + (col + n)) (total - n) s
    >>= fill_cols row (s.cols - n) n blank

unfoldable pub shift_right_from_cursor : ℕ → ℕ → ℕ → Screen → Option Screen
shift_right_from_cursor row col chars s =
    let total = s.cols - col in
    let n = min chars total in
    move_if (ltb n total) (row * s.cols + (col + n)) (row * s.cols + col) (s.cols - n - col) s
    >>= fill_cols row col n blank
