-- ===== src/Vt/Bounds.antt =====
-- The operations on the screen stay in its buffer.
use protura.Base.{
  ℕ, zero, suc, ◌>>=◌, ◌+◌, ◌-◌, ◌*◌, ◌≤◌, ◌<◌, ◌==◌, ltb, leb, min, ◌≡◌, refl, ◌∙◌, Bool, true,
  false, ◌&&◌, Option, some, arith, Bool-cases, inl, inr, if◌then◌else◌,
}
use native.Mathlib.Nat.{mul-le-mul_right}
use protura.Vt.Screen.{
  Cell, Screen, blank, size, put_cell, fill_cols, fill_rows, move_cells, move_if, clear_to_end,
  clear_to_cursor, scroll, scroll_from_cursor, scroll_up_from_cursor, shift_left_from_cursor,
  shift_right_from_cursor,
}

-- A result that is a screen of the same size.
pub data Keeps (s : Screen) : Option Screen → Type 0 where
  keeps : (s' : Screen) → s'.rows ≡ s.rows → s'.cols ≡ s.cols → Keeps s (some s')

Keeps-then :
    (s : Screen) (o : Option Screen) (f : Screen → Option Screen)
    → Keeps s o
    → ((s' : Screen) → s'.rows ≡ s.rows → s'.cols ≡ s.cols → Keeps s' (f s'))
    → Keeps s (o >>= f)
Keeps-then s _ f (keeps s' r c) h = trans_keeps s s' (f s') r c (h s' r c)
  where
    trans_keeps :
        (s s' : Screen) (o : Option Screen)
        → s'.rows ≡ s.rows
        → s'.cols ≡ s.cols
        → Keeps s' o
        → Keeps s o
    trans_keeps s s' _ r c (keeps s'' r' c') = keeps s'' (r' ∙ r) (c' ∙ c)

index-bound : (rows cols r c : ℕ) → r < rows → c ≤ cols → r * cols + c ≤ rows * cols
index-bound rows cols r c h h' =
    let m = mul-le-mul_right {m = suc r} {n = rows} cols h in omega (arith, m, h')

pub put_cell-Keeps :
    (r c : ℕ) (cell : Cell) (s : Screen) → r < s.rows → c < s.cols → Keeps s (put_cell r c cell s)
unfolding put_cell
put_cell-Keeps r c cell s h h' =
    let e : ltb (r * s.cols + c) (size s) ≡ true =
      ground (arith, index-bound s.rows s.cols r (suc c) h h') in
    rw e (keeps (record s { buf = λ i. if i == r * s.cols + c then cell else s.buf i }) refl refl)

pub fill_cols-Keeps :
    (r c n : ℕ) (cell : Cell) (s : Screen)
    → r < s.rows
    → c + n ≤ s.cols
    → Keeps s (fill_cols r c n cell s)
unfolding fill_cols
fill_cols-Keeps r c zero cell s h h' = keeps s refl refl
fill_cols-Keeps r c (suc n) cell s h h' =
    Keeps-then s (put_cell r c cell s) (fill_cols r (c + 1) n cell)
      (put_cell-Keeps r c cell s h (omega (arith, h')))
      (λ s' rr cc'.
        fill_cols-Keeps r (c + 1) n cell s' (omega (arith, h, rr)) (omega (arith, h', cc')))

pub fill_rows-Keeps :
    (r n : ℕ) (cell : Cell) (s : Screen) → r + n ≤ s.rows → Keeps s (fill_rows r n cell s)
unfolding fill_rows
fill_rows-Keeps r zero cell s h = keeps s refl refl
fill_rows-Keeps r (suc n) cell s h =
    Keeps-then s (fill_cols r 0 s.cols cell s) (fill_rows (r + 1) n cell)
      (fill_cols-Keeps r 0 s.cols cell s (omega (arith, h)) (omega arith))
      (λ s' rr cc'. fill_rows-Keeps (r + 1) n cell s' (omega (arith, h, rr)))

move_if-Keeps :
    (b : Bool) (dst src n : ℕ) (s : Screen)
    → dst + n ≤ size s
    → src + n ≤ size s
    → Keeps s (move_if b dst src n s)
unfolding move_cells
move_if-Keeps false dst src n s h h' = keeps s refl refl
move_if-Keeps true dst src n s h h' =
    let e : leb (dst + n) (size s) && leb (src + n) (size s) ≡ true = ground arith in
    rw e (
      keeps
        (record s {
          buf = λ i. if leb dst i && ltb i (dst + n) then s.buf (src + (i - dst)) else s.buf i;
        })
        refl refl)

-- Rows of the region are rows of the buffer.
rows-bound : (rows cols r n : ℕ) → r + n ≤ rows → r * cols + cols * n ≤ rows * cols
rows-bound rows cols r n h =
    let m = mul-le-mul_right {m = r + n} {n = rows} cols h in omega (arith, m)

-- The whole screen is the region: one line is scrolled.
pub scroll-Keeps :
    (bottom lines : ℕ) (s : Screen) → bottom ≤ s.rows → Keeps s (scroll 0 bottom lines s)
unfolding scroll
scroll-Keeps bottom lines s h =
    let n = min lines (bottom - 0) in
    Keeps-then s
      (move_if (ltb n (bottom - 0)) (0 * s.cols) ((n + 0) * s.cols) (s.cols * (bottom - n)) s)
      (fill_rows (bottom - n) n blank)
      (move_if-Keeps (ltb n (bottom - 0)) (0 * s.cols) ((n + 0) * s.cols) (s.cols * (bottom - n)) s
        (rows-bound s.rows s.cols 0 (bottom - n) (omega (arith, h)))
        (rows-bound s.rows s.cols (n + 0) (bottom - n) (omega (arith, h))))
      (λ s' rr cc'. fill_rows-Keeps (bottom - n) n blank s' (omega (arith, h, rr)))

pub scroll_from_cursor-Keeps :
    (row bottom lines : ℕ) (s : Screen)
    → row < s.rows
    → bottom ≤ s.rows
    → Keeps s (scroll_from_cursor row bottom lines s)
unfolding scroll_from_cursor
scroll_from_cursor-Keeps row bottom lines s h b =
    let total = bottom - row in
    let n = min lines total in
    Keeps-then s
      (move_if (ltb n total) (row * s.cols) ((row + n) * s.cols) (s.cols * (total - n)) s)
      (fill_rows (bottom - n) n blank)
      (move_if-Keeps (ltb n total) (row * s.cols) ((row + n) * s.cols) (s.cols * (total - n)) s
        (rows-bound s.rows s.cols row (total - n) (omega (arith, h, b)))
        (rows-bound s.rows s.cols (row + n) (total - n) (omega (arith, h, b))))
      (λ s' rr cc'. fill_rows-Keeps (bottom - n) n blank s' (omega (arith, b, rr)))

pub scroll_up_from_cursor-Keeps :
    (row bottom lines : ℕ) (s : Screen)
    → row < s.rows
    → bottom ≤ s.rows
    → Keeps s (scroll_up_from_cursor row bottom lines s)
unfolding scroll_up_from_cursor
scroll_up_from_cursor-Keeps row bottom lines s h b =
    let total = bottom - row in
    let n = min lines total in
    Keeps-then s
      (move_if (ltb n total) ((row + n) * s.cols) (row * s.cols) (s.cols * (total - n)) s)
      (fill_rows row n blank)
      (move_if-Keeps (ltb n total) ((row + n) * s.cols) (row * s.cols) (s.cols * (total - n)) s
        (rows-bound s.rows s.cols (row + n) (total - n) (omega (arith, h, b)))
        (rows-bound s.rows s.cols row (total - n) (omega (arith, h, b))))
      (λ s' rr cc'. fill_rows-Keeps row n blank s' (omega (arith, h, b, rr)))

-- Columns of a row are in the buffer.
cols-bound : (rows cols r c n : ℕ) → r < rows → c + n ≤ cols → r * cols + c + n ≤ rows * cols
cols-bound rows cols r c n h h' = omega (arith, index-bound rows cols r (c + n) h h')

pub shift_left_from_cursor-Keeps :
    (row col chars : ℕ) (s : Screen)
    → row < s.rows
    → col ≤ s.cols
    → Keeps s (shift_left_from_cursor row col chars s)
unfolding shift_left_from_cursor
shift_left_from_cursor-Keeps row col chars s h b =
    let total = s.cols - col in
    let n = min chars total in
    Keeps-then s
      (move_if (ltb n total) (row * s.cols + col) (row * s.cols + (col + n)) (total - n) s)
      (fill_cols row (s.cols - n) n blank)
      (move_if-Keeps (ltb n total) (row * s.cols + col) (row * s.cols + (col + n)) (total - n) s
        (cols-bound s.rows s.cols row col (total - n) h (omega (arith, b)))
        (omega (arith, cols-bound s.rows s.cols row (col + n) (total - n) h (omega (arith, b)))))
      (λ s' rr cc'.
        fill_cols-Keeps row (s.cols - n) n blank s' (omega (arith, h, rr)) (omega (arith, cc', b)))

pub shift_right_from_cursor-Keeps :
    (row col chars : ℕ) (s : Screen)
    → row < s.rows
    → col ≤ s.cols
    → Keeps s (shift_right_from_cursor row col chars s)
unfolding shift_right_from_cursor
shift_right_from_cursor-Keeps row col chars s h b =
    let total = s.cols - col in
    let n = min chars total in
    Keeps-then s
      (move_if (ltb n total) (row * s.cols + (col + n)) (row * s.cols + col) (s.cols - n - col) s)
      (fill_cols row col n blank)
      (move_if-Keeps (ltb n total) (row * s.cols + (col + n)) (row * s.cols + col)
        (s.cols - n - col) s
        (omega
          (arith, cols-bound s.rows s.cols row (col + n) (s.cols - n - col) h (omega (arith, b))))
        (cols-bound s.rows s.cols row col (s.cols - n - col) h (omega (arith, b))))
      (λ s' rr cc'.
        fill_cols-Keeps row col n blank s' (omega (arith, h, rr)) (omega (arith, cc', b)))

pub clear_to_end-Keeps :
    (row col : ℕ) (s : Screen) → col ≤ s.cols → Keeps s (clear_to_end row col s)
clear_to_end-Keeps row col s h = elim (Bool-cases (ltb row s.rows)) [
  | inl inside' ↦ rw inside' (
      Keeps-then s (fill_cols row col (s.cols - col) blank s)
        (fill_rows (row + 1) (s.rows - (row + 1)) blank)
        (fill_cols-Keeps row col (s.cols - col) blank s (ground arith) (omega (arith, h)))
        (λ s' rr cc'. fill_rows-Keeps (row + 1) (s.rows - (row + 1)) blank s' (ground (arith, rr))))
  | inr outside ↦ rw outside (keeps s refl refl)
]

pub clear_to_cursor-Keeps :
    (row col : ℕ) (s : Screen) → row < s.rows → col < s.cols → Keeps s (clear_to_cursor row col s)
clear_to_cursor-Keeps row col s h b =
    Keeps-then s (fill_rows 0 row blank s) (fill_cols row 0 (col + 1) blank)
      (fill_rows-Keeps 0 row blank s (omega (arith, h)))
      (λ s' rr cc'.
        fill_cols-Keeps row 0 (col + 1) blank s' (omega (arith, h, rr)) (omega (arith, b, cc')))
