-- ===== src/Vt/Commands.antt =====
-- The escape sequences keep the state valid, but for a scrolling region.
use protura.Base.{
  ℕ, ◌>>=◌, ◌+◌, ◌-◌, ◌^◌, ◌≤◌, ◌<◌, ◌==◌, ltb, ◌≡◌, refl, ◌||◌, some, arith, Bool-cases, inl, inr,
}
use protura.Base.{lt→ltb}
use protura.Vt.Screen.{
  blank, clear, clear_to_end, clear_to_cursor, clear_line_to_end, clear_line_to_cursor, clear_line,
  scroll_up_from_cursor,
}
use protura.Vt.State.{Vt}
use protura.Vt.Cursor.{
  set_cursor, count, add_int, cursor_cmd, esc_disp, esc_clear_line, esc_report, reverse_linefeed,
}
use protura.Vt.Bounds.{
  fill_cols-Keeps, fill_rows-Keeps, scroll_up_from_cursor-Keeps, clear_to_end-Keeps,
  clear_to_cursor-Keeps,
}
use protura.Vt.Valid.{IsValid, IsSafe, is_safe, IsSafe-if, IsSafe-screen}

pub set_cursor-IsValid : (r c : ℕ) (vt : Vt) → IsValid vt → IsValid (set_cursor r c vt)
unfolding set_cursor IsValid
set_cursor-IsValid r c vt v = record {
  rows_some = v.rows_some;
  cols_some = v.cols_some;
  rows_byte = v.rows_byte;
  cols_byte = v.cols_byte;
  row_bound = ground (arith, v.rows_some, v.top_zero, v.bottom_rows);
  col_bound = ground (arith, v.cols_some);
  top_zero = v.top_zero;
  bottom_rows = v.bottom_rows;
  tabs_bound = v.tabs_bound;
  count_bound = v.count_bound;
  params_bound = v.params_bound;
}

row_byte : (vt : Vt) → IsValid vt → vt.cur_row < 256
unfolding IsValid
row_byte vt v = omega (arith, v.row_bound, v.rows_byte)

col_byte : (vt : Vt) → IsValid vt → vt.cur_col < 256
unfolding IsValid
col_byte vt v = omega (arith, v.col_bound, v.cols_byte)

add_int-fits : (a b : ℕ) → a + b < 2 ^ 31 → add_int a b ≡ some (a + b)
add_int-fits a b h = rw ((lt→ltb (a + b) (2 ^ 31) h)) refl

count-bound : (vt : Vt) → IsValid vt → count vt + 256 < 2 ^ 31
unfolding IsValid
count-bound vt v = ground (arith, v.params_bound 0)

-- The cursor goes down or to the right by the count.
add-IsSafe :
    (a : ℕ) (f : ℕ → Vt) (vt : Vt)
    → IsValid vt
    → a < 256
    → ((n : ℕ) → IsValid (f n))
    → IsSafe (add_int a (count vt) >>= λ n. some (f n))
add-IsSafe a f vt v h w =
    rw (add_int-fits a (count vt) (omega (arith, h, count-bound vt v)))
      (is_safe (f (a + count vt)) (w (a + count vt)))

pub cursor_cmd-IsSafe : (cmd : ℕ) (vt : Vt) → IsValid vt → IsSafe (cursor_cmd cmd vt)
unfolding cursor_cmd
cursor_cmd-IsSafe cmd vt v =
    let n = count vt in
    let to = λ (r c : ℕ). is_safe (set_cursor r c vt) (set_cursor-IsValid r c vt v) in
    IsSafe-if (cmd == b'A') (λ e. to (vt.cur_row - n) vt.cur_col)
      (λ e.
        IsSafe-if (cmd == b'e' || cmd == b'B')
          (λ e1.
            add-IsSafe vt.cur_row (λ r. set_cursor r vt.cur_col vt) vt v (row_byte vt v)
              (λ r. set_cursor-IsValid r vt.cur_col vt v))
          (λ e1.
            IsSafe-if (cmd == b'a' || cmd == b'C')
              (λ e2.
                add-IsSafe vt.cur_col (λ c. set_cursor vt.cur_row c vt) vt v (col_byte vt v)
                  (λ c. set_cursor-IsValid vt.cur_row c vt v))
              (λ e2.
                IsSafe-if (cmd == b'D') (λ e3. to vt.cur_row (vt.cur_col - n))
                  (λ e3.
                    IsSafe-if (cmd == b'E')
                      (λ e4.
                        add-IsSafe vt.cur_row (λ r. set_cursor r 0 vt) vt v (row_byte vt v)
                          (λ r. set_cursor-IsValid r 0 vt v))
                      (λ e4.
                        IsSafe-if (cmd == b'F') (λ e5. to (vt.cur_row - n) 0)
                          (λ e5.
                            IsSafe-if (cmd == b'G' || cmd == b'`') (λ e6. to vt.cur_row (n - 1))
                              (λ e6. to (n - 1) vt.cur_col)))))))

pub esc_disp-IsSafe : (mode : ℕ) (vt : Vt) → IsValid vt → IsSafe (esc_disp mode vt)
unfolding esc_disp IsValid
esc_disp-IsSafe mode vt v =
    IsSafe-if (mode == 0)
      (λ e.
        IsSafe-screen (clear_to_end vt.cur_row vt.cur_col) vt v
          (clear_to_end-Keeps vt.cur_row vt.cur_col vt.screen (omega (arith, v.col_bound))))
      (λ e.
        IsSafe-if (mode == 1)
          (λ e1.
            IsSafe-screen (clear_to_cursor vt.cur_row vt.cur_col) vt v
              (clear_to_cursor-Keeps vt.cur_row vt.cur_col vt.screen v.row_bound v.col_bound))
          (λ e1.
            IsSafe-if (mode == 2)
              (λ e2.
                IsSafe-screen clear vt v
                  (fill_rows-Keeps 0 vt.screen.rows blank vt.screen (omega arith)))
              (λ e2. is_safe vt v)))

pub esc_clear_line-IsSafe : (mode : ℕ) (vt : Vt) → IsValid vt → IsSafe (esc_clear_line mode vt)
unfolding esc_clear_line IsValid
esc_clear_line-IsSafe mode vt v =
    let fill = λ (c n : ℕ) (h : c + n ≤ vt.screen.cols).
      fill_cols-Keeps vt.cur_row c n blank vt.screen v.row_bound h in
    IsSafe-if (mode == 0)
      (λ e.
        IsSafe-screen (clear_line_to_end vt.cur_row vt.cur_col) vt v
          (fill vt.cur_col (vt.screen.cols - vt.cur_col) (omega (arith, v.col_bound))))
      (λ e.
        IsSafe-if (mode == 1)
          (λ e1.
            IsSafe-screen (clear_line_to_cursor vt.cur_row vt.cur_col) vt v
              (fill 0 (vt.cur_col + 1) (omega (arith, v.col_bound))))
          (λ e1.
            IsSafe-if (mode == 2)
              (λ e2.
                IsSafe-screen (clear_line vt.cur_row) vt v (fill 0 vt.screen.cols (omega arith)))
              (λ e2. is_safe vt v)))

pub reverse_linefeed-IsSafe : (vt : Vt) → IsValid vt → IsSafe (reverse_linefeed vt)
unfolding reverse_linefeed IsValid
reverse_linefeed-IsSafe vt v =
    IsSafe-if (ltb vt.scroll_top vt.cur_row)
      (λ e.
        is_safe (set_cursor (vt.cur_row - 1) vt.cur_col vt)
          (set_cursor-IsValid (vt.cur_row - 1) vt.cur_col vt v))
      (λ e. IsSafe-screen (scroll_up_from_cursor vt.cur_row vt.scroll_bottom 1) vt v (
        scroll_up_from_cursor-Keeps vt.cur_row vt.scroll_bottom 1 vt.screen v.row_bound
          (omega (arith, v.bottom_rows))))

pub esc_report-IsValid : (mode : ℕ) (vt : Vt) → IsValid vt → IsValid (esc_report mode vt)
unfolding esc_report IsValid
esc_report-IsValid mode vt v = elim (Bool-cases (mode == 6)) [
  | inl six ↦ rw six v
  | inr other ↦ elim (Bool-cases (mode == 7)) [
    | inl seven ↦ rw (other, seven) v
    | inr neither ↦ rw (other, neither) v
  ]
]
