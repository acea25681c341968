-- ===== src/Vt/Examples.antt =====
-- A small screen, and what is written to it.
use protura.Base.{ℕ, ◌≡◌, refl, true, false, Option, none, some, List, [], ◌∷◌, arith, ◌>>=◌}
use protura.Vt.{
  vt_process_char, vt_write, vt_reset, in_state, state_esc, after_esc, state_lbracket,
  add_param_digit, end_lbracket, run_command, run_shift, run_setting, to_begin,
}
use protura.Vt.Screen.{blank, put_cell, fill_cols, fill_rows, move_cells, scroll}
use protura.Vt.State.{
  begin, Vt, no_attrs, find_next_set, put_newline, put_at, put_here, put_char, vt_putchar_nocursor,
}
use protura.Vt.Cursor.{set_cursor, set_attribute, set_attributes, set_scrolling_region}
use protura.Vt.Valid.{IsValid, IsSafe}
use protura.Vt.Safety.{is_harmless_in, are_harmless, vt_write-IsSafe}

abbrev with_cols : ℕ → ℕ → Vt
with_cols rows cols = record {
  screen = record { rows = rows; cols = cols; buf = λ i. blank };
  tty_input = [];
  cur_row = 0;
  cur_col = 0;
  scroll_top = 0;
  scroll_bottom = rows;
  fg_color = 7;
  bg_color = 0;
  cur_attrs = no_attrs;
  saved_cur_row = 0;
  saved_cur_col = 0;
  saved_fg_color = 7;
  saved_bg_color = 0;
  saved_cur_attrs = no_attrs;
  wrap_next = false;
  dec_private = false;
  wrap_on = true;
  cursor_is_on = true;
  origin_mode = false;
  insert_mode = false;
  tab_stops = λ i. false;
  state = begin;
  esc_param_count = 0;
  esc_params = λ i. 0;
}

abbrev small : Vt
small = with_cols 3 4

small-IsValid : IsValid small
unfolding IsValid
small-IsValid = record {
  rows_some = omega arith;
  cols_some = omega arith;
  rows_byte = omega arith;
  cols_byte = omega arith;
  row_bound = omega arith;
  col_bound = omega arith;
  top_zero = refl;
  bottom_rows = refl;
  tabs_bound = λ i e. absurd cc;
  count_bound = omega arith;
  params_bound = λ i. omega arith;
}

-- "a", ESC [ 2 ; 4 H, "bc"
abbrev moves : List ℕ
moves = b'a' ∷ 27 ∷ b'[' ∷ b'2' ∷ b';' ∷ b'4' ∷ b'H' ∷ b'b' ∷ b'c' ∷ []

moves_harmless : are_harmless moves small ≡ true
unfolding are_harmless is_harmless_in vt_process_char in_state state_esc state_lbracket
    add_param_digit end_lbracket run_command set_cursor vt_putchar_nocursor put_char put_here put_at
    put_cell
moves_harmless = refl

vt_write-IsSafe_example : IsSafe (vt_write moves small)
vt_write-IsSafe_example = vt_write-IsSafe moves small small-IsValid moves_harmless

abbrev cursor_of : Option Vt → ℕ × ℕ
cursor_of none = (0, 0)
cursor_of (some vt) = (vt.cur_row, vt.cur_col)

-- The last character wraps to the third line.
moves_cursor : cursor_of (vt_write moves small) ≡ (2, 1)
unfolding vt_write vt_process_char in_state state_esc state_lbracket add_param_digit end_lbracket
    run_command set_cursor vt_putchar_nocursor put_char put_here put_at put_cell
moves_cursor = refl

-- Ten separators, then a digit: the parameter is outside of its array.
many_params :
    vt_write
      (27 ∷ b'[' ∷ b';' ∷ b';' ∷ b';' ∷ b';' ∷ b';' ∷ b';' ∷ b';' ∷ b';' ∷ b';' ∷ b';' ∷ b'1' ∷ [])
      small
    ≡ none
unfolding vt_write vt_process_char in_state state_esc state_lbracket add_param_digit
many_params = refl

-- A region without the first line, and a line feed on its last one: the scroll leaves the buffer.
region_overrun : vt_write (27 ∷ b'[' ∷ b'2' ∷ b'r' ∷ 10 ∷ 10 ∷ 10 ∷ []) small ≡ none
unfolding vt_write vt_process_char in_state state_esc state_lbracket add_param_digit end_lbracket
    run_command run_setting set_scrolling_region set_cursor vt_putchar_nocursor put_newline scroll
    move_cells fill_rows fill_cols put_cell
region_overrun = refl

-- On a screen of 80 columns, the tab stop of a reset after the last column: a character on the last
-- line is written after the buffer.
tab_overrun :
    (vt_reset (with_cols 2 80) >>= vt_write (10 ∷ 27 ∷ b'[' ∷ b'7' ∷ b'9' ∷ b'C' ∷ 9 ∷ b'a' ∷ []))
    ≡ none
unfolding vt_reset vt_write vt_process_char in_state state_esc state_lbracket add_param_digit
    end_lbracket run_command protura.Vt.Cursor.cursor_cmd set_cursor vt_putchar_nocursor put_newline
    put_char put_here put_at find_next_set fill_rows fill_cols put_cell
tab_overrun = refl
