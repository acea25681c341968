-- ===== src/Vt.antt =====
-- src/drivers/char/vt_state_machine.c: the virtual terminal. `none` is undefined behaviour: a place
-- outside of the screen, of `esc_params` or of a table of handlers, or an overflow of an `int`. The
-- callbacks of the screen leave no trace.
pub mod Screen
pub mod State
pub mod Cursor
pub mod Bounds
pub mod Valid
pub mod Chars
pub mod Commands
pub mod Sequences
pub mod Safety
mod Examples
use protura.Base.{
  ℕ, zero, suc, ◌>>=◌, ◌+◌, ◌-◌, ◌*◌, ◌%◌, ◌^◌, ◌==◌, ltb, leb, Bool, true, false, ◌&&◌, ◌||◌,
  Option, none, some, List, [], ◌∷◌, length, if◌then◌else◌,
}
use protura.Vt.Screen.{
  clear, fill_rows, scroll_from_cursor, scroll_up_from_cursor, shift_left_from_cursor,
  shift_right_from_cursor,
}
use protura.Vt.State.{
  VtState, begin, esc, lbracket, numbersign, openparen, closeparen, Vt, no_attrs, on_screen,
  vt_putchar_nocursor,
}
use protura.Vt.Cursor.{
  set_cursor, set_cursor_origin_relative, esc_set_attributes, cursor_move, count, cursor_cmd,
  esc_disp, esc_clear_line, tty_write_string, esc_report, set_mode, reverse_linefeed, save_cursor,
  restore_cursor, set_scrolling_region,
}

abbrev pub vt_param_max : ℕ
vt_param_max = 10

abbrev pub home : Vt → Vt
home vt = set_cursor_origin_relative 0 0 vt

abbrev pub cleared_home : Vt → Option Vt
cleared_home vt = on_screen clear vt >>= λ v. some (home v)

-- `vt_set_dec_setting` and `vt_unset_dec_setting`
unfoldable pub dec_setting : Bool → Vt → Option Vt
dec_setting on vt =
    let p = vt.esc_params 0 in
    if p == 7
    then some (record vt { wrap_on = on })
    else if p == 6
    then some (home (record vt { origin_mode = on }))
    else if p == 3
    then cleared_home vt
    else if p == 25
    then some (record vt { cursor_is_on = on })
    else some vt

-- `vt_unset_tab`
unfoldable pub unset_tab : Vt → Vt
unset_tab vt =
    let p = vt.esc_params 0 in
    if p == 0
    then record vt { tab_stops = λ i. if i == vt.cur_col then false else vt.tab_stops i }
    else if p == 3
    then record vt { tab_stops = λ i. false }
    else vt

-- Every eighth column, up to the 80th.
abbrev pub default_tab_stops : ℕ → Bool
default_tab_stops i = i % 8 == 0 && leb i 80

-- `vt_reset`, but for the screen
abbrev pub reset_state : Vt → Vt
reset_state vt = record vt {
  fg_color = 7;
  bg_color = 0;
  cur_attrs = no_attrs;
  cur_row = 0;
  cur_col = 0;
  wrap_on = true;
  wrap_next = false;
  origin_mode = false;
  scroll_top = 0;
  scroll_bottom = vt.screen.rows;
  saved_cur_col = 0;
  saved_cur_row = 0;
  saved_cur_attrs = no_attrs;
  dec_private = false;
  insert_mode = false;
  cursor_is_on = true;
  tab_stops = default_tab_stops;
}

-- `vt_reset`
unfoldable pub vt_reset : Vt → Option Vt
vt_reset vt = on_screen clear (reset_state vt)

abbrev pub is_cursor_cmd : ℕ → Bool
is_cursor_cmd ch =
    leb b'A' ch && leb ch b'G' || ch == b'e' || ch == b'a' || ch == b'`' || ch == b'd'

-- The commands of `lbracket_table` that move characters of the screen.
unfoldable pub run_shift : ℕ → Vt → Option Vt
run_shift ch vt =
    if ch == b'M'
    then on_screen (scroll_from_cursor vt.cur_row vt.scroll_bottom (count vt)) vt
    else if ch == b'P'
    then on_screen (shift_left_from_cursor vt.cur_row vt.cur_col (count vt)) vt
    else if ch == b'L'
    then on_screen (scroll_up_from_cursor vt.cur_row vt.scroll_bottom (count vt)) vt
    else on_screen (shift_right_from_cursor vt.cur_row vt.cur_col (count vt)) vt

abbrev pub is_shift : ℕ → Bool
is_shift ch = ch == b'M' || ch == b'P' || ch == b'L' || ch == b'@'

-- Those that set modes or answer.
unfoldable pub run_setting : ℕ → Vt → Vt
run_setting ch vt =
    if ch == b'n'
    then esc_report (vt.esc_params 0) vt
    else if ch == b'l' || ch == b'h'
    then set_mode ch vt
    else if ch == b'c'
    then tty_write_string (27 ∷ b'[' ∷ b'?' ∷ b'6' ∷ b'c' ∷ []) vt
    else if ch == b'r'
    then set_scrolling_region vt
    else if ch == b'g'
    then unset_tab vt
    else vt

-- `lbracket_table`; a command that is not in it does nothing.
unfoldable pub run_command : ℕ → Vt → Option Vt
run_command ch vt =
    if ch == b'm'
    then (if leb vt.esc_param_count vt_param_max then some (esc_set_attributes vt) else none)
    else if ch == b'H' || ch == b'f'
    then some (cursor_move vt)
    else if is_cursor_cmd ch
    then cursor_cmd ch vt
    else if ch == b'J'
    then esc_disp (vt.esc_params 0) vt
    else if ch == b'K'
    then esc_clear_line (vt.esc_params 0) vt
    else if is_shift ch
    then run_shift ch vt
    else some (run_setting ch vt)

-- `lbracket_table_dec_private`
abbrev pub run_dec_private : ℕ → Vt → Option Vt
run_dec_private ch vt =
    if ch == b'h' then dec_setting true vt else if ch == b'l' then dec_setting false vt else some vt

-- A digit of a parameter.
unfoldable pub add_param_digit : ℕ → Vt → Option Vt
add_param_digit d vt =
    let n = vt.esc_params vt.esc_param_count * 10 + d in
    if ltb vt.esc_param_count vt_param_max && ltb n (2 ^ 31)
    then some
        (record vt { esc_params = λ i. if i == vt.esc_param_count then n else vt.esc_params i })
    else none

abbrev pub to_begin : Vt → Vt
to_begin vt = record vt { state = begin }

-- The end of a sequence. A `char` from 128 on is negative.
unfoldable pub end_lbracket : ℕ → Vt → Option Vt
end_lbracket ch vt =
    let v = record vt { esc_param_count = vt.esc_param_count + 1 } in
    if leb 128 ch
    then none
    else ((if vt.dec_private then run_dec_private ch v else run_command ch v) >>= λ v'.
        some (record v' { state = begin; dec_private = false }))

-- `vt_state_lbracket`
unfoldable pub state_lbracket : ℕ → Vt → Option Vt
state_lbracket ch vt =
    if leb b'0' ch && leb ch b'9'
    then add_param_digit (ch - b'0') vt
    else if ch == b';'
    then some (record vt { esc_param_count = vt.esc_param_count + 1 })
    else if ch == b'?'
    then some (record vt { dec_private = true })
    else end_lbracket ch vt

-- `vt_state_numbersign`, which stays in its state after the test.
unfoldable pub state_numbersign : ℕ → Vt → Option Vt
state_numbersign ch vt =
    if ch == b'8'
    then on_screen (λ s. fill_rows 0 s.rows (record { chr = b'E'; color = 7 }) s) vt
    else some (to_begin vt)

abbrev pub start_params : VtState → Vt → Vt
start_params state vt = record vt { state = state; esc_param_count = 0; esc_params = λ i. 0 }

-- The cases of `vt_state_esc` that keep the cursor.
unfoldable pub after_esc : ℕ → Vt → Option Vt
after_esc ch vt =
    if ch == b'H'
    then some
        (to_begin (record vt { tab_stops = λ i. if i == vt.cur_col then true else vt.tab_stops i }))
    else if ch == b'#'
    then some (start_params numbersign vt)
    else if ch == b'('
    then some (record vt { state = openparen })
    else if ch == b')'
    then some (record vt { state = closeparen })
    else some (to_begin vt)

-- `vt_state_esc`
unfoldable pub state_esc : ℕ → Vt → Option Vt
state_esc ch vt =
    if ch == b'['
    then some (start_params lbracket vt)
    else if ch == b'M'
    then (reverse_linefeed vt >>= λ v. some (to_begin v))
    else if ch == b'D'
    then (vt_putchar_nocursor b'\n' vt >>= λ v. some (to_begin v))
    else if ch == b'E'
    then (vt_putchar_nocursor b'\r' vt >>= vt_putchar_nocursor b'\n' >>= λ v. some (to_begin v))
    else if ch == b'7'
    then some (to_begin (save_cursor vt))
    else if ch == b'8'
    then some (to_begin (restore_cursor vt))
    else if ch == b'c'
    then (vt_reset vt >>= λ v. some (to_begin v))
    else after_esc ch vt

-- `vt_states`
unfoldable pub in_state : VtState → ℕ → Vt → Option Vt
in_state begin ch vt = vt_putchar_nocursor ch vt
in_state esc ch vt = state_esc ch vt
in_state lbracket ch vt = state_lbracket ch vt
in_state numbersign ch vt = state_numbersign ch vt
in_state openparen ch vt = some (to_begin vt)
in_state closeparen ch vt = some (to_begin vt)

abbrev pub is_control : ℕ → Bool
is_control ch = ch == b'\n' || ch == b'\r' || ch == b'\t' || ch == 8 || ch == 11 || ch == 12

-- `__vt_process_char`
unfoldable pub vt_process_char : ℕ → Vt → Option Vt
vt_process_char ch vt =
    if ch == 0
    then some vt
    else if is_control ch
    then vt_putchar_nocursor ch vt
    else if ch == 7 || ch == 14 || ch == 15
    then some vt
    else if ch == 27
    then some (record vt { state = esc })
    else in_state vt.state ch vt

-- `vt_write`
unfoldable pub vt_write : List ℕ → Vt → Option Vt
vt_write [] vt = some vt
vt_write (ch ∷ buf) vt = vt_process_char ch vt >>= vt_write buf
