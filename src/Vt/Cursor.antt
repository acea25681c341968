-- ===== src/Vt/Cursor.antt =====
-- The escapes of src/drivers/char/vt_state_machine.c that move the cursor or set the modes. The
-- parameters are never negative, so a row or column below 0 is as 0 for `__vt_set_cursor`.
use protura.Base.{
  ℕ, zero, suc, ◌>>=◌, ◌+◌, ◌-◌, ◌^◌, ◌==◌, ltb, leb, true, false, ◌&&◌, ◌||◌, Option, none, some,
  List, [], ◌∷◌, ◌++◌, if◌then◌else◌,
}
use protura.Printf.Integer.{decimal}
use protura.Vt.Screen.{
  clear, clear_to_end, clear_to_cursor, clear_line_to_end, clear_line_to_cursor, clear_line,
  scroll_up_from_cursor,
}
use protura.Vt.State.{Vt, Attrs, no_attrs, on_screen}

abbrev pub clamp : ℕ → ℕ → ℕ → ℕ
clamp low high n = if ltb n low then low else if ltb high n then high else n

-- `__vt_set_cursor`
unfoldable pub set_cursor : ℕ → ℕ → Vt → Vt
set_cursor new_row new_col vt =
    let max_row = if vt.origin_mode then vt.scroll_bottom else vt.screen.rows in
    let min_row = if vt.origin_mode then vt.scroll_top else 0 in
    record vt {
      cur_row = clamp min_row (max_row - 1) new_row;
      cur_col = clamp 0 (vt.screen.cols - 1) new_col;
      wrap_next = false;
    }

abbrev pub set_cursor_origin_relative : ℕ → ℕ → Vt → Vt
set_cursor_origin_relative new_row new_col vt =
    set_cursor (if vt.origin_mode then new_row + vt.scroll_top else new_row) new_col vt

-- `attribute_to_screen_color`
unfoldable pub attribute_to_screen_color : ℕ → ℕ
attribute_to_screen_color color =
    if color == 1
    then 4
    else if color == 2
    then 2
    else if color == 3
    then 6
    else if color == 4
    then 1
    else if color == 5
    then 5
    else if color == 6
    then 3
    else if color == 7
    then 7
    else 0

-- `cur_attrs`, `fg_color` and `bg_color`
pub record Look : Type 0 where
  pub attrs : Attrs
  pub fg : ℕ
  pub bg : ℕ

-- One parameter of `vt_esc_set_attributes`.
unfoldable pub set_attribute : ℕ → Look → Look
set_attribute p l =
    if p == 0
    then record { attrs = no_attrs; fg = 7; bg = 0 }
    else if p == 1
    then record l { attrs = record l.attrs { bold = true } }
    else if p == 22
    then record l { attrs = record l.attrs { bold = false } }
    else if p == 5
    then record l { attrs = record l.attrs { blink = true } }
    else if p == 25
    then record l { attrs = record l.attrs { blink = false } }
    else if p == 4
    then record l { attrs = record l.attrs { underline = true } }
    else if p == 24
    then record l { attrs = record l.attrs { underline = false } }
    else if p == 7
    then record l { attrs = record l.attrs { reverse = true } }
    else if p == 27
    then record l { attrs = record l.attrs { reverse = false } }
    else if p == 39
    then record l { fg = 7 }
    else if p == 49
    then record l { bg = 0 }
    else if leb 30 p && leb p 37
    then record l { fg = attribute_to_screen_color (p - 30) }
    else if leb 40 p && leb p 47
    then record l { bg = attribute_to_screen_color (p - 40) }
    else l

-- Those from the parameter `i` on.
unfoldable pub set_attributes : ℕ → ℕ → (ℕ → ℕ) → Look → Look
set_attributes i zero params l = l
set_attributes i (suc n) params l = set_attributes (i + 1) n params (set_attribute (params i) l)

-- `vt_esc_set_attributes`
abbrev pub esc_set_attributes : Vt → Vt
esc_set_attributes vt =
    let l =
      set_attributes 0 vt.esc_param_count vt.esc_params
        (record { attrs = vt.cur_attrs; fg = vt.fg_color; bg = vt.bg_color }) in
    record vt { cur_attrs = l.attrs; fg_color = l.fg; bg_color = l.bg }

-- `vt_esc_cursor_move`
abbrev pub cursor_move : Vt → Vt
cursor_move vt = set_cursor_origin_relative (vt.esc_params 0 - 1) (vt.esc_params 1 - 1) vt

-- A count that is 1 if it is not given.
abbrev pub count : Vt → ℕ
count vt = if vt.esc_params 0 == 0 then 1 else vt.esc_params 0

-- A sum of two `int`s.
abbrev pub add_int : ℕ → ℕ → Option ℕ
add_int a b = if ltb (a + b) (2 ^ 31) then some (a + b) else none

-- `vt_esc_cursor_cmd`
unfoldable pub cursor_cmd : ℕ → Vt → Option Vt
cursor_cmd cmd vt =
    let n = count vt in
    if cmd == b'A'
    then some (set_cursor (vt.cur_row - n) vt.cur_col vt)
    else if cmd == b'e' || cmd == b'B'
    then (add_int vt.cur_row n >>= λ r. some (set_cursor r vt.cur_col vt))
    else if cmd == b'a' || cmd == b'C'
    then (add_int vt.cur_col n >>= λ c. some (set_cursor vt.cur_row c vt))
    else if cmd == b'D'
    then some (set_cursor vt.cur_row (vt.cur_col - n) vt)
    else if cmd == b'E'
    then (add_int vt.cur_row n >>= λ r. some (set_cursor r 0 vt))
    else if cmd == b'F'
    then some (set_cursor (vt.cur_row - n) 0 vt)
    else if cmd == b'G' || cmd == b'`'
    then some (set_cursor vt.cur_row (n - 1) vt)
    else some (set_cursor (n - 1) vt.cur_col vt)

-- `vt_esc_disp`
unfoldable pub esc_disp : ℕ → Vt → Option Vt
esc_disp mode vt =
    if mode == 0
    then on_screen (clear_to_end vt.cur_row vt.cur_col) vt
    else if mode == 1
    then on_screen (clear_to_cursor vt.cur_row vt.cur_col) vt
    else if mode == 2
    then on_screen clear vt
    else some vt

-- `vt_esc_clear_line`
unfoldable pub esc_clear_line : ℕ → Vt → Option Vt
esc_clear_line mode vt =
    if mode == 0
    then on_screen (clear_line_to_end vt.cur_row vt.cur_col) vt
    else if mode == 1
    then on_screen (clear_line_to_cursor vt.cur_row vt.cur_col) vt
    else if mode == 2
    then on_screen (clear_line vt.cur_row) vt
    else some vt

-- `%d` of `a - b`
abbrev pub show_difference : ℕ → ℕ → List ℕ
show_difference a b = if ltb a b then b'-' ∷ decimal (b - a) else decimal (a - b)

abbrev pub tty_write_string : List ℕ → Vt → Vt
tty_write_string str vt = record vt { tty_input = vt.tty_input ++ str }

-- `vt_esc_report`
unfoldable pub esc_report : ℕ → Vt → Vt
esc_report mode vt =
    if mode == 6
    then (let row =
          if vt.origin_mode
          then show_difference (vt.cur_row + 1) vt.scroll_bottom
          else decimal (vt.cur_row + 1) in
        tty_write_string (27 ∷ b'[' ∷ (row ++ (b';' ∷ (decimal (vt.cur_col + 1) ++ (b'R' ∷ [])))))
          vt)
    else if mode == 7
    then tty_write_string (27 ∷ b'[' ∷ b'0' ∷ b'n' ∷ []) vt
    else vt

-- `vt_esc_set_mode`
abbrev pub set_mode : ℕ → Vt → Vt
set_mode cmd vt = if vt.esc_params 0 == 4 then record vt { insert_mode = cmd == b'h' } else vt

-- `vt_esc_reverse_linefeed`
unfoldable pub reverse_linefeed : Vt → Option Vt
reverse_linefeed vt =
    if ltb vt.scroll_top vt.cur_row
    then some (set_cursor (vt.cur_row - 1) vt.cur_col vt)
    else on_screen (scroll_up_from_cursor vt.cur_row vt.scroll_bottom 1) vt

abbrev pub save_cursor : Vt → Vt
save_cursor vt = record vt {
  saved_cur_row = vt.cur_row;
  saved_cur_col = vt.cur_col;
  saved_fg_color = vt.fg_color;
  saved_bg_color = vt.bg_color;
  saved_cur_attrs = vt.cur_attrs;
}

-- `vt_restore_cursor`, which saves the colors.
abbrev pub restore_cursor : Vt → Vt
restore_cursor vt = set_cursor vt.saved_cur_row vt.saved_cur_col (record vt {
  saved_fg_color = vt.fg_color;
  saved_bg_color = vt.bg_color;
  cur_attrs = vt.saved_cur_attrs;
})

-- `vt_set_scrolling_region`
unfoldable pub set_scrolling_region : Vt → Vt
set_scrolling_region vt =
    let new_top = vt.esc_params 0 - 1 in
    let new_bottom = if vt.esc_params 1 == 0 then vt.screen.rows - 1 else vt.esc_params 1 - 1 in
    if leb vt.screen.rows new_bottom || leb new_bottom new_top
    then vt
    else set_cursor_origin_relative 0 0
        (record vt { scroll_top = new_top; scroll_bottom = new_bottom + 1 })
