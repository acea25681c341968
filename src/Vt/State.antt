-- ===== src/Vt/State.antt =====
-- The state of src/drivers/char/vt_state_machine.c, and how a character is shown.
use protura.Base.{
  ℕ, zero, suc, ◌>>=◌, ◌+◌, ◌-◌, ◌*◌, ◌%◌, ◌^◌, ◌==◌, ltb, Bool, true, false, ◌&&◌, ◌||◌, Option,
  none, some, List, if◌then◌else◌,
}
use protura.Vt.Screen.{Screen, put_cell, scroll, shift_right_from_cursor}

-- `enum vt_state`
pub data VtState : Type 0 where
  begin : VtState
  esc : VtState
  lbracket : VtState
  numbersign : VtState
  openparen : VtState
  closeparen : VtState

-- The flags of `enum vt_disp_attrs` that the escapes set.
pub record Attrs : Type 0 where
  pub bold : Bool
  pub underline : Bool
  pub blink : Bool
  pub reverse : Bool

abbrev pub no_attrs : Attrs
no_attrs = record { bold = false; underline = false; blink = false; reverse = false }

-- `struct vt` with its screen, and the bytes that it gave to its tty.
pub record Vt : Type 0 where
  pub screen : Screen
  pub tty_input : List ℕ
  pub cur_row : ℕ
  pub cur_col : ℕ
  pub scroll_top : ℕ
  pub scroll_bottom : ℕ
  pub fg_color : ℕ
  pub bg_color : ℕ
  pub cur_attrs : Attrs
  pub saved_cur_row : ℕ
  pub saved_cur_col : ℕ
  pub saved_fg_color : ℕ
  pub saved_bg_color : ℕ
  pub saved_cur_attrs : Attrs
  pub wrap_next : Bool
  pub dec_private : Bool
  pub wrap_on : Bool
  pub cursor_is_on : Bool
  pub origin_mode : Bool
  pub insert_mode : Bool
  pub tab_stops : ℕ → Bool
  pub state : VtState
  pub esc_param_count : ℕ
  pub esc_params : ℕ → ℕ

-- A change of the screen.
abbrev pub on_screen : (Screen → Option Screen) → Vt → Option Vt
on_screen f vt = f vt.screen >>= λ s. some (record vt { screen = s })

abbrev pub bright : ℕ → ℕ
bright fg = if ltb fg 8 then fg + 8 else fg

-- `vt_create_cur_color`
unfoldable pub create_cur_color : Vt → ℕ
create_cur_color vt =
    let fg = if vt.cur_attrs.bold then bright vt.fg_color else vt.fg_color in
    if vt.cur_attrs.reverse then fg * 16 + vt.bg_color else vt.bg_color * 16 + fg

-- `bit_find_next_set`: the first one of the `n` bits from `i` on.
unfoldable pub find_next_set : (ℕ → Bool) → ℕ → ℕ → Option ℕ
find_next_set stops i zero = none
find_next_set stops i (suc n) =
    let later = find_next_set stops (i + 1) n in if stops i then some i else later

abbrev pub tab_col : Option ℕ → ℕ → ℕ
tab_col none cols = cols - 1
tab_col (some c) cols = c

-- The cursor is set, and `wrap_next` with it.
abbrev pub move_to : ℕ → ℕ → Bool → Vt → Vt
move_to r c wrap_next vt = record vt { cur_row = r; cur_col = c; wrap_next = wrap_next }

-- The cases for a line feed.
unfoldable pub put_newline : ℕ → ℕ → Vt → Option Vt
put_newline r c vt =
    if r + 1 == vt.scroll_bottom
    then (on_screen (scroll vt.scroll_top vt.scroll_bottom 1) vt >>= λ v.
        some (move_to r c false v))
    else some (move_to ((r + 1) % 2 ^ 8) c false vt)

-- The end of the default case.
unfoldable pub put_at : ℕ → ℕ → Bool → ℕ → Vt → Option Vt
put_at r c wrap_next ch vt =
    on_screen (put_cell r c (record { chr = ch; color = create_cur_color vt })) vt >>= λ v.
    some (
      if c + 1 == v.screen.cols
      then move_to r c true v
      else move_to r ((c + 1) % 2 ^ 8) wrap_next v)

-- The default case after the wrap.
unfoldable pub put_here : ℕ → ℕ → Bool → ℕ → Vt → Option Vt
put_here r c wrap_next ch vt =
    if vt.insert_mode
    then (on_screen (shift_right_from_cursor vt.cur_row vt.cur_col 1) vt
        >>= put_at r c wrap_next ch)
    else put_at r c wrap_next ch vt

-- The wrap of a row that is full.
abbrev pub last_row : ℕ → Vt → ℕ
last_row r vt = if r == vt.screen.rows then r - 1 else r

unfoldable pub put_char : ℕ → ℕ → ℕ → Vt → Option Vt
put_char r c ch vt =
    let next = (r + 1) % 2 ^ 8 in
    if vt.wrap_next && c + 1 == vt.screen.cols && vt.wrap_on
    then (if next == vt.scroll_bottom
        then (on_screen (scroll vt.scroll_top vt.scroll_bottom 1) vt
            >>= put_here (last_row ((next + 255) % 2 ^ 8) vt) 0 false ch)
        else put_here (last_row next vt) 0 false ch vt)
    else put_here r c vt.wrap_next ch vt

-- `__vt_putchar_nocursor`, where row and column are bytes.
unfoldable pub vt_putchar_nocursor : ℕ → Vt → Option Vt
vt_putchar_nocursor ch vt =
    let r = vt.cur_row % 2 ^ 8 in
    let c = vt.cur_col % 2 ^ 8 in
    if ch == b'\r'
    then some (move_to r 0 false vt)
    else if ch == b'\n' || ch == 11 || ch == 12
    then put_newline r c vt
    else if ch == b'\t'
    then some (
        move_to r (tab_col (find_next_set vt.tab_stops (c + 1) (2 ^ 8 - (c + 1))) vt.screen.cols)
          false vt)
    else if ch == 8
    then some (move_to r (c - 1) false vt)
    else put_char r c ch vt
