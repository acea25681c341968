-- ===== src/Vt/Sequences.antt =====
-- Every character of a sequence keeps the state valid, under a test that tells the dangerous ones.
use protura.Base.{
  ℕ, ◌+◌, ◌-◌, ◌^◌, ◌≤◌, ◌<◌, ◌==◌, leb, ◌≡◌, Bool, true, false, ◌||◌, some, arith, Bool-cases, inl,
  inr, if◌then◌else◌,
}
use protura.Vt.{
  vt_param_max, home, dec_setting, unset_tab, is_cursor_cmd, run_shift, is_shift, run_setting,
  run_command, run_dec_private,
}
use protura.Vt.Screen.{
  Screen, blank, clear, scroll_from_cursor, scroll_up_from_cursor, shift_left_from_cursor,
  shift_right_from_cursor,
}
use protura.Vt.State.{Vt}
use protura.Vt.Cursor.{esc_set_attributes, cursor_move, count}
use protura.Vt.Bounds.{
  Keeps, fill_rows-Keeps, scroll_from_cursor-Keeps, scroll_up_from_cursor-Keeps,
  shift_left_from_cursor-Keeps, shift_right_from_cursor-Keeps,
}
use protura.Vt.Valid.{
  IsValid, IsSafe, is_safe, IsSafe-if, IsValid-if, IsSafe-on_screen, IsSafe-screen, IsValid-screen,
}
use protura.Vt.Commands.{
  set_cursor-IsValid, cursor_cmd-IsSafe, esc_disp-IsSafe, esc_clear_line-IsSafe, esc_report-IsValid,
}

-- The tab stops change; none is off the screen.
pub tabs-IsValid :
    (tabs : ℕ → Bool) (vt : Vt)
    → IsValid vt
    → ((i : ℕ) → tabs i ≡ true → i < vt.screen.cols)
    → IsValid (record vt { tab_stops = tabs })
unfolding IsValid
tabs-IsValid tabs vt v h = record {
  rows_some = v.rows_some;
  cols_some = v.cols_some;
  rows_byte = v.rows_byte;
  cols_byte = v.cols_byte;
  row_bound = v.row_bound;
  col_bound = v.col_bound;
  top_zero = v.top_zero;
  bottom_rows = v.bottom_rows;
  tabs_bound = h;
  count_bound = v.count_bound;
  params_bound = v.params_bound;
}

-- The parameters change, and stay in bounds.
pub params-IsValid :
    (n : ℕ) (params : ℕ → ℕ) (vt : Vt)
    → IsValid vt
    → n ≤ 10
    → ((i : ℕ) → params i + 256 < 2 ^ 31)
    → IsValid (record vt { esc_param_count = n; esc_params = params })
unfolding IsValid
params-IsValid n params vt v h h' = record {
  rows_some = v.rows_some;
  cols_some = v.cols_some;
  rows_byte = v.rows_byte;
  cols_byte = v.cols_byte;
  row_bound = v.row_bound;
  col_bound = v.col_bound;
  top_zero = v.top_zero;
  bottom_rows = v.bottom_rows;
  tabs_bound = v.tabs_bound;
  count_bound = h;
  params_bound = h';
}

unset_tab-IsValid : (vt : Vt) → IsValid vt → IsValid (unset_tab vt)
unfolding unset_tab IsValid
unset_tab-IsValid vt v = elim (Bool-cases (vt.esc_params 0 == 0)) [
  | inl here' ↦ rw here' (
      tabs-IsValid (λ i. if i == vt.cur_col then false else vt.tab_stops i) vt v
        (λ i e. v.tabs_bound i (ground arith)))
  | inr other ↦ elim (Bool-cases (vt.esc_params 0 == 3)) [
    | inl all ↦ rw (other, all) (tabs-IsValid (λ i. false) vt v (λ i e. absurd cc))
    | inr neither ↦ rw (other, neither) v
  ]
]

run_setting-IsValid :
    (ch : ℕ) (vt : Vt) → IsValid vt → (ch == b'r') ≡ false → IsValid (run_setting ch vt)
unfolding run_setting IsValid
run_setting-IsValid ch vt v no_region = elim (Bool-cases (ch == b'n')) [
  | inl e ↦ rw e (esc_report-IsValid (vt.esc_params 0) vt v)
  | inr e ↦ elim (Bool-cases (ch == b'l' || ch == b'h')) [
    | inl e1 ↦
        rw (e, e1)
          (IsValid-if (vt.esc_params 0 == 4) (record vt { insert_mode = ch == b'h' }) vt v v)
    | inr e1 ↦ elim (Bool-cases (ch == b'c')) [
      | inl e2 ↦ rw (e, e1, e2) v
      | inr e2 ↦ elim (Bool-cases (ch == b'g')) [
        | inl e3 ↦ rw (e, e1, e2, no_region, e3) (unset_tab-IsValid vt v)
        | inr e3 ↦ rw (e, e1, e2, no_region, e3) v
      ]
    ]
  ]
]

run_shift-IsSafe : (ch : ℕ) (vt : Vt) → IsValid vt → IsSafe (run_shift ch vt)
unfolding run_shift IsValid
run_shift-IsSafe ch vt v =
    let n = count vt in
    let bottom : vt.scroll_bottom ≤ vt.screen.rows = omega (arith, v.bottom_rows) in
    let col : vt.cur_col ≤ vt.screen.cols = omega (arith, v.col_bound) in
    IsSafe-if (ch == b'M')
      (λ e.
        IsSafe-screen (scroll_from_cursor vt.cur_row vt.scroll_bottom n) vt v
          (scroll_from_cursor-Keeps vt.cur_row vt.scroll_bottom n vt.screen v.row_bound bottom))
      (λ e.
        IsSafe-if (ch == b'P')
          (λ e1.
            IsSafe-screen (shift_left_from_cursor vt.cur_row vt.cur_col n) vt v
              (shift_left_from_cursor-Keeps vt.cur_row vt.cur_col n vt.screen v.row_bound col))
          (λ e1.
            IsSafe-if (ch == b'L')
              (λ e2. IsSafe-screen (scroll_up_from_cursor vt.cur_row vt.scroll_bottom n) vt v (
                scroll_up_from_cursor-Keeps vt.cur_row vt.scroll_bottom n vt.screen v.row_bound
                  bottom))
              (λ e2.
                IsSafe-screen (shift_right_from_cursor vt.cur_row vt.cur_col n) vt v (
                  shift_right_from_cursor-Keeps vt.cur_row vt.cur_col n vt.screen v.row_bound
                    col))))

count_fits : (vt : Vt) → IsValid vt → leb vt.esc_param_count vt_param_max ≡ true
unfolding IsValid
count_fits vt v = ground (arith, v.count_bound)

attributes-IsValid : (vt : Vt) → IsValid vt → IsValid (esc_set_attributes vt)
unfolding IsValid
attributes-IsValid vt v = v

cursor_move-IsValid : (vt : Vt) → IsValid vt → IsValid (cursor_move vt)
cursor_move-IsValid vt v =
    set_cursor-IsValid
      (if vt.origin_mode then vt.esc_params 0 - 1 + vt.scroll_top else vt.esc_params 0 - 1)
      (vt.esc_params 1 - 1) vt v

pub run_command-IsSafe :
    (ch : ℕ) (vt : Vt) → IsValid vt → (ch == b'r') ≡ false → IsSafe (run_command ch vt)
unfolding run_command
run_command-IsSafe ch vt v no_region =
    IsSafe-if (ch == b'm')
      (λ e. rw (count_fits vt v) (is_safe (esc_set_attributes vt) (attributes-IsValid vt v)))
      (λ e.
        IsSafe-if (ch == b'H' || ch == b'f')
          (λ e1. is_safe (cursor_move vt) (cursor_move-IsValid vt v))
          (λ e1.
            IsSafe-if (is_cursor_cmd ch) (λ e2. cursor_cmd-IsSafe ch vt v)
              (λ e2.
                IsSafe-if (ch == b'J') (λ e3. esc_disp-IsSafe (vt.esc_params 0) vt v)
                  (λ e3.
                    IsSafe-if (ch == b'K') (λ e4. esc_clear_line-IsSafe (vt.esc_params 0) vt v)
                      (λ e4.
                        IsSafe-if (is_shift ch) (λ e5. run_shift-IsSafe ch vt v)
                          (λ e5.
                            is_safe (run_setting ch vt)
                              (run_setting-IsValid ch vt v no_region)))))))

home-IsValid : (vt : Vt) → IsValid vt → IsValid (home vt)
home-IsValid vt v = set_cursor-IsValid (if vt.origin_mode then 0 + vt.scroll_top else 0) 0 vt v

pub clear-Keeps : (s : Screen) → Keeps s (clear s)
clear-Keeps s = fill_rows-Keeps 0 s.rows blank s (omega arith)

dec_setting-IsSafe : (on : Bool) (vt : Vt) → IsValid vt → IsSafe (dec_setting on vt)
unfolding dec_setting IsValid
dec_setting-IsSafe on vt v =
    let p = vt.esc_params 0 in
    IsSafe-if (p == 7) (λ e. is_safe (record vt { wrap_on = on }) v)
      (λ e.
        IsSafe-if (p == 6)
          (λ e1.
            is_safe (home (record vt { origin_mode = on }))
              (home-IsValid (record vt { origin_mode = on }) v))
          (λ e1.
            IsSafe-if (p == 3)
              (λ e2.
                IsSafe-on_screen clear (λ z. some (home z)) vt (clear-Keeps vt.screen)
                  (λ s rr cc'.
                    is_safe (home (record vt { screen = s }))
                      (home-IsValid (record vt { screen = s }) (IsValid-screen vt s v rr cc'))))
              (λ e2.
                IsSafe-if (p == 25) (λ e3. is_safe (record vt { cursor_is_on = on }) v)
                  (λ e3. is_safe vt v))))

pub run_dec_private-IsSafe : (ch : ℕ) (vt : Vt) → IsValid vt → IsSafe (run_dec_private ch vt)
run_dec_private-IsSafe ch vt v =
    IsSafe-if (ch == b'h') (λ e. dec_setting-IsSafe true vt v)
      (λ e. IsSafe-if (ch == b'l') (λ e1. dec_setting-IsSafe false vt v) (λ e1. is_safe vt v))
