-- ===== src/Vt/Chars.antt =====
-- A character that is shown keeps the state valid.
use protura.Base.{
  ℕ, zero, suc, ◌+◌, ◌-◌, ◌%◌, ◌^◌, ◌<◌, ◌==◌, ◌≡◌, Bool, true, false, ◌&&◌, ◌||◌, some, arith,
  Bool-cases, inl, inr, if◌then◌else◌,
}
use native.Mathlib.Nat.{mod-eq_of_lt}
use protura.Vt.Screen.{Cell, put_cell, scroll, shift_right_from_cursor}
use protura.Vt.State.{
  Vt, find_next_set, tab_col, move_to, put_newline, put_at, put_here, last_row, put_char,
  create_cur_color, vt_putchar_nocursor,
}
use protura.Vt.Bounds.{Keeps, put_cell-Keeps, scroll-Keeps, shift_right_from_cursor-Keeps}
use protura.Vt.Valid.{
  IsValid, IsSafe, is_safe, IsSafe-if, IsSafe-on_screen, IsValid-screen, move_to-IsValid,
}

find_next_set-bound :
    (stops : ℕ → Bool) (i n cols : ℕ)
    → ((k : ℕ) → stops k ≡ true → k < cols)
    → 0 < cols
    → tab_col (find_next_set stops i n) cols < cols
unfolding find_next_set
find_next_set-bound stops i zero cols h p = omega (arith, p)
find_next_set-bound stops i (suc n) cols h p = elim (Bool-cases (stops i)) [
  | inl here' ↦ rw here' (h i here')
  | inr later ↦ rw later (find_next_set-bound stops (i + 1) n cols h p)
]

-- The scroll of the whole screen.
scroll_all-Keeps :
    (vt : Vt) → IsValid vt → Keeps vt.screen (scroll vt.scroll_top vt.scroll_bottom 1 vt.screen)
unfolding IsValid
scroll_all-Keeps vt v =
    rw (v.top_zero) (scroll-Keeps vt.scroll_bottom 1 vt.screen (omega (arith, v.bottom_rows)))

put_newline-IsSafe :
    (r c : ℕ) (vt : Vt)
    → IsValid vt
    → r < vt.screen.rows
    → c < vt.screen.cols
    → IsSafe (put_newline r c vt)
unfolding put_newline IsValid
put_newline-IsSafe r c vt v hr hc =
    IsSafe-if (r + 1 == vt.scroll_bottom)
      (λ full.
        IsSafe-on_screen (scroll vt.scroll_top vt.scroll_bottom 1) (λ w. some (move_to r c false w))
          vt (scroll_all-Keeps vt v)
          (λ s rr cc'. is_safe (move_to r c false (record vt { screen = s })) (
            move_to-IsValid r c false (record vt { screen = s }) (IsValid-screen vt s v rr cc')
              (omega (arith, hr, rr)) (omega (arith, hc, cc')))))
      (λ room.
        let below : r + 1 < vt.screen.rows = ground (arith, v.bottom_rows) in
        let byte : (r + 1) % 2 ^ 8 ≡ r + 1 = mod-eq_of_lt (omega (arith, below, v.rows_byte)) in
        is_safe (move_to ((r + 1) % 2 ^ 8) c false vt)
          (move_to-IsValid ((r + 1) % 2 ^ 8) c false vt v (omega (arith, byte, below)) hc))

put_at-IsSafe :
    (r c : ℕ) (w : Bool) (ch : ℕ) (vt : Vt)
    → IsValid vt
    → r < vt.screen.rows
    → c < vt.screen.cols
    → IsSafe (put_at r c w ch vt)
unfolding put_at IsValid
put_at-IsSafe r c w ch vt v hr hc =
    let cell : Cell = record { chr = ch; color = create_cur_color vt } in
    IsSafe-on_screen (put_cell r c cell)
      (λ z.
        some
          (if c + 1 == z.screen.cols then move_to r c true z else move_to r ((c + 1) % 2 ^ 8) w z))
      vt (put_cell-Keeps r c cell vt.screen hr hc)
      (λ s rr cc'.
        let z = record vt { screen = s } in
        let vz = IsValid-screen vt s v rr cc' in
        is_safe (if c + 1 == s.cols then move_to r c true z else move_to r ((c + 1) % 2 ^ 8) w z)
          (elim (Bool-cases (c + 1 == s.cols)) [
            | inl last ↦
                rw last
                  (move_to-IsValid r c true z vz (omega (arith, hr, rr)) (omega (arith, hc, cc')))
            | inr before' ↦
                let next : c + 1 < s.cols = ground (arith, hc, cc') in
                let byte : (c + 1) % 2 ^ 8 ≡ c + 1 =
                  mod-eq_of_lt (omega (arith, next, cc', v.cols_byte)) in
                rw before' (
                  move_to-IsValid r ((c + 1) % 2 ^ 8) w z vz (omega (arith, hr, rr))
                    (omega (arith, next, byte)))
          ]))

put_here-IsSafe :
    (r c : ℕ) (w : Bool) (ch : ℕ) (vt : Vt)
    → IsValid vt
    → r < vt.screen.rows
    → c < vt.screen.cols
    → IsSafe (put_here r c w ch vt)
unfolding put_here IsValid
put_here-IsSafe r c w ch vt v hr hc =
    IsSafe-if vt.insert_mode
      (λ on.
        IsSafe-on_screen (shift_right_from_cursor vt.cur_row vt.cur_col 1) (put_at r c w ch) vt
          (shift_right_from_cursor-Keeps vt.cur_row vt.cur_col 1 vt.screen v.row_bound
            (omega (arith, v.col_bound)))
          (λ s rr cc'.
            put_at-IsSafe r c w ch (record vt { screen = s }) (IsValid-screen vt s v rr cc')
              (omega (arith, hr, rr)) (omega (arith, hc, cc'))))
      (λ off. put_at-IsSafe r c w ch vt v hr hc)

put_char-IsSafe :
    (r c ch : ℕ) (vt : Vt)
    → IsValid vt
    → r < vt.screen.rows
    → c < vt.screen.cols
    → IsSafe (put_char r c ch vt)
unfolding put_char IsValid
put_char-IsSafe r c ch vt v hr hc =
    let byte : (r + 1) % 2 ^ 8 ≡ r + 1 = mod-eq_of_lt (omega (arith, hr, v.rows_byte)) in
    let back : ((r + 1) % 2 ^ 8 + 255) % 2 ^ 8 ≡ r = omega (arith, hr, v.rows_byte) in
    let kept = last_row (((r + 1) % 2 ^ 8 + 255) % 2 ^ 8) vt in
    let same_row : kept ≡ r = ground (arith, hr, back) in
    IsSafe-if (vt.wrap_next && c + 1 == vt.screen.cols && vt.wrap_on)
      (λ wraps.
        IsSafe-if ((r + 1) % 2 ^ 8 == vt.scroll_bottom)
          (λ full.
            IsSafe-on_screen (scroll vt.scroll_top vt.scroll_bottom 1) (put_here kept 0 false ch) vt
              (scroll_all-Keeps vt v)
              (λ s rr cc'.
                put_here-IsSafe kept 0 false ch (record vt { screen = s })
                  (IsValid-screen vt s v rr cc') (omega (arith, same_row, hr, rr))
                  (omega (arith, v.cols_some, cc'))))
          (λ room.
            let below : r + 1 < vt.screen.rows = ground (arith, v.bottom_rows, hr, byte) in
            put_here-IsSafe (last_row ((r + 1) % 2 ^ 8) vt) 0 false ch vt v
              (ground (arith, below, byte)) v.cols_some))
      (λ stays. put_here-IsSafe r c vt.wrap_next ch vt v hr hc)

-- Whatever the character, it is shown on the screen, and the cursor stays there.
pub vt_putchar_nocursor-IsSafe :
    (ch : ℕ) (vt : Vt) → IsValid vt → IsSafe (vt_putchar_nocursor ch vt)
unfolding vt_putchar_nocursor IsValid
vt_putchar_nocursor-IsSafe ch vt v =
    let r : vt.cur_row % 2 ^ 8 ≡ vt.cur_row =
      mod-eq_of_lt (omega (arith, v.row_bound, v.rows_byte)) in
    let c : vt.cur_col % 2 ^ 8 ≡ vt.cur_col =
      mod-eq_of_lt (omega (arith, v.col_bound, v.cols_byte)) in
    let row : vt.cur_row % 2 ^ 8 < vt.screen.rows = omega (arith, r, v.row_bound) in
    let col : vt.cur_col % 2 ^ 8 < vt.screen.cols = omega (arith, c, v.col_bound) in
    let next =
      find_next_set vt.tab_stops (vt.cur_col % 2 ^ 8 + 1) (2 ^ 8 - (vt.cur_col % 2 ^ 8 + 1)) in
    let tab =
      find_next_set-bound vt.tab_stops (vt.cur_col % 2 ^ 8 + 1) (2 ^ 8 - (vt.cur_col % 2 ^ 8 + 1))
        vt.screen.cols v.tabs_bound v.cols_some in
    IsSafe-if (ch == b'\r')
      (λ e.
        is_safe (move_to (vt.cur_row % 2 ^ 8) 0 false vt)
          (move_to-IsValid (vt.cur_row % 2 ^ 8) 0 false vt v row v.cols_some))
      (λ e.
        IsSafe-if (ch == b'\n' || ch == 11 || ch == 12)
          (λ e'. put_newline-IsSafe (vt.cur_row % 2 ^ 8) (vt.cur_col % 2 ^ 8) vt v row col)
          (λ e'.
            IsSafe-if (ch == b'\t')
              (λ z. is_safe (move_to (vt.cur_row % 2 ^ 8) (tab_col next vt.screen.cols) false vt) (
                move_to-IsValid (vt.cur_row % 2 ^ 8) (tab_col next vt.screen.cols) false vt v row
                  tab))
              (λ z.
                IsSafe-if (ch == 8)
                  (λ y. is_safe (move_to (vt.cur_row % 2 ^ 8) (vt.cur_col % 2 ^ 8 - 1) false vt) (
                    move_to-IsValid (vt.cur_row % 2 ^ 8) (vt.cur_col % 2 ^ 8 - 1) false vt v row
                      (omega (arith, col))))
                  (λ y.
                    put_char-IsSafe (vt.cur_row % 2 ^ 8) (vt.cur_col % 2 ^ 8) ch vt v row col))))
