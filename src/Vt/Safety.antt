-- ===== src/Vt/Safety.antt =====
-- Every character keeps the state valid, but for those that a test tells.
use protura.Base.{
  ℕ, ◌>>=◌, ◌+◌, ◌-◌, ◌*◌, ◌^◌, ◌<◌, ◌==◌, ltb, leb, ◌≡◌, refl, Bool, true, false, not, ◌&&◌, ◌||◌,
  Option, none, some, List, [], ◌∷◌, arith, if◌then◌else◌,
}
use protura.Vt.{
  vt_param_max, default_tab_stops, reset_state, vt_reset, add_param_digit, to_begin, end_lbracket,
  state_lbracket, state_numbersign, start_params, after_esc, state_esc, in_state, is_control,
  vt_process_char, vt_write,
}
use protura.Vt.Screen.{clear, fill_rows}
use protura.Vt.State.{VtState, begin, esc, lbracket, numbersign, openparen, closeparen, Vt}
use protura.Vt.Cursor.{save_cursor, restore_cursor}
use protura.Vt.Bounds.{fill_rows-Keeps}
use protura.Vt.Valid.{IsValid, IsSafe, is_safe, IsSafe-then, IsSafe-if, IsSafe-screen}
use protura.Vt.Chars.{vt_putchar_nocursor-IsSafe}
use protura.Vt.Commands.{set_cursor-IsValid, reverse_linefeed-IsSafe}
use protura.Vt.Sequences.{
  tabs-IsValid, params-IsValid, run_command-IsSafe, run_dec_private-IsSafe, clear-Keeps,
}

-- In a sequence: a plain character, no scrolling region, few parameters, and no great one. After ESC: no
-- reset, unless its tab stops are on the screen.
unfoldable pub is_harmless_in : VtState → ℕ → Vt → Bool
is_harmless_in begin ch vt = true
is_harmless_in esc ch vt = not (ch == b'c') || ltb 80 vt.screen.cols
is_harmless_in lbracket ch vt =
    ltb ch 128
    && not (ch == b'r')
    && leb vt.esc_param_count 8
    && ltb (vt.esc_params vt.esc_param_count * 10 + 265) (2 ^ 31)
is_harmless_in numbersign ch vt = true
is_harmless_in openparen ch vt = true
is_harmless_in closeparen ch vt = true

abbrev pub is_harmless : ℕ → Vt → Bool
is_harmless ch vt = is_harmless_in vt.state ch vt

default_tabs-bound : (cols i : ℕ) → 80 < cols → default_tab_stops i ≡ true → i < cols
default_tabs-bound cols i h e = ground arith

vt_reset-IsSafe : (vt : Vt) → IsValid vt → 80 < vt.screen.cols → IsSafe (vt_reset vt)
unfolding vt_reset IsValid
vt_reset-IsSafe vt v h =
    IsSafe-screen clear (reset_state vt)
      (record {
        rows_some = v.rows_some;
        cols_some = v.cols_some;
        rows_byte = v.rows_byte;
        cols_byte = v.cols_byte;
        row_bound = v.rows_some;
        col_bound = v.cols_some;
        top_zero = refl;
        bottom_rows = refl;
        tabs_bound = λ i. default_tabs-bound vt.screen.cols i h;
        count_bound = v.count_bound;
        params_bound = v.params_bound;
      })
      (clear-Keeps vt.screen)

add_param_digit-IsSafe :
    (d : ℕ) (vt : Vt)
    → IsValid vt
    → d < 10
    → vt.esc_param_count < 10
    → vt.esc_params vt.esc_param_count * 10 + 265 < 2 ^ 31
    → IsSafe (add_param_digit d vt)
unfolding add_param_digit IsValid
add_param_digit-IsSafe d vt v h c p =
    let n = vt.esc_params vt.esc_param_count * 10 + d in
    let e : ltb vt.esc_param_count vt_param_max && ltb n (2 ^ 31) ≡ true = ground arith in
    let params = λ (i : ℕ). if i == vt.esc_param_count then n else vt.esc_params i in
    rw e (
      is_safe (record vt { esc_params = params })
        (params-IsValid vt.esc_param_count params vt v v.count_bound
          (λ i. ground (arith, v.params_bound i))))

end_lbracket-IsSafe :
    (ch : ℕ) (vt : Vt)
    → IsValid vt
    → ch < 128
    → (ch == b'r') ≡ false
    → vt.esc_param_count < 10
    → IsSafe (end_lbracket ch vt)
unfolding end_lbracket IsValid
end_lbracket-IsSafe ch vt v a r c =
    let z = record vt { esc_param_count = vt.esc_param_count + 1 } in
    let vz =
      params-IsValid (vt.esc_param_count + 1) vt.esc_params vt v (omega (arith, c))
        v.params_bound in
    let plain : leb 128 ch ≡ false = ground arith in
    rw plain (
      IsSafe-then
        (IsSafe-if vt.dec_private (λ e. run_dec_private-IsSafe ch z vz)
          (λ e. run_command-IsSafe ch z vz r))
        (λ w vw. is_safe (record w { state = begin; dec_private = false }) vw))

state_lbracket-IsSafe :
    (ch : ℕ) (vt : Vt)
    → IsValid vt
    → is_harmless_in lbracket ch vt ≡ true
    → IsSafe (state_lbracket ch vt)
unfolding state_lbracket is_harmless_in IsValid
state_lbracket-IsSafe ch vt v h =
    IsSafe-if (leb b'0' ch && leb ch b'9')
      (λ digit.
        add_param_digit-IsSafe (ch - b'0') vt v (ground arith) (ground arith) (ground arith))
      (λ e.
        IsSafe-if (ch == b';')
          (λ e1.
            is_safe (record vt { esc_param_count = vt.esc_param_count + 1 })
              (params-IsValid (vt.esc_param_count + 1) vt.esc_params vt v (ground arith)
                v.params_bound))
          (λ e1.
            IsSafe-if (ch == b'?') (λ e2. is_safe (record vt { dec_private = true }) v)
              (λ e2. end_lbracket-IsSafe ch vt v (ground arith) (ground arith) (ground arith))))

start_params-IsValid : (st : VtState) (vt : Vt) → IsValid vt → IsValid (start_params st vt)
unfolding IsValid
start_params-IsValid st vt v =
    params-IsValid 0 (λ i. 0) (record vt { state = st }) v (omega arith) (λ i. omega arith)

to_begin-IsSafe : (w : Vt) → IsValid w → IsSafe (some (to_begin w))
unfolding IsValid
to_begin-IsSafe w v = is_safe (to_begin w) v

restored-IsValid : (vt : Vt) → IsValid vt → IsValid (restore_cursor vt)
unfolding IsValid
restored-IsValid vt v =
    set_cursor-IsValid vt.saved_cur_row vt.saved_cur_col
      (record vt {
        saved_fg_color = vt.fg_color;
        saved_bg_color = vt.bg_color;
        cur_attrs = vt.saved_cur_attrs;
      })
      v

-- The characters after ESC that change little.
after_esc-IsSafe : (ch : ℕ) (vt : Vt) → IsValid vt → IsSafe (after_esc ch vt)
unfolding after_esc IsValid
after_esc-IsSafe ch vt v =
    IsSafe-if (ch == b'H')
      (λ e.
        to_begin-IsSafe
          (record vt { tab_stops = λ i. if i == vt.cur_col then true else vt.tab_stops i })
          (tabs-IsValid (λ i. if i == vt.cur_col then true else vt.tab_stops i) vt v
            (λ i z. ground (arith, v.tabs_bound i, v.col_bound))))
      (λ e.
        IsSafe-if (ch == b'#')
          (λ e1. is_safe (start_params numbersign vt) (start_params-IsValid numbersign vt v))
          (λ e1.
            IsSafe-if (ch == b'(') (λ e2. is_safe (record vt { state = openparen }) v)
              (λ e2.
                IsSafe-if (ch == b')') (λ e3. is_safe (record vt { state = closeparen }) v)
                  (λ e3. to_begin-IsSafe vt v))))

-- After ESC.
state_esc-IsSafe :
    (ch : ℕ) (vt : Vt) → IsValid vt → is_harmless_in esc ch vt ≡ true → IsSafe (state_esc ch vt)
unfolding state_esc is_harmless_in IsValid
state_esc-IsSafe ch vt v h =
    IsSafe-if (ch == b'[')
      (λ e. is_safe (start_params lbracket vt) (start_params-IsValid lbracket vt v))
      (λ e.
        IsSafe-if (ch == b'M') (λ e1. IsSafe-then (reverse_linefeed-IsSafe vt v) to_begin-IsSafe)
          (λ e1.
            IsSafe-if (ch == b'D')
              (λ e2. IsSafe-then (vt_putchar_nocursor-IsSafe b'\n' vt v) to_begin-IsSafe)
              (λ e2.
                IsSafe-if (ch == b'E')
                  (λ e3.
                    IsSafe-then
                      (IsSafe-then (vt_putchar_nocursor-IsSafe b'\r' vt v)
                        (vt_putchar_nocursor-IsSafe b'\n'))
                      to_begin-IsSafe)
                  (λ e3.
                    IsSafe-if (ch == b'7') (λ e4. is_safe (to_begin (save_cursor vt)) v)
                      (λ e4.
                        IsSafe-if (ch == b'8')
                          (λ e5. to_begin-IsSafe (restore_cursor vt) (restored-IsValid vt v))
                          (λ e5.
                            IsSafe-if (ch == b'c')
                              (λ e6.
                                IsSafe-then (vt_reset-IsSafe vt v (ground arith)) to_begin-IsSafe)
                              (λ e6. after_esc-IsSafe ch vt v)))))))

-- The character is processed as in each state.
in_state-IsSafe :
    (st : VtState) (ch : ℕ) (vt : Vt)
    → IsValid vt
    → is_harmless_in st ch vt ≡ true
    → IsSafe (in_state st ch vt)
unfolding in_state state_numbersign IsValid
in_state-IsSafe begin ch vt v h = vt_putchar_nocursor-IsSafe ch vt v
in_state-IsSafe esc ch vt v h = state_esc-IsSafe ch vt v h
in_state-IsSafe lbracket ch vt v h = state_lbracket-IsSafe ch vt v h
in_state-IsSafe numbersign ch vt v h =
    IsSafe-if (ch == b'8')
      (λ e.
        IsSafe-screen (λ s. fill_rows 0 s.rows (record { chr = b'E'; color = 7 }) s) vt v
          (fill_rows-Keeps 0 vt.screen.rows (record { chr = b'E'; color = 7 }) vt.screen
            (omega arith)))
      (λ e. to_begin-IsSafe vt v)
in_state-IsSafe openparen ch vt v h = to_begin-IsSafe vt v
in_state-IsSafe closeparen ch vt v h = to_begin-IsSafe vt v

pub vt_process_char-IsSafe :
    (ch : ℕ) (vt : Vt) → IsValid vt → is_harmless ch vt ≡ true → IsSafe (vt_process_char ch vt)
unfolding vt_process_char IsValid
vt_process_char-IsSafe ch vt v h =
    IsSafe-if (ch == 0) (λ e. is_safe vt v)
      (λ e.
        IsSafe-if (is_control ch) (λ e1. vt_putchar_nocursor-IsSafe ch vt v)
          (λ e1.
            IsSafe-if (ch == 7 || ch == 14 || ch == 15) (λ e2. is_safe vt v)
              (λ e2.
                IsSafe-if (ch == 27) (λ e3. is_safe (record vt { state = esc }) v)
                  (λ e3. in_state-IsSafe vt.state ch vt v h))))

abbrev pub holds_then : Option Vt → (Vt → Bool) → Bool
holds_then none test = true
holds_then (some vt) test = test vt

-- The test of every character, in the state that it finds.
unfoldable pub are_harmless : List ℕ → Vt → Bool
are_harmless [] vt = true
are_harmless (ch ∷ buf) vt =
    is_harmless ch vt && holds_then (vt_process_char ch vt) (are_harmless buf)

write_rest-IsSafe :
    (buf : List ℕ) (o : Option Vt)
    → ((vt : Vt) → IsValid vt → are_harmless buf vt ≡ true → IsSafe (vt_write buf vt))
    → IsSafe o
    → holds_then o (are_harmless buf) ≡ true
    → IsSafe (o >>= vt_write buf)
write_rest-IsSafe buf _ rest (is_safe vt v) h = rest vt v h

-- On a screen of 1 to 255 rows and 1 to 256 columns, with the cursor and the tab stops on it, no
-- scrolling region, and at most 10 parameters, each of which stays below 2^31 when 256 is added: a
-- text whose characters the test finds harmless is written without any access outside of the
-- screen, of the parameters or of the tables, and without overflow, and the terminal is left in
-- such a state.
pub vt_write-IsSafe :
    (buf : List ℕ) (vt : Vt) → IsValid vt → are_harmless buf vt ≡ true → IsSafe (vt_write buf vt)
unfolding vt_write are_harmless
vt_write-IsSafe [] vt v h = is_safe vt v
vt_write-IsSafe (ch ∷ buf) vt v h =
    let first : is_harmless ch vt ≡ true = ground arith in
    let rest : holds_then (vt_process_char ch vt) (are_harmless buf) ≡ true = ground arith in
    write_rest-IsSafe buf (vt_process_char ch vt) (vt_write-IsSafe buf)
      (vt_process_char-IsSafe ch vt v first) rest
