-- ===== src/Vt/Valid.antt =====
-- What keeps the cursor on the screen, without a scrolling region.
use protura.Base.{
  ℕ, ◌>>=◌, ◌+◌, ◌^◌, ◌≤◌, ◌<◌, ◌≡◌, refl, Bool, true, false, Option, some, if◌then◌else◌,
}
use protura.Vt.Screen.{Screen}
use protura.Vt.State.{Vt, on_screen, move_to}
use protura.Vt.Bounds.{Keeps, keeps}

-- The cursor and every tab stop are on the screen, the region is all of it, and the parameters are in
-- their array and leave room for a move.
pub record IsBounded (rows cols row col top bottom : ℕ) (tabs : ℕ → Bool) (count : ℕ)
    (params : ℕ → ℕ) : Type 0 where
  pub rows_some : 0 < rows
  pub cols_some : 0 < cols
  pub rows_byte : rows ≤ 255
  pub cols_byte : cols ≤ 256
  pub row_bound : row < rows
  pub col_bound : col < cols
  pub top_zero : top ≡ 0
  pub bottom_rows : bottom ≡ rows
  pub tabs_bound : (i : ℕ) → tabs i ≡ true → i < cols
  pub count_bound : count ≤ 10
  pub params_bound : (i : ℕ) → params i + 256 < 2 ^ 31

unfoldable pub IsValid : Vt → Type 0
IsValid vt =
    IsBounded vt.screen.rows vt.screen.cols vt.cur_row vt.cur_col vt.scroll_top vt.scroll_bottom
      vt.tab_stops vt.esc_param_count vt.esc_params

-- A result that is a valid state.
pub data IsSafe : Option Vt → Type 0 where
  is_safe : (vt : Vt) → IsValid vt → IsSafe (some vt)

pub IsSafe-then :
    {o : Option Vt} {f : Vt → Option Vt}
    → IsSafe o
    → ((vt : Vt) → IsValid vt → IsSafe (f vt))
    → IsSafe (o >>= f)
IsSafe-then (is_safe vt v) h = h vt v

pub IsSafe-if :
    (b : Bool) {x y : Option Vt}
    → (b ≡ true → IsSafe x)
    → (b ≡ false → IsSafe y)
    → IsSafe (if b then x else y)
IsSafe-if true h h' = h refl
IsSafe-if false h h' = h' refl

pub IsValid-if : (b : Bool) (x y : Vt) → IsValid x → IsValid y → IsValid (if b then x else y)
IsValid-if true x y h h' = h
IsValid-if false x y h h' = h'

-- A change of the screen, and what follows on a screen of the same size.
pub IsSafe-on_screen :
    (f : Screen → Option Screen) (g : Vt → Option Vt) (vt : Vt)
    → Keeps vt.screen (f vt.screen)
    → ((s : Screen)
        → s.rows ≡ vt.screen.rows
        → s.cols ≡ vt.screen.cols
        → IsSafe (g (record vt { screen = s })))
    → IsSafe (on_screen f vt >>= g)
IsSafe-on_screen f g vt k h = on_kept (f vt.screen) k h
  where
    on_kept :
        (o : Option Screen)
        → Keeps vt.screen o
        → ((s : Screen)
            → s.rows ≡ vt.screen.rows
            → s.cols ≡ vt.screen.cols
            → IsSafe (g (record vt { screen = s })))
        → IsSafe ((o >>= λ s. some (record vt { screen = s })) >>= g)
    on_kept _ (keeps s r c) h = h s r c

pub IsValid-screen :
    (vt : Vt) (s : Screen)
    → IsValid vt
    → s.rows ≡ vt.screen.rows
    → s.cols ≡ vt.screen.cols
    → IsValid (record vt { screen = s })
unfolding IsValid
IsValid-screen vt s v r c = rw (r, c) v

pub IsSafe-screen :
    (f : Screen → Option Screen) (vt : Vt)
    → IsValid vt
    → Keeps vt.screen (f vt.screen)
    → IsSafe (on_screen f vt)
IsSafe-screen f vt v k = on_kept (f vt.screen) k
  where
    on_kept :
        (o : Option Screen)
        → Keeps vt.screen o
        → IsSafe (o >>= λ s. some (record vt { screen = s }))
    on_kept _ (keeps s r c) = is_safe (record vt { screen = s }) (IsValid-screen vt s v r c)

pub move_to-IsValid :
    (r c : ℕ) (w : Bool) (vt : Vt)
    → IsValid vt
    → r < vt.screen.rows
    → c < vt.screen.cols
    → IsValid (move_to r c w vt)
unfolding IsValid
move_to-IsValid r c w vt v hr hc = record {
  rows_some = v.rows_some;
  cols_some = v.cols_some;
  rows_byte = v.rows_byte;
  cols_byte = v.cols_byte;
  row_bound = hr;
  col_bound = hc;
  top_zero = v.top_zero;
  bottom_rows = v.bottom_rows;
  tabs_bound = v.tabs_bound;
  count_bound = v.count_bound;
  params_bound = v.params_bound;
}
