-- ===== src/Printf/Text.antt =====
-- `escape_string` and `escape_char`: the formats s and c.
use protura.Base.{
  ℕ, ◌>>=◌, ◌+◌, ◌-◌, ◌*◌, ◌%◌, ◌^◌, ◌==◌, ltb, Bool, true, false, ◌||◌, Option, none, some, List,
  [], ◌∷◌, ◌++◌, length, take, replicate, if◌then◌else◌,
}
use protura.Base.Word.{u32_mod}
use protura.Printf.Args.{Arg, take_word, take_text, is_nonzero_digit, minus_one}

-- "(null)"
abbrev pub null_text : List ℕ
null_text = b'(' ∷ b'n' ∷ b'u' ∷ b'l' ∷ b'l' ∷ b')' ∷ []

-- The widths, and which of them the next digit goes to.
pub record Widths : Type 0 where
  pub width : ℕ
  pub max_width : ℕ
  pub use_max : Bool

abbrev pub no_widths : Widths
no_widths = record { width = minus_one; max_width = minus_one; use_max = false }

abbrev pub use_width : Widths → ℕ
use_width w = if w.use_max then w.max_width else w.width

abbrev pub set_width : ℕ → Widths → Widths
set_width n w = if w.use_max then record w { max_width = n } else record w { width = n }

abbrev pub add_digit : ℕ → ℕ → ℕ
add_digit c n =
    if c == b'0'
    then (if n == minus_one then n else n * 10 % u32_mod)
    else if n == minus_one
    then c - b'0'
    else (n * 10 + (c - b'0')) % u32_mod

-- A character of the code: what it makes of the widths and the arguments, or that it ends them.
unfoldable pub read_width : ℕ → Widths → List Arg → Option (Option (Widths × List Arg))
read_width c w args =
    if c == b'0' || is_nonzero_digit c
    then some (some (set_width (add_digit c (use_width w)) w, args))
    else if c == b'*'
    then (take_word args >>= λ r. some (some (set_width r.0 w, r.1)))
    else if c == b'.'
    then some (some (record w { use_max = true }, args))
    else some none

unfoldable pub read_widths : List ℕ → Widths → List Arg → Option (Widths × List Arg)
read_widths [] w args = some (w, args)
read_widths (c ∷ code) w args = read_width c w args >>= λ r. elim r [
  | none ↦ some (w, args)
  | some next ↦ read_widths code next.0 next.1
]

-- `a > b` of two `int`s
abbrev pub greater : ℕ → ℕ → Bool
greater a b = ltb ((b + 2 ^ 31) % u32_mod) ((a + 2 ^ 31) % u32_mod)

-- How many characters are shown, and how many spaces follow. A comparison with `slen` is unsigned.
unfoldable pub shown : Widths → ℕ → ℕ × ℕ
shown w slen =
    if w.max_width == minus_one
    then (slen, if w.width == minus_one then 0 else w.width - slen)
    else let width = if greater w.width w.max_width then w.max_width else w.width in
      let slen' = if ltb w.max_width slen then w.max_width else slen in
      (slen', if width == minus_one then 0 else width - slen')

abbrev pub show_text : Option (List ℕ) → List ℕ
show_text none = null_text
show_text (some s) = s

unfoldable pub escape_string : List ℕ → List Arg → Option (List ℕ × List Arg)
escape_string code args = read_widths code no_widths args >>= λ r. take_text r.1 >>= λ t.
    let s = show_text t.0 in
    let n = shown r.0 (length s) in some (take n.0 s ++ replicate n.1 b' ', t.1)

unfoldable pub escape_char : List Arg → Option (List ℕ × List Arg)
escape_char args = take_word args >>= λ r. some (r.0 % 2 ^ 8 ∷ [], r.1)
