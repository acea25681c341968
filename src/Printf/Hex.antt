-- ===== src/Printf/Hex.antt =====
-- `escape_hex`: the formats x, X, p and P.
use protura.Base.{
  ℕ, ◌>>=◌, ◌+◌, ◌-◌, ◌*◌, ◌%◌, ◌==◌, Bool, true, false, ◌||◌, Option, some, List, [], ◌∷◌, length,
  if◌then◌else◌,
}
use protura.Base.Word.{u32_mod, is_negative32}
use protura.Printf.Args.{
  Arg, take_word, take_long, inttohex, digits, pad, inside, is_nonzero_digit, minus_one,
}

-- The `width`, the `zero_pad` and whether the argument has 8 bytes.
pub record HexFlags : Type 0 where
  pub width : ℕ
  pub zero_pad : Bool
  pub is_long : Bool

abbrev pub no_hex_flags : HexFlags
no_hex_flags = record { width = minus_one; zero_pad = false; is_long = false }

-- After the width: `ll`.
unfoldable pub read_length : List ℕ → Bool
read_length [] = false
read_length (c ∷ []) = false
read_length (c ∷ c' ∷ code) = if c == b'l' then c' == b'l' else false

abbrev pub add_digit : ℕ → HexFlags → HexFlags
add_digit c f =
    if c == b'0'
    then (if f.width == minus_one
        then record f { zero_pad = true }
        else record f { width = f.width * 10 % u32_mod })
    else record f {
      width = if f.width == minus_one then c - b'0' else (f.width * 10 + (c - b'0')) % u32_mod;
    }

unfoldable pub read_width : List ℕ → HexFlags → HexFlags
read_width [] f = f
read_width (c ∷ code) f =
    let rest = read_width code (add_digit c f) in
    if c == b'0' || is_nonzero_digit c then rest else record f { is_long = read_length (c ∷ code) }

abbrev pub non_negative : ℕ → ℕ
non_negative width = if is_negative32 width then 0 else width

-- The digits, then zeros or spaces up to the width, then the prefix.
unfoldable pub show_hex : Bool → Bool → Bool → ℕ → ℕ → List ℕ
show_hex caps ptr zero_pad width val =
    let number = digits 16 (inttohex caps) 16 val [] in
    let padded = pad (if zero_pad then b'0' else b' ') (width - length number) number in
    if ptr then b'0' ∷ b'x' ∷ padded else padded

unfoldable pub escape_hex : List ℕ → ℕ → List Arg → Option (List ℕ × List Arg)
escape_hex code conversion args =
    let f = read_width code no_hex_flags in
    let caps = conversion == b'P' || conversion == b'X' in
    let ptr = conversion == b'P' || conversion == b'p' in
    let width = if f.width == minus_one then (if f.is_long then 16 else 8) else f.width in
    (if f.is_long then take_long args else take_word args) >>= λ r.
    inside 17 (show_hex caps ptr (f.zero_pad || ptr) (non_negative width) r.0) >>= λ out.
    some (out, r.1)
