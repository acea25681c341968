-- ===== src/Printf/Integer.antt =====
-- `display_integer` and `escape_integer`: the formats d and u.
use protura.Base.{
  ℕ, ◌>>=◌, ◌+◌, ◌-◌, ◌*◌, ◌%◌, ◌^◌, ◌==◌, leb, Bool, true, false, ◌&&◌, not, Option, some, List,
  [], ◌∷◌, length, if◌then◌else◌,
}
use protura.Base.Word.{u32_mod}
use protura.Printf.Args.{Arg, take_word, take_long, inttohex, digits, pad, inside, is_nonzero_digit}

-- The digits of `orig`, which has 64 bits, so at most 20 of them.
abbrev pub decimal : ℕ → List ℕ
decimal orig = if orig == 0 then b'0' ∷ [] else digits 10 (inttohex false) 20 orig []

unfoldable pub display_integer : ℕ → ℕ → Bool → Bool → Bool → Option (List ℕ)
display_integer orig width zero_pad force_width is_neg =
    let number = decimal orig in
    let padded =
      if force_width && zero_pad then pad b'0' (width - length number) number else number in
    inside 25 (if is_neg then b'-' ∷ padded else padded)

-- What the loop over the code finds.
pub record Flags : Type 0 where
  pub width : ℕ
  pub zero_pad : Bool
  pub force_width : ℕ
  pub l_count : ℕ

abbrev pub no_flags : Flags
no_flags = record { width = 0; zero_pad = false; force_width = 0; l_count = 0 }

abbrev pub read_flag : ℕ → Flags → Flags
read_flag c f =
    if c == b'0'
    then (if f.force_width == 0
        then record f { zero_pad = true }
        else record f { force_width = f.force_width * 10 % u32_mod })
    else if is_nonzero_digit c
    then record f { width = (f.width * 10 + (c - b'0')) % u32_mod; force_width = 1 }
    else if c == b'l'
    then record f { l_count = f.l_count + 1 }
    else f

unfoldable pub read_flags : List ℕ → Flags → Flags
read_flags [] f = f
read_flags (c ∷ code) f = read_flags code (read_flag c f)

-- The magnitude and the sign of an argument of `bits` bits.
abbrev pub signed : ℕ → ℕ × List Arg → (ℕ × Bool) × List Arg
signed bits (v, args) =
    if leb (2 ^ (bits - 1)) v then ((2 ^ bits - v, true), args) else ((v, false), args)

abbrev pub unsigned : ℕ × List Arg → (ℕ × Bool) × List Arg
unsigned (v, args) = ((v, false), args)

-- The argument that a conversion takes.
unfoldable pub take_integer : ℕ → ℕ → List Arg → Option ((ℕ × Bool) × List Arg)
take_integer conversion l_count args =
    if conversion == b'd'
    then (if l_count == 2
        then (take_long args >>= λ r. some (signed 64 r))
        else (take_word args >>= λ r. some (signed 32 r)))
    else (if l_count == 2
        then (take_long args >>= λ r. some (unsigned r))
        else (take_word args >>= λ r. some (unsigned r)))

-- The code is its last character, the conversion, and those before it.
unfoldable pub escape_integer : List ℕ → ℕ → List Arg → Option (List ℕ × List Arg)
escape_integer code conversion args =
    let f = read_flags code no_flags in
    take_integer conversion f.l_count args >>= λ r.
    display_integer r.0.0 f.width f.zero_pad (not (f.force_width == 0)) r.0.1 >>= λ out.
    some (out, r.1)
