-- ===== src/Printf/Examples.antt =====
-- Formats and what they print.
use protura.Base.{◌>>=◌, ◌≡◌, refl, true, false, none, some, [], ◌∷◌, ◌++◌, arith}
use protura.Printf.{read_char, read_end, read_format, write_escape, basic_printfv}
use protura.Printf.Args.{word, text, take_word, take_text, digits, pad}
use protura.Printf.Integer.{read_flags, take_integer, display_integer, escape_integer}
use protura.Printf.Hex.{read_width, show_hex, escape_hex}
use protura.Printf.Text.{read_widths, shown, escape_string}
use protura.Printf.RoundTrips.{Prints, strtol-escape_integer}
use protura.Printf.Formats.{prepend, basic_printfv-append}

-- "a%05u." with 31
padded_number :
    basic_printfv (b'a' ∷ b'%' ∷ b'0' ∷ b'5' ∷ b'u' ∷ b'.' ∷ []) (word 31 ∷ [])
    ≡ some (b'a' ∷ b'0' ∷ b'0' ∷ b'0' ∷ b'3' ∷ b'1' ∷ b'.' ∷ [], [])
unfolding basic_printfv read_format read_char read_end write_escape escape_integer read_flags
    take_integer take_word display_integer digits pad
padded_number = refl

-- "%010u": the zero does not count as a digit of the width.
width_with_zero :
    escape_integer (b'0' ∷ b'1' ∷ b'0' ∷ []) b'u' (word 31 ∷ []) ≡ some (b'3' ∷ b'1' ∷ [], [])
unfolding escape_integer read_flags take_integer take_word display_integer digits pad
width_with_zero = refl

-- "%2x" with 0
hex_of_zero : escape_hex (b'2' ∷ []) b'x' (word 0 ∷ []) ≡ some (b' ' ∷ b' ' ∷ [], [])
unfolding escape_hex read_width take_word show_hex digits pad
hex_of_zero = refl

-- "%4.2s" with NULL: the width is cut to the largest width.
null_text_cut :
    escape_string (b'4' ∷ b'.' ∷ b'2' ∷ []) (text none ∷ []) ≡ some (b'(' ∷ b'n' ∷ [], [])
unfolding escape_string read_widths protura.Printf.Text.read_width take_text shown
null_text_cut = refl

basic_printfv-append_example :
    basic_printfv
      ((b'a' ∷ []) ++ (b'%' ∷ ((b'0' ∷ b'5' ∷ []) ++ (b'u' ∷ b'.' ∷ []))))
      (word 31 ∷ [])
    ≡ prepend (b'a' ∷ []) (
        write_escape (b'0' ∷ b'5' ∷ []) b'u' (word 31 ∷ []) >>= λ r.
        prepend r.0 (basic_printfv (b'.' ∷ []) r.1))
basic_printfv-append_example =
    basic_printfv-append (b'a' ∷ []) (b'0' ∷ b'5' ∷ []) (b'.' ∷ []) b'u' (word 31 ∷ []) (refl, tt)
      (refl, (refl, tt)) refl

strtol-escape_integer_example :
    Prints (b'0' ∷ b'5' ∷ []) b'u' 4294967255 [] false 4294967255
    × Prints (b'0' ∷ b'5' ∷ []) b'd' 4294967255 [] true 41
unfolding read_flags
strtol-escape_integer_example =
    strtol-escape_integer (b'0' ∷ b'5' ∷ []) 4294967255 [] (omega arith) (omega arith)
      (ground arith)
