-- ===== src/Printf.antt =====
-- src/kernel/str/basic_printf.c: the formatted output. A string is the list of its characters, and
-- the output that of the characters given to the backbone.
pub mod Args
pub mod Integer
pub mod Hex
pub mod Text
pub mod Numbers
pub mod RoundTrips
pub mod Formats
mod Examples
use protura.Base.{
  ℕ, ◌>>=◌, ◌==◌, Bool, ◌||◌, Option, none, some, List, [], ◌∷◌, ◌++◌, if◌then◌else◌,
}
use protura.Printf.Args.{Arg}
use protura.Printf.Integer.{escape_integer}
use protura.Printf.Hex.{escape_hex}
use protura.Printf.Text.{escape_string, escape_char}

-- The characters of `escape_codes`.
abbrev pub is_escape : ℕ → Bool
is_escape c =
    c == b'x'
    || c == b'X'
    || c == b'p'
    || c == b'P'
    || c == b'd'
    || c == b'u'
    || c == b's'
    || c == b'c'

-- `es->write`; the code is its last character and those before it.
unfoldable pub write_escape : List ℕ → ℕ → List Arg → Option (List ℕ × List Arg)
write_escape code c args =
    if c == b'd' || c == b'u'
    then escape_integer code c args
    else if c == b's'
    then escape_string code args
    else if c == b'c'
    then escape_char args
    else escape_hex code c args

-- Where the loop of `basic_printfv` is: in characters that stand for themselves, of which those from
-- `last_c` on are not yet written, or in `handle_escape`, past some characters of the code.
pub data Mode : Type 0 where
  plain : List ℕ → Mode
  escape : List ℕ → Mode

-- A character of the format: what is written, and where the loop goes on.
unfoldable pub read_char : Mode → ℕ → List Arg → Option (List ℕ × Mode × List Arg)
read_char (plain last_c) c args =
    if c == b'%'
    then some (last_c, escape [], args)
    else some ([], plain (last_c ++ (c ∷ [])), args)
read_char (escape code) c args =
    if is_escape c
    then (write_escape code c args >>= λ r. some (r.0, plain [], r.1))
    else some ([], escape (code ++ (c ∷ [])), args)

unfoldable pub read_end : Mode → List ℕ
read_end (plain last_c) = last_c
read_end (escape code) = []

unfoldable pub read_format : Mode → List ℕ → List Arg → Option (List ℕ × List Arg)
read_format mode [] args = some (read_end mode, args)
read_format mode (c ∷ s) args =
    read_char mode c args >>= λ r. read_format r.1 s r.2 >>= λ rest. some (r.0 ++ rest.0, rest.1)

unfoldable pub basic_printfv : List ℕ → List Arg → Option (List ℕ × List Arg)
basic_printfv s args = read_format (plain []) s args
