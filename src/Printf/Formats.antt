-- ===== src/Printf/Formats.antt =====
-- What a format prints is put together from its parts.
use protura.Base.{
  ℕ, ◌>>=◌, ◌==◌, ◌≡◌, refl, ap, ◌∙◌, true, false, Option, none, some, List, [], ◌∷◌, ◌++◌,
  append-nil, append_assoc, All,
}
use protura.Printf.{
  is_escape, write_escape, Mode, plain, escape, read_char, read_format, basic_printfv,
}
use protura.Printf.Args.{Arg}

abbrev pub IsPlain : ℕ → Type 0
IsPlain c = (c == b'%') ≡ false

abbrev pub IsCode : ℕ → Type 0
IsCode c = is_escape c ≡ false

-- What is printed before comes first.
abbrev pub prepend : List ℕ → Option (List ℕ × List Arg) → Option (List ℕ × List Arg)
prepend out r = r >>= λ rest. some (out ++ rest.0, rest.1)

prepend-nil : (r : Option (List ℕ × List Arg)) → prepend [] r ≡ r
prepend-nil none = refl
prepend-nil (some r) = refl

read_format-plain :
    (lit last_c s : List ℕ) (args : List Arg)
    → All IsPlain lit
    → read_format (plain last_c) (lit ++ (b'%' ∷ s)) args
      ≡ prepend (last_c ++ lit) (read_format (escape []) s args)
unfolding read_format read_char
read_format-plain [] last_c s args h = rw (append-nil last_c) refl
read_format-plain (c ∷ lit) last_c s args h = rw h.0 (
    prepend-nil (read_format (plain (last_c ++ (c ∷ []))) (lit ++ (b'%' ∷ s)) args)
    ∙ read_format-plain lit (last_c ++ (c ∷ [])) s args h.1
    ∙ ap (λ l. prepend l (read_format (escape []) s args)) (append_assoc last_c (c ∷ []) lit))

-- After a conversion, the loop is at a new literal.
abbrev back : List ℕ × List Arg → List ℕ × Mode × List Arg
back r = (r.0, plain [], r.1)

abbrev read_rest : List ℕ → List ℕ × Mode × List Arg → Option (List ℕ × List Arg)
read_rest s r = prepend r.0 (read_format r.1 s r.2)

goes_on :
    (m : Option (List ℕ × List Arg)) (s : List ℕ)
    → ((m >>= λ r. some (back r)) >>= read_rest s)
      ≡ (m >>= λ r. prepend r.0 (read_format (plain []) s r.1))
goes_on none s = refl
goes_on (some r) s = refl

read_format-code :
    (code seen s : List ℕ) (c : ℕ) (args : List Arg)
    → All IsCode code
    → is_escape c ≡ true
    → read_format (escape seen) (code ++ (c ∷ s)) args
      ≡ (write_escape (seen ++ code) c args >>= λ r. prepend r.0 (read_format (plain []) s r.1))
unfolding read_format read_char
read_format-code [] seen s c args h e =
    rw (e, append-nil seen) (goes_on (write_escape seen c args) s)
read_format-code (d ∷ code) seen s c args h e = rw h.0 (
    prepend-nil (read_format (escape (seen ++ (d ∷ []))) (code ++ (c ∷ s)) args)
    ∙ read_format-code code (seen ++ (d ∷ [])) s c args h.1 e
    ∙ ap (λ l. write_escape l c args >>= λ r. prepend r.0 (read_format (plain []) s r.1))
        (append_assoc seen (d ∷ []) code))

-- A format of characters without `%`, a `%`, the rest of a code, its conversion, and more, prints
-- those characters, what the conversion makes of the next arguments, and what the rest of the format
-- makes of the arguments that are left; undefined behaviour of a part is that of the whole.
pub basic_printfv-append :
    (lit code s : List ℕ) (c : ℕ) (args : List Arg)
    → All IsPlain lit
    → All IsCode code
    → is_escape c ≡ true
    → basic_printfv (lit ++ (b'%' ∷ (code ++ (c ∷ s)))) args
      ≡ prepend lit (write_escape code c args >>= λ r. prepend r.0 (basic_printfv s r.1))
unfolding basic_printfv
basic_printfv-append lit code s c args plain_lit in_code e =
    read_format-plain lit [] (code ++ (c ∷ s)) args plain_lit
    ∙ ap (prepend lit) (read_format-code code [] s c args in_code e)
