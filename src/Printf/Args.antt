-- ===== src/Printf/Args.antt =====
-- What the formats of src/kernel/str/basic_printf.c share: the arguments, the digits and the buffers.
-- `none` is undefined behaviour: an argument of another kind, or a write outside of a buffer.
use protura.Base.{
  ℕ, zero, suc, ◌+◌, ◌-◌, ◌/◌, ◌%◌, ◌==◌, ltb, leb, Bool, Option, none, some, List, ◌∷◌, length,
  if◌then◌else◌,
}
use protura.Base.Word.{u32_mod}

-- An argument as the caller passed it: `int`, `long long`, or a string, which may be NULL.
pub data Arg : Type 0 where
  word : ℕ → Arg
  long : ℕ → Arg
  text : Option (List ℕ) → Arg

-- `va_arg`
unfoldable pub take_word : List Arg → Option (ℕ × List Arg)
take_word (word v ∷ args) = some (v, args)
take_word _ = none

unfoldable pub take_long : List Arg → Option (ℕ × List Arg)
take_long (long v ∷ args) = some (v, args)
take_long _ = none

unfoldable pub take_text : List Arg → Option (Option (List ℕ) × List Arg)
take_text (text s ∷ args) = some (s, args)
take_text _ = none

-- `inttohex`
abbrev pub inttohex : Bool → ℕ → ℕ
inttohex caps digit =
    if ltb digit 10 then b'0' + digit else if caps then b'A' + digit - 10 else b'a' + digit - 10

-- The digits of a value before what is in the buffer. The fuel is at least their number.
unfoldable pub digits : ℕ → (ℕ → ℕ) → ℕ → ℕ → List ℕ → List ℕ
digits base show zero val buf = buf
digits base show (suc fuel) val buf =
    if val == 0 then buf else digits base show fuel (val / base) (show (val % base) ∷ buf)

-- A character before what is in the buffer, as often as is asked.
unfoldable pub pad : ℕ → ℕ → List ℕ → List ℕ
pad ch zero buf = buf
pad ch (suc n) buf = pad ch n (ch ∷ buf)

-- The text that was built from the end of a buffer of `size` characters.
abbrev pub inside : ℕ → List ℕ → Option (List ℕ)
inside size buf = if leb (length buf) size then some buf else none

-- Decimal digits in a format.
abbrev pub is_nonzero_digit : ℕ → Bool
is_nonzero_digit c = if leb b'1' c then leb c b'9' else Bool.false

-- The width that no format gives.
abbrev pub minus_one : ℕ
minus_one = u32_mod - 1
