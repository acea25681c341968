-- ===== src/Printf/RoundTrips.antt =====
-- What the integer and pointer formats print is read again by `strtol`.
use protura.Base.{
  ℕ, zero, suc, ◌+◌, ◌-◌, ◌/◌, ◌%◌, ◌^◌, ◌<◌, ◌≤◌, ◌==◌, leb, ◌≡◌, ◌≢◌, refl, ap, ◌∙◌, Bool, true,
  false, not, none, some, List, [], ◌∷◌, length, arith, Bool-cases, inl, inr, if◌then◌else◌,
}
use protura.Base.Word.{u32_mod, is_negative32}
use native.Mathlib.Nat.{div-lt_iff_lt-mul, mod-eq_of_lt, pow-suc, pow-zero}
use protura.Strtol.{strtol, strtol_loop, find_base, after_zero}
use protura.Printf.Args.{Arg, word, long, take_word, take_long, inttohex, digits, pad}
use protura.Printf.Integer.{read_flags, no_flags, take_integer, escape_integer}
use protura.Printf.Hex.{show_hex, escape_hex, read_width, read_length}
use protura.Printf.Numbers.{
  strtol_loop-digits, strtol_loop-pad, strtol_loop-nil, length-pad, with_sign, padded,
  strtol-padded, display_integer_fits,
}

-- A conversion of the argument `v` prints a number, after a sign if it is to have one.
abbrev pub Prints : List ℕ → ℕ → ℕ → List Arg → Bool → ℕ → Type 0
Prints code conversion v args is_neg magnitude =
    (out : List ℕ) × (escape_integer code conversion (word v ∷ args)
      ≡ some (with_sign is_neg out, args))
    × (strtol out 10 ≡ (magnitude, []))

take_integer_word :
    (v l_count : ℕ) (args : List Arg)
    → l_count ≢ 2
    → (take_integer b'u' l_count (word v ∷ args) ≡ some ((v, false), args))
      × (take_integer b'd' l_count (word v ∷ args)
          ≡ some ((if is_negative32 v then 2 ^ 32 - v else v, is_negative32 v), args))
unfolding take_integer take_word
take_integer_word v l_count args h =
    let e : (l_count == 2) ≡ false = ground arith in
    elim (Bool-cases (is_negative32 v)) [
      | inl neg ↦ rw (e, neg) (refl, refl)
      | inr pos ↦ rw (e, pos) (refl, refl)
    ]

prints_lem :
    (code : List ℕ) (conversion v n : ℕ) (is_neg : Bool) (args : List Arg)
    → n < u32_mod
    → (read_flags code no_flags).width ≤ 24
    → take_integer conversion (read_flags code no_flags).l_count (word v ∷ args)
      ≡ some ((n, is_neg), args)
    → Prints code conversion v args is_neg n
unfolding escape_integer
prints_lem code conversion v n is_neg args h fits taken =
    let f = read_flags code no_flags in
    let forced = not (f.force_width == 0) in
    let shown = display_integer_fits n f.width f.zero_pad forced is_neg fits in
    (
      padded n f.width f.zero_pad forced,
      rw (taken, shown) refl,
      strtol-padded n f.width f.zero_pad forced (omega (arith, h))
          ∙ ap (λ (r : ℕ). (r, [])) (mod-eq_of_lt h),
    )

-- The formats d and u, with any flags but `ll` and a width of at most 24, print every 32-bit argument
-- within their buffer, and what they print after the sign is read by strtol as the argument's
-- magnitude, to the end: as the word itself for u, and as its absolute value for d, with a sign
-- exactly if it is negative.
pub strtol-escape_integer :
    (code : List ℕ) (v : ℕ) (args : List Arg)
    → v < u32_mod
    → (read_flags code no_flags).width ≤ 24
    → (read_flags code no_flags).l_count ≢ 2
    → Prints code b'u' v args false v
      × Prints code b'd' v args (is_negative32 v) (if is_negative32 v then 2 ^ 32 - v else v)
strtol-escape_integer code v args h fits short =
    let taken = take_integer_word v (read_flags code no_flags).l_count args short in
    (
      prints_lem code b'u' v v false args h fits taken.0,
      prints_lem code b'd' v (if is_negative32 v then 2 ^ 32 - v else v) (is_negative32 v) args
          (ground arith) fits taken.1,
    )

length-digits_bound :
    (base fuel m n : ℕ) (show : ℕ → ℕ) (buf : List ℕ)
    → 0 < base
    → n < base ^ m
    → length (digits base show fuel n buf) ≤ m + length buf
unfolding digits
length-digits_bound base zero m n show buf p h = omega arith
length-digits_bound base (suc fuel) zero n show buf p h = ground (arith, pow-zero base)
length-digits_bound base (suc fuel) (suc m) n show buf p h =
    let less = (div-lt_iff_lt-mul p).1 (rw (pow-suc base m) at h) in
    ground (arith, length-digits_bound base fuel m (n / base) show (show (n % base) ∷ buf) p less)

strtol_prefix : (s : List ℕ) → strtol (b'0' ∷ b'x' ∷ s) 0 ≡ strtol_loop 16 0 s
unfolding strtol find_base after_zero
strtol_prefix s = refl

-- A pointer is printed as `0x` and eight digits, and strtol finds its base and reads its value.
pub strtol-escape_hex :
    (v : ℕ) (args : List Arg)
    → v < u32_mod
    → (out : List ℕ) × (escape_hex [] b'p' (word v ∷ args) ≡ some (out, args))
      × (length out ≡ 10)
      × (strtol out 0 ≡ (v, []))
unfolding escape_hex take_word read_width show_hex
strtol-escape_hex v args h =
    let number = digits 16 (inttohex false) 16 v [] in
    let short =
      length-digits_bound 16 16 8 v (inttohex false) [] (omega arith) (omega (arith, h)) in
    let long' = length-pad b'0' (8 - length number) number in
    let e : leb (length (show_hex false true true 8 v)) 17 ≡ true = ground (arith, short, long') in
    (
      show_hex false true true 8 v,
      rw e refl,
      omega (arith, short, long'),
      strtol_prefix (pad b'0' (8 - length number) number)
          ∙ strtol_loop-pad 16 (8 - length number) number (omega arith) (omega arith)
          ∙ strtol_loop-digits 16 16 v [] (omega arith) (omega arith) (omega (arith, h))
          ∙ strtol_loop-nil 16 (v % u32_mod)
          ∙ ap (λ (r : ℕ). (r, [])) (mod-eq_of_lt h),
    )

-- Whatever the value, `%llp` begins one character before the buffer that it prints into.
pub escape_hex_overrun :
    (v : ℕ) (args : List Arg) → escape_hex (b'l' ∷ b'l' ∷ []) b'p' (long v ∷ args) ≡ none
unfolding escape_hex take_long read_width read_length show_hex
escape_hex_overrun v args =
    let number = digits 16 (inttohex false) 16 v [] in
    let e : leb (suc (suc (length (pad b'0' (16 - length number) number)))) 17 ≡ false =
      ground (arith, length-pad b'0' (16 - length number) number) in
    rw e refl
