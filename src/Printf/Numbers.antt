-- ===== src/Printf/Numbers.antt =====
-- Numbers that are printed and read again by `strtol`.
use protura.Base.{
  ℕ, zero, suc, ◌+◌, ◌-◌, ◌*◌, ◌/◌, ◌%◌, ◌^◌, ◌<◌, ◌≤◌, ◌==◌, ltb, leb, ◌≡◌, refl, ap, sym, ◌∙◌,
  Bool, true, false, ◌&&◌, some, List, [], ◌∷◌, length, arith, Bool-cases, inl, inr, if◌then◌else◌,
}
use protura.Base.Word.{u32_mod}
use native.Mathlib.Nat.{
  mod-lt, div-add-mod', mul-add-mod_self_right, div-lt_iff_lt-mul, pow-zero, pow-suc,
}
use protura.Strtol.{hexdigit, digitval, strtol_loop, strtol}
use protura.Printf.Args.{inttohex, digits, pad}
use protura.Printf.Integer.{decimal, display_integer}

hexdigit-inttohex : (d : ℕ) → d < 16 → hexdigit (inttohex false d) ≡ true
hexdigit-inttohex d h = ground arith

digitval-inttohex : (d : ℕ) → d < 16 → digitval (inttohex false d) ≡ d
digitval-inttohex d h = ground arith

strtol_loop-digit :
    (base ret d : ℕ) (s : List ℕ)
    → d < base
    → base ≤ 16
    → strtol_loop base ret (inttohex false d ∷ s) ≡ strtol_loop base ((ret * base + d) % u32_mod) s
unfolding strtol_loop
strtol_loop-digit base ret d s h b =
    let e = hexdigit-inttohex d (omega arith) in
    let e' = digitval-inttohex d (omega arith) in
    let fits : ltb d base ≡ true = ground arith in rw (e, e', fits) refl

next_word_parts :
    (base n : ℕ)
    → n ≡ (n / base / u32_mod * base) * u32_mod + (n / base % u32_mod * base + n % base)
next_word_parts base n =
    let outer = div-add-mod' n base in
    let inner = ap (λ q. q * base) (div-add-mod' (n / base) u32_mod) in omega (arith, outer, inner)

-- The word that a digit makes of the word before it.
next_word : (base n : ℕ) → (n / base % u32_mod * base + n % base) % u32_mod ≡ n % u32_mod
next_word base n =
    let parts : n ≡ (n / base / u32_mod * base) * u32_mod + (n / base % u32_mod * base + n % base) =
      next_word_parts base n in
    sym (
      mul-add-mod_self_right (n / base / u32_mod * base) u32_mod
        (n / base % u32_mod * base + n % base))
    ∙ ap (λ k. k % u32_mod) (sym parts)

pub strtol_loop-digits :
    (base fuel n : ℕ) (buf : List ℕ)
    → 0 < base
    → base ≤ 16
    → n < base ^ fuel
    → strtol_loop base 0 (digits base (inttohex false) fuel n buf)
      ≡ strtol_loop base (n % u32_mod) buf
unfolding digits
strtol_loop-digits base zero n buf p b h =
    ap (λ r. strtol_loop base r buf) (omega (arith, pow-zero base))
strtol_loop-digits base (suc fuel) n buf p b h = elim (Bool-cases (n == 0)) [
  | inl none' ↦ let e : n ≡ 0 = ground arith in rw (none', e) refl
  | inr some' ↦
      let less = (div-lt_iff_lt-mul p).1 (rw (pow-suc base fuel) at h) in
      let first = mod-lt n p in
      rw some' (
        strtol_loop-digits base fuel (n / base) (inttohex false (n % base) ∷ buf) p b less
        ∙ strtol_loop-digit base (n / base % u32_mod) (n % base) buf first b
        ∙ ap (λ r. strtol_loop base r buf) (next_word base n))
]

pub strtol_loop-pad :
    (base n : ℕ) (buf : List ℕ)
    → 0 < base
    → base ≤ 16
    → strtol_loop base 0 (pad b'0' n buf) ≡ strtol_loop base 0 buf
unfolding pad
strtol_loop-pad base zero buf p b = refl
strtol_loop-pad base (suc n) buf p b =
    strtol_loop-pad base n (b'0' ∷ buf) p b
    ∙ strtol_loop-digit base 0 0 buf p b
    ∙ ap (λ r. strtol_loop base r buf) (omega arith)

pub length-pad : (c n : ℕ) (buf : List ℕ) → length (pad c n buf) ≡ n + length buf
unfolding pad
length-pad c zero buf = omega arith
length-pad c (suc n) buf = omega (arith, length-pad c n (c ∷ buf))

length-digits :
    (base fuel n : ℕ) (show : ℕ → ℕ) (buf : List ℕ)
    → length (digits base show fuel n buf) ≤ fuel + length buf
unfolding digits
length-digits base zero n show buf = omega arith
length-digits base (suc fuel) n show buf =
    ground (arith, length-digits base fuel (n / base) show (show (n % base) ∷ buf))

length-decimal : (n : ℕ) → length (decimal n) ≤ 20
length-decimal n = ground (arith, length-digits 10 20 n (inttohex false) [])

pub strtol_loop-nil : (base ret : ℕ) → strtol_loop base ret [] ≡ (ret, [])
unfolding strtol_loop
strtol_loop-nil base ret = refl

strtol_loop-decimal : (n : ℕ) → n < 2 ^ 64 → strtol_loop 10 0 (decimal n) ≡ (n % u32_mod, [])
strtol_loop-decimal n h = elim (Bool-cases (n == 0)) [
  | inl none' ↦ rw none' (
      strtol_loop-digit 10 0 0 [] (omega arith) (omega arith)
      ∙ strtol_loop-nil 10 0
      ∙ ap (λ (r : ℕ). (r, [])) (ground arith))
  | inr some' ↦ rw some' (
      strtol_loop-digits 10 20 n [] (omega arith) (omega arith) (omega arith)
      ∙ strtol_loop-nil 10 (n % u32_mod))
]

-- A number as `display_integer` pads it.
abbrev pub padded : ℕ → ℕ → Bool → Bool → List ℕ
padded orig width zero_pad force_width =
    if force_width && zero_pad
    then pad b'0' (width - length (decimal orig)) (decimal orig)
    else decimal orig

pub strtol-padded :
    (n width : ℕ) (zero_pad force_width : Bool)
    → n < 2 ^ 64
    → strtol (padded n width zero_pad force_width) 10 ≡ (n % u32_mod, [])
unfolding strtol
strtol-padded n width zero_pad force_width h = elim (Bool-cases (force_width && zero_pad)) [
  | inl both ↦ rw both (
      strtol_loop-pad 10 (width - length (decimal n)) (decimal n) (omega arith) (omega arith)
      ∙ strtol_loop-decimal n h)
  | inr not_both ↦ rw not_both (strtol_loop-decimal n h)
]

length-padded :
    (n width : ℕ) (zero_pad force_width : Bool)
    → width ≤ 24
    → length (padded n width zero_pad force_width) ≤ 24
length-padded n width zero_pad force_width h = elim (Bool-cases (force_width && zero_pad)) [
  | inl both ↦
      rw both
        (omega (arith, length-decimal n, length-pad b'0' (width - length (decimal n)) (decimal n)))
  | inr not_both ↦ rw not_both (omega (arith, length-decimal n))
]

abbrev pub with_sign : Bool → List ℕ → List ℕ
with_sign is_neg s = if is_neg then b'-' ∷ s else s

pub display_integer_fits :
    (n width : ℕ) (zero_pad force_width is_neg : Bool)
    → width ≤ 24
    → display_integer n width zero_pad force_width is_neg
      ≡ some (with_sign is_neg (padded n width zero_pad force_width))
unfolding display_integer
display_integer_fits n width zero_pad force_width true h =
    let e : leb (suc (length (padded n width zero_pad force_width))) 25 ≡ true =
      ground (arith, length-padded n width zero_pad force_width h) in
    rw e refl
display_integer_fits n width zero_pad force_width false h =
    let e : leb (length (padded n width zero_pad force_width)) 25 ≡ true =
      ground (arith, length-padded n width zero_pad force_width h) in
    rw e refl
