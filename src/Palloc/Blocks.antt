-- ===== src/Palloc/Blocks.antt =====
-- Blocks of 2 ^ k page frames: what a block covers, and how a block and its buddy make up the next
-- larger one.
use native.Mathlib.Nat.{two-pow-succ, div-add-mod, mul-mod_left, mul_assoc, mul-div_cancel}
use native.Mathlib.Numerals.{add-one}
use protura.Base.{
  ℕ, zero, suc, ◌+◌, ◌-◌, ◌*◌, ◌/◌, ◌%◌, ◌^◌, ◌<◌, ◌≡◌, ◌≢◌, ◌&&◌, ltb, leb, sym, ap, ◌⊎◌, inl, inr,
  ℕ_discrete, ◌∙◌, arith, if◌then◌else◌,
}
use protura.Palloc.{get_buddy_pn, clear_bit}

-- Frame `q` lies in the block of `n` frames from `pn` on: 1 or 0.
abbrev pub in_range : ℕ → ℕ → ℕ → ℕ
in_range q pn n = if leb pn q && ltb q (pn + n) then 1 else 0

abbrev pub in_block : ℕ → ℕ → ℕ → ℕ
in_block q pn order = in_range q pn (2 ^ order)

pub double : (order : ℕ) → 2 ^ (order + 1) ≡ 2 * 2 ^ order
double order = rw add-one (two-pow-succ order ∙ omega arith)

pub aligned_multiple : (pn order : ℕ) → pn % 2 ^ order ≡ 0 → pn ≡ pn / 2 ^ order * 2 ^ order
aligned_multiple pn order h = omega (arith, div-add-mod pn (2 ^ order))

-- The two halves of a range.
halves : (q b n : ℕ) → in_range q b n + in_range q (b + n) n ≡ in_range q b (2 * n)
halves q b n = ground arith

split_multiple : (m n : ℕ) → m * n ≡ m / 2 * (2 * n) + m % 2 * n
split_multiple m n =
    let e : m ≡ 2 * (m / 2) + m % 2 = omega arith in omega (arith, ap (λ (t : ℕ). t * n) e)

-- An aligned page is an even or an odd multiple of its block's size.
parity :
    (pn order : ℕ)
    → pn % 2 ^ order ≡ 0
    → pn ≡ pn / 2 ^ order / 2 * (2 * 2 ^ order) + pn / 2 ^ order % 2 * 2 ^ order
parity pn order h = aligned_multiple pn order h ∙ split_multiple (pn / 2 ^ order) (2 ^ order)

-- At an odd multiple the block below belongs to the page.
pub odd_room :
    (pn order : ℕ)
    → pn % 2 ^ order ≡ 0
    → pn / 2 ^ order % 2 ≢ 0
    → pn ≡ pn / 2 ^ order / 2 * (2 * 2 ^ order) + 2 ^ order
odd_room pn order h odd =
    let r : pn / 2 ^ order % 2 ≡ 1 = omega arith in
    omega (arith, parity pn order h, ap (λ (t : ℕ). t * 2 ^ order) r)

even_multiple :
    (pn order : ℕ)
    → pn % 2 ^ order ≡ 0
    → pn / 2 ^ order % 2 ≡ 0
    → pn ≡ pn / 2 ^ order / 2 * (2 * 2 ^ order)
even_multiple pn order h even = omega (arith, parity pn order h, ap (λ (t : ℕ). t * 2 ^ order) even)

pub merge_blocks :
    (q pn order : ℕ)
    → pn % 2 ^ order ≡ 0
    → in_block q pn order + in_block q (get_buddy_pn pn order) order
      ≡ in_block q (clear_bit pn order) (order + 1)
unfolding get_buddy_pn clear_bit
merge_blocks q pn order h =
    let n = 2 ^ order in
    rw (double order) (elim (ℕ_discrete (pn / n % 2) 0) [
      | yes even ↦ rw (even) (halves q pn n)
      | no odd ↦
          let room = odd_room pn order h odd in
          let e : pn - n + n ≡ pn = omega (arith, room) in
          ground (arith, rw e at (halves q (pn - n) n))
    ])

mod_of_multiple : (x j m : ℕ) → x ≡ j * m → x % m ≡ 0
mod_of_multiple x j m e = rw e (mul-mod_left j m)

pub clear_bit_aligned :
    (pn order : ℕ) → pn % 2 ^ order ≡ 0 → clear_bit pn order % 2 ^ (order + 1) ≡ 0
unfolding clear_bit
clear_bit_aligned pn order h =
    let n = 2 ^ order in
    let j = pn / n / 2 in
    rw (double order) (elim (ℕ_discrete (pn / n % 2) 0) [
      | yes even ↦ rw even (mod_of_multiple pn j (2 * n) (even_multiple pn order h even))
      | no odd ↦
          let below = mod_of_multiple (pn - n) j (2 * n) (omega (arith, odd_room pn order h odd)) in
          ground arith
    ])

pub pow_pos : (k : ℕ) → 0 < 2 ^ k
pow_pos zero = omega arith
pow_pos (suc k) = omega (arith, two-pow-succ k, pow_pos k)

even_quotient : (x j n : ℕ) → 0 < n → x ≡ j * (2 * n) → x / n % 2 ≡ 0
even_quotient x j n pos e =
    let f : x ≡ j * 2 * n = e ∙ sym (mul_assoc j 2 n) in
    rw f (rw (mul-div_cancel (j * 2) pos) (mul-mod_left j 2))

-- A page and its buddy are the lower and the upper half of the block that they make up.
pub lower_upper :
    (pn order : ℕ)
    → pn % 2 ^ order ≡ 0
    → let lower = clear_bit pn order in
      let upper = get_buddy_pn lower order in
      ((lower ≡ pn) × (upper ≡ get_buddy_pn pn order))
      ⊎ ((lower ≡ get_buddy_pn pn order) × (upper ≡ pn))
unfolding get_buddy_pn clear_bit
lower_upper pn order h = elim (ℕ_discrete (pn / 2 ^ order % 2) 0) [
  | yes even ↦ inl (ground arith, ground arith)
  | no odd ↦
      let n = 2 ^ order in
      let room = odd_room pn order h odd in
      let even = even_quotient (pn - n) (pn / n / 2) n (pow_pos order) (omega (arith, room)) in
      inr (ground arith, ground (arith, room, even))
]

-- An aligned block of the next order splits into itself and its buddy, both aligned.
pub split_even :
    (pn half : ℕ)
    → pn % 2 ^ (half + 1) ≡ 0
    → (pn % 2 ^ half ≡ 0)
      × (get_buddy_pn pn half % 2 ^ half ≡ 0)
      × (clear_bit pn half ≡ pn)
      × (get_buddy_pn pn half ≢ pn)
unfolding get_buddy_pn clear_bit
split_even pn half h =
    let n = 2 ^ half in
    let whole : pn ≡ pn / (2 * n) * (2 * n) =
      rw (double half) at (aligned_multiple pn (half + 1) h) in
    let j = pn / (2 * n) in
    let even = even_quotient pn j n (pow_pos half) whole in
    let self = mod_of_multiple pn (j * 2) n (whole ∙ sym (mul_assoc j 2 n)) in
    let other = mod_of_multiple (pn + n) (j * 2 + 1) n (omega (arith, whole)) in
    (self, ground (arith, even, other), ground (arith, even), ground (arith, even, pow_pos half))
