-- ===== src/Slab/Align.antt =====
-- ALIGN_2 of src/arch/x86/include/arch/paging.h on powers of two, as the sizes of objects are.
use protura.Base.{
  ℕ, ◌+◌, ◌-◌, ◌*◌, ◌/◌, ◌%◌, ◌^◌, ◌≤◌, ◌<◌, ◌≡◌, ap, ◌∙◌, Option, none, some, arith,
}
use protura.Base.Bits.{bit_and-mask}
use protura.Base.Arrays.{row-at}
use native.Mathlib.Nat.{mod-lt, mod-eq_of_lt}
use protura.Slab.{frame_size, header_size, align_2, new_first}

-- A size of objects, or an alignment.
abbrev pub IsPower : ℕ → Type 0
IsPower size = (k : ℕ) × (k < 32) × (size ≡ 2 ^ k)

-- Pages that palloc gives, if it gives some, with room after them for the step past the last object.
unfoldable pub IsLow : Option ℕ → Type 0
IsLow none = Unit
IsLow (some page) = page + frame_size + frame_size ≤ 2 ^ 32

pub align_2_word :
    (v size : ℕ) → IsPower size → align_2 v size ≡ (v + size - 1) % 2 ^ 32 / size * size
unfolding align_2
align_2_word v size (k, small, e) = rw e (
    bit_and-mask k ((v + 2 ^ k - 1) % 2 ^ 32) (omega (arith, small))
      (mod-lt (v + 2 ^ k - 1) (omega arith)))

pub align_2_lem :
    (v size : ℕ)
    → IsPower size
    → v + size - 1 < 2 ^ 32
    → align_2 v size ≡ (v + size - 1) / size * size
align_2_lem v size power l = align_2_word v size power ∙ ap (λ w. w / size * size) (mod-eq_of_lt l)

-- A step from an address on the grid ends on it.
pub align_2-next :
    (q size : ℕ)
    → 0 < size
    → IsPower size
    → q * size + size + size ≤ 2 ^ 32
    → align_2 (q * size + size) size ≡ q * size + size
align_2-next q size p power l =
    let row : (q * size + size + size - 1) / size ≡ q + 1 =
      let e : q * size + size + size - 1 ≡ (q + 1) * size + (size - 1) = omega (arith, p) in
      rw e (row-at size (q + 1) (size - 1) (omega (arith, p))) in
    align_2_lem (q * size + size) size power (omega (arith, l, p)) ∙ rw row (omega arith)

-- Where the first object of new pages is.
pub new_first_lem :
    (size page : ℕ)
    → IsPower size
    → header_size + size + size ≤ frame_size
    → IsLow (some page)
    → new_first size page ≡ (page + header_size + size - 1) / size * size
unfolding IsLow
new_first_lem size page power fits low =
    align_2_lem (page + header_size) size power (omega (arith, fits, low))
