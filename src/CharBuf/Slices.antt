-- ===== src/CharBuf/Slices.antt =====
-- Slices of a buffer before and after a copy into it.
use protura.Base.{
  ℕ, zero, suc, ◌+◌, ◌≤◌, ◌<◌, ◌≡◌, ◌⊎◌, refl, ap, List, [], ◌∷◌, ◌++◌, length, arith,
}
use protura.CharBuf.{store, copy_to, slice}

pub length-slice : (f : ℕ → ℕ) (pos n : ℕ) → length (slice f pos n) ≡ n
unfolding slice
length-slice f pos zero = refl
length-slice f pos (suc n) = ap suc (length-slice f (pos + 1) n)

pub slice-append :
    (f : ℕ → ℕ) (pos m n : ℕ) → slice f pos (m + n) ≡ slice f pos m ++ slice f (pos + m) n
unfolding slice
slice-append f pos zero n =
    let e : pos + 0 ≡ pos = omega arith in let z : 0 + n ≡ n = omega arith in rw (z, e) refl
slice-append f pos (suc m) n =
    let e : suc m + n ≡ suc (m + n) = omega arith in
    let e' : pos + suc m ≡ pos + 1 + m = omega arith in
    rw (e, e') (ap (λ t. f pos ∷ t) (slice-append f (pos + 1) m n))

pub slice_same :
    (f g : ℕ → ℕ) (pos n : ℕ)
    → ((i : ℕ) → pos ≤ i → i < pos + n → f i ≡ g i)
    → slice f pos n ≡ slice g pos n
unfolding slice
slice_same f g pos zero h = refl
slice_same f g pos (suc n) h =
    ground
      (arith, h pos, slice_same f g (pos + 1) n (λ i low high. h i (omega arith) (omega arith)))

copy_to_outside :
    (f : ℕ → ℕ) (pos i : ℕ) (xs : List ℕ)
    → (i < pos) ⊎ (pos + length xs ≤ i)
    → copy_to f pos xs i ≡ f i
unfolding copy_to store
copy_to_outside f pos i [] h = refl
copy_to_outside f pos i (x ∷ xs) h = ground (arith, copy_to_outside f (pos + 1) i xs)

-- A copy reads back.
pub slice-copy_to :
    (f : ℕ → ℕ) (pos : ℕ) (xs : List ℕ) → slice (copy_to f pos xs) pos (length xs) ≡ xs
unfolding slice copy_to store
slice-copy_to f pos [] = refl
slice-copy_to f pos (x ∷ xs) =
    let g = copy_to f (pos + 1) xs in
    let back = slice-copy_to f (pos + 1) xs in
    let same = slice_same (store g pos x) g (pos + 1) (length xs) (λ i low high. ground arith) in
    ground (arith, same, back)

-- Positions outside the copied ones keep their bytes.
pub slice-copy_outside :
    (f : ℕ → ℕ) (pos s n : ℕ) (xs : List ℕ)
    → (s + n ≤ pos) ⊎ (pos + length xs ≤ s)
    → slice (copy_to f pos xs) s n ≡ slice f s n
slice-copy_outside f pos s n xs h =
    slice_same (copy_to f pos xs) f s n (λ i low high. copy_to_outside f pos i xs (ground arith))
