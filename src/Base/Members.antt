-- ===== src/Base/Members.antt =====
-- The names in a list, as a kernel list of nodes holds them.
use Prim.Native.Nat.{ℕ, ◌+◌, ◌-◌}
use mathlib.Core.Path.{◌≡◌, refl, ap}
use mathlib.Core.Logic.{◌≢◌, inl, inr}
use mathlib.Core.Bool.{Bool, true, false}
use mathlib.Core.List.{List, [], ◌∷◌, ◌++◌}
use protura.Base.Tests.{◌==◌, ltb, if◌then◌else◌, Bool-cases}
use protura.Base.Lists.{length}
use native.Mathlib.Omega.{arith}

unfoldable pub is_in : ℕ → List ℕ → Bool
is_in x [] = false
is_in x (y ∷ ys) = if y == x then true else is_in x ys

-- The first one goes.
unfoldable pub delete : ℕ → List ℕ → List ℕ
delete x [] = []
delete x (y ∷ ys) = if y == x then ys else y ∷ delete x ys

pub length-delete : (x : ℕ) (xs : List ℕ) → is_in x xs ≡ true → length (delete x xs) + 1 ≡ length xs
unfolding is_in delete
length-delete x [] h = cc
length-delete x (y ∷ ys) h = ground (arith, length-delete x ys)

pub is_in-delete : (x y : ℕ) (xs : List ℕ) → x ≢ y → is_in x (delete y xs) ≡ is_in x xs
unfolding is_in delete
is_in-delete x y [] h = refl
is_in-delete x y (z ∷ zs) h = ground (arith, is_in-delete x y zs h)

pub is_in-append :
    (x y : ℕ) (xs : List ℕ) → is_in x (xs ++ (y ∷ [])) ≡ (if y == x then true else is_in x xs)
unfolding is_in
is_in-append x y [] = ground arith
is_in-append x y (z ∷ zs) = ground (arith, is_in-append x y zs)

unfoldable pub count : ℕ → List ℕ → ℕ
count x [] = 0
count x (y ∷ ys) = (if y == x then 1 else 0) + count x ys

pub count-append :
    (x y : ℕ) (xs : List ℕ) → count x (xs ++ (y ∷ [])) ≡ count x xs + (if y == x then 1 else 0)
unfolding count
count-append x y [] = ground arith
count-append x y (z ∷ zs) = ground (arith, count-append x y zs)

pub count-delete :
    (x y : ℕ) (xs : List ℕ) → count x (delete y xs) ≡ count x xs - (if y == x then 1 else 0)
unfolding count delete
count-delete x y [] = ground arith
count-delete x y (z ∷ zs) = ground (arith, count-delete x y zs)

pub count-is_in : (x : ℕ) (xs : List ℕ) → is_in x xs ≡ ltb 0 (count x xs)
unfolding count is_in
count-is_in x [] = ground arith
count-is_in x (y ∷ ys) = ground (arith, count-is_in x ys)

pub delete-absent : (x : ℕ) (xs : List ℕ) → count x xs ≡ 0 → delete x xs ≡ xs
unfolding count delete
delete-absent x [] h = refl
delete-absent x (y ∷ ys) h = elim (Bool-cases (y == x)) [
  | inl same ↦ let h' = rw same at h in absurd (omega (arith, h'))
  | inr other ↦
      let h' = rw other at h in rw other (ap (◌∷◌ y) (delete-absent x ys (omega (arith, h'))))
]
