-- ===== src/Base/Arrays.antt =====
-- Arrays of the kernel as functions from their indices, and sums over an initial part of one.
use Prim.Native.Nat.{ℕ, zero, suc, ◌+◌, ◌*◌, ◌/◌, ◌%◌, ◌≤◌, ◌<◌}
use mathlib.Core.Path.{◌≡◌, refl, sym}
use mathlib.Core.Logic.{◌≢◌}
use protura.Base.Tests.{◌==◌, if◌then◌else◌}
use native.Mathlib.Omega.{arith}
use mathlib.Core.Path.{◌∙◌}
use native.Mathlib.Nat.{
  mul-add-div_right, div-eq_of_lt, mul-add-mod_self_right, mod-eq_of_lt, div-add-mod',
}
use mathlib.Core.Bool.{◌&&◌}
use mathlib.Core.Logic.{inl, inr}
use protura.Base.Tests.{Bool-cases, ==_iff, ==_refl}

-- An entry of an array is written.
unfoldable pub update {ℓ} : {A : Type ℓ} → (ℕ → A) → ℕ → A → ℕ → A
update f i v j = if i == j then v else f j

-- A sum over the indices below `n`.
unfoldable pub sum_below : ℕ → (ℕ → ℕ) → ℕ
sum_below zero f = 0
sum_below (suc n) f = sum_below n f + f n

module _ {ℓ} {A : Type ℓ} where
  pub update_self : (f : ℕ → A) (i : ℕ) (v : A) → update f i v i ≡ v
  unfolding update
  update_self f i v = ground arith

  pub update_ne : (f : ℕ → A) (i j : ℕ) (v : A) → i ≢ j → update f i v j ≡ f j
  unfolding update
  update_ne f i j v h = ground arith

-- A write below the bound replaces one term of the sum.
sum_below-above :
    {A : Type 0} (n k : ℕ) (v : A) (f : ℕ → A) (g : ℕ → A → ℕ)
    → n ≤ k
    → sum_below n (λ j. g j (update f k v j)) ≡ sum_below n (λ j. g j (f j))
unfolding sum_below update
sum_below-above zero k v f g h = refl
sum_below-above (suc n) k v f g h = ground (arith, sum_below-above n k v f g)

pub sum_below-update :
    {A : Type 0} (n k : ℕ) (v : A) (f : ℕ → A) (g : ℕ → A → ℕ)
    → k < n
    → sum_below n (λ j. g j (update f k v j)) + g k (f k) ≡ sum_below n (λ j. g j (f j)) + g k v
unfolding sum_below update
sum_below-update zero k v f g h = absurd (omega arith)
sum_below-update (suc n) k v f g h =
    ground (arith, sum_below-update n k v f g, sum_below-above n k v f g)

-- Row `g` and column `k` of an array of rows of length `m`.
pub row-at : (m g k : ℕ) → k < m → (g * m + k) / m ≡ g
row-at m g k h =
    omega (arith, mul-add-div_right {m = m} (omega arith) g k, div-eq_of_lt {n = k} {m = m} h)

pub column-at : (m g k : ℕ) → k < m → (g * m + k) % m ≡ k
column-at m g k h = mul-add-mod_self_right g m k ∙ mod-eq_of_lt h

pub place-at : (m g k n : ℕ) → k < m → (g * m + k == n) ≡ ((g == n / m) && (k == n % m))
place-at m g k n h = elim (Bool-cases (g * m + k == n)) [
  | inl same ↦
      let e = (==_iff (g * m + k) n).0 same in
      let q : n / m ≡ g = rw (sym e) (row-at m g k h) in
      let r : n % m ≡ k = rw (sym e) (column-at m g k h) in
      rw (same, q, r, ==_refl g, ==_refl k) refl
  | inr other ↦ elim (Bool-cases (g == n / m)) [
    | inl row ↦ elim (Bool-cases (k == n % m)) [
      | inl column ↦
          let e : g * m + k ≡ n =
            rw ((==_iff g (n / m)).0 row, (==_iff k (n % m)).0 column) (div-add-mod' n m) in
          absurd (ground (arith, other, e))
      | inr other_place ↦ rw (other, row, other_place) refl
    ]
    | inr other_place ↦ rw (other, other_place) refl
  ]
]
