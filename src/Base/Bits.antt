-- ===== src/Base/Bits.antt =====
-- Facts about the native `bit_and`: checks over a small range, and a bound.
use Prim.Native.Nat.{
  ℕ, zero, suc, ◌+◌, ◌-◌, ◌*◌, ◌/◌, ◌%◌, ◌^◌, ◌≤◌, ◌<◌, min, bit_and, digits, bit_and-bitwise,
}
use mathlib.Core.Path.{◌≡◌, refl, ap, ◌∙◌}
use mathlib.Core.Bool.{Bool, true, false}
use protura.Base.Tests.{if◌then◌else◌}
use native.Mathlib.Omega.{arith}
use native.Mathlib.Nat.{two-pow-succ, div-div-eq-div-mul, zero-div}

-- Every number under the limit passes the test.
unfoldable pub every_under : (ℕ → Bool) → ℕ → Bool
every_under test zero = true
every_under test (suc limit) = if test limit then every_under test limit else false

pub every_under_lem :
    (test : ℕ → Bool) (limit k : ℕ) → k < limit → every_under test limit ≡ true → test k ≡ true
unfolding every_under
every_under_lem test zero k small h = elim small [ ]
every_under_lem test (suc limit) k small h = ground (arith, every_under_lem test limit k)

-- The digits of the conjunction are at most those of the second number.
and_digits-le : (n a b : ℕ) → digits (λ _. zero) min n a b ≤ b
and_digits-le zero a b = omega arith
and_digits-le (suc n) zero b = omega arith
and_digits-le (suc n) (suc a) b = omega (arith, and_digits-le n (suc a / 2) (b / 2))

pub bit_and-le : (a b : ℕ) → bit_and a b ≤ b
bit_and-le a b = omega (arith, bit_and-bitwise a b, and_digits-le a a b)

pub bit_and-lt : (a b : ℕ) → bit_and a b < suc b
bit_and-lt a b = omega (arith, bit_and-le a b)

-- A mask whose low digits are 0 and whose next ones are 1.
and_digits-ones : (m n a : ℕ) → a ≤ n → a < 2 ^ m → digits (λ _. zero) min n a (2 ^ m - 1) ≡ a
and_digits-ones m zero a h l = omega (arith, h)
and_digits-ones m (suc n) zero h l = refl
and_digits-ones zero (suc n) (suc a) h l = absurd (omega (arith, l))
and_digits-ones (suc m) (suc n) (suc a) h l =
    let p = two-pow-succ m in
    let half : (2 ^ suc m - 1) / 2 ≡ 2 ^ m - 1 = omega (arith, p) in
    let odd : (2 ^ suc m - 1) % 2 ≡ 1 = omega (arith, p, l) in
    let rest = and_digits-ones m n (suc a / 2) (omega (arith, h)) (omega (arith, p, l)) in
    rw (half, odd, rest) (ground arith)

and_digits-mask :
    (k m n a : ℕ)
    → a ≤ n
    → a < 2 ^ (k + m)
    → digits (λ _. zero) min n a (2 ^ (k + m) - 2 ^ k) ≡ a / 2 ^ k * 2 ^ k
and_digits-mask k m zero a h l =
    let none' : a ≡ 0 = omega (arith, h) in rw (none', zero-div (2 ^ k)) (omega arith)
and_digits-mask k m (suc n) zero h l = rw (zero-div (2 ^ k)) (omega arith)
and_digits-mask zero m (suc n) (suc a) h l =
    let e : 0 + m ≡ m = omega arith in
    let whole : suc a ≡ suc a / 1 * 1 = omega arith in
    rw e (and_digits-ones m (suc n) (suc a) h (rw e at l) ∙ whole)
and_digits-mask (suc k) m (suc n) (suc a) h l =
    let p = two-pow-succ k in
    let q = two-pow-succ (k + m) in
    let e : suc k + m ≡ suc (k + m) = omega arith in
    let half : (2 ^ (suc k + m) - 2 ^ suc k) / 2 ≡ 2 ^ (k + m) - 2 ^ k =
      rw e (omega (arith, p, q)) in
    let even : (2 ^ (suc k + m) - 2 ^ suc k) % 2 ≡ 0 = rw e (omega (arith, p, q)) in
    let rest = and_digits-mask k m n (suc a / 2) (omega (arith, h)) (omega (arith, q, rw e at l)) in
    let div : suc a / 2 / 2 ^ k ≡ suc a / 2 ^ suc k =
      div-div-eq-div-mul (suc a) 2 (2 ^ k) ∙ ap (λ d. suc a / d) (omega (arith, p)) in
    let whole : (x : ℕ) → x * 2 ^ k * 2 + min (suc a % 2) 0 ≡ x * 2 ^ suc k =
      λ x. rw p (omega arith) in
    rw (half, even, rest, div) (whole (suc a / 2 ^ suc k))

-- What `& ~(a - 1)` does to a word, for a power of two.
pub bit_and-mask : (k w : ℕ) → k ≤ 32 → w < 2 ^ 32 → bit_and w (2 ^ 32 - 2 ^ k) ≡ w / 2 ^ k * 2 ^ k
bit_and-mask k w h l =
    let e : k + (32 - k) ≡ 32 = omega (arith, h) in
    let r = and_digits-mask k (32 - k) w w (omega arith) (rw e l) in
    bit_and-bitwise w (2 ^ 32 - 2 ^ k) ∙ rw e at r
