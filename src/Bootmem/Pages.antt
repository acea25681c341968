-- ===== src/Bootmem/Pages.antt =====
-- The alignment of addresses to pages, where the kernel's image is, and which addresses the regions have.
use protura.Base.{
  ℕ, ◌+◌, ◌-◌, ◌*◌, ◌/◌, ◌%◌, ◌^◌, ◌≤◌, ◌<◌, ◌==◌, ◌&&◌, ◌||◌, not, ltb, leb, ◌≡◌, refl, ◌∙◌, ap,
  Bool, false, List, [], ◌∷◌, arith, if◌then◌else◌,
}
use protura.Base.Bits.{bit_and-mask}
use native.Mathlib.Nat.{mod-lt, mod-eq_of_lt}
use protura.Slab.{align_2}
use protura.Slab.Align.{IsPower, align_2_lem}
use protura.Bootmem.{Region, Image, pg_size, align_2_down, kern_pg_start, kern_pg_end}

pub align_2_down_word : (v a : ℕ) → IsPower a → align_2_down v a ≡ v % 2 ^ 32 / a * a
unfolding align_2_down
align_2_down_word v a (k, small, e) =
    rw e (bit_and-mask k (v % 2 ^ 32) (omega (arith, small)) (mod-lt v (omega arith)))

pub page-IsPower : IsPower pg_size
page-IsPower = (12, omega arith, refl)

-- Where the alignment up to a page does not wrap.
pub align_2-page : (v : ℕ) → v + pg_size ≤ 2 ^ 32 → align_2 v pg_size ≡ (v + 4095) / 4096 * 4096
align_2-page v l =
    let e : v + pg_size - 1 ≡ v + 4095 = omega arith in
    align_2_lem v pg_size page-IsPower (omega (arith, l)) ∙ ap (λ w. w / 4096 * 4096) e

pub align_2_down-page : (v : ℕ) → v < 2 ^ 32 → align_2_down v pg_size ≡ v / 4096 * 4096
align_2_down-page v l =
    align_2_down_word v pg_size page-IsPower ∙ ap (λ w. w / 4096 * 4096) (mod-eq_of_lt l)

-- An image with a page whose pages end in the address space.
pub record IsImage (k : Image) : Type 0 where
  pub some_page : kern_pg_start k < kern_pg_end k
  pub start_fits : k.kern_start < 2 ^ 32
  pub end_fits : k.kern_end + pg_size ≤ 2 ^ 32

pub align_2-aligned :
    (v : ℕ) → v + pg_size ≤ 2 ^ 32 → align_2 (align_2 v pg_size) pg_size ≡ align_2 v pg_size
align_2-aligned v l =
    let e = align_2-page v l in
    let room : align_2 v pg_size + pg_size ≤ 2 ^ 32 = omega (arith, e, l) in
    omega (arith, e, align_2-page (align_2 v pg_size) room)

pub align_2_down-aligned :
    (v : ℕ) → v < 2 ^ 32 → align_2_down (align_2_down v pg_size) pg_size ≡ align_2_down v pg_size
align_2_down-aligned v l =
    let e = align_2_down-page v l in
    let room : align_2_down v pg_size < 2 ^ 32 = omega (arith, e, l) in
    omega (arith, e, align_2_down-page (align_2_down v pg_size) room)

-- Whether a region has the address; a place without a start is no region.
unfoldable pub has : ℕ → List Region → Bool
has q [] = false
has q (r ∷ rs) = (not (r.start == 0) && (leb r.start q && ltb q r.end)) || has q rs

-- The places where a region can be registered.
unfoldable pub free_places : List Region → ℕ
free_places [] = 0
free_places (r ∷ rs) = (if r.start == 0 then 1 else 0) + free_places rs

-- The addresses of the image's pages.
abbrev pub image_has : Image → ℕ → Bool
image_has k q = leb (kern_pg_start k) q && ltb q (kern_pg_end k)
