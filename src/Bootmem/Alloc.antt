-- ===== src/Bootmem/Alloc.antt =====
-- Memory that is allocated at boot is aligned and outside of the kernel's image.
use protura.Base.{
  ℕ, ◌>>=◌, ◌+◌, ◌-◌, ◌/◌, ◌%◌, ◌^◌, ◌≤◌, ◌<◌, ltb, leb, ◌≡◌, ◌⊎◌, false, ◌&&◌, Option, none, some,
  List, [], ◌∷◌, All, arith, Bool-cases, inl, inr,
}
use native.Mathlib.Nat.{div-mul-le_self, div-add-mod', mod-lt, mul-mod_left}
use protura.Slab.{align_2}
use protura.Slab.Align.{IsPower, align_2_word, align_2_lem}
use protura.Bootmem.Pages.{align_2_down_word}
use protura.Bootmem.{Region, Image, align_2_down, kern_pg_start, kern_pg_end, alloc_in}
use protura.Bootmem.Outside.{IsOutside}

align_2-above : (v a : ℕ) → 0 < a → IsPower a → v + a ≤ 2 ^ 32 → v ≤ align_2 v a
align_2-above v a p power l =
    let e = align_2_lem v a power (omega (arith, l, p)) in
    omega (arith, e, div-add-mod' (v + a - 1) a, mod-lt (v + a - 1) p)

align_2_down-below : (v a : ℕ) → IsPower a → align_2_down v a ≤ v
align_2_down-below v a power =
    omega (arith, align_2_down_word v a power, div-mul-le_self (v % 2 ^ 32) a)

-- The memory from `addr` on is aligned and has no page of the image.
pub record IsGiven (k : Image) (length alignment addr : ℕ) : Type 0 where
  pub aligned : addr % alignment ≡ 0
  pub outside : (addr + length ≤ kern_pg_start k) ⊎ (kern_pg_end k ≤ addr)

-- A region has no aligned memory of the length.
abbrev pub IsSmall : ℕ → ℕ → Region → Type 0
IsSmall length alignment r =
    (ltb (align_2 r.start alignment) (align_2_down r.end alignment)
      && leb length (align_2_down r.end alignment - align_2 r.start alignment))
    ≡ false

pub data Allocs (k : Image) (length alignment : ℕ) (rs : List Region)
    : Option (ℕ × List Region) → Type 0 where
  gives :
      (addr : ℕ) (rs' : List Region)
      → IsGiven k length alignment addr
      → All (IsOutside k) rs'
      → Allocs k length alignment rs (some (addr, rs'))
  fails : All (IsSmall length alignment) rs → Allocs k length alignment rs none

Allocs-later :
    (k : Image) (length alignment : ℕ) (r : Region) (rs : List Region)
    (o : Option (ℕ × List Region))
    → IsOutside k r
    → IsSmall length alignment r
    → Allocs k length alignment rs o
    → Allocs k length alignment (r ∷ rs) (o >>= λ z. some (z.0, r ∷ z.1))
Allocs-later k length alignment r rs _ h s (gives addr rs' g o) = gives addr (r ∷ rs') g (h, o)
Allocs-later k length alignment r rs _ h s (fails f) = fails (s, f)

-- From regions without a page of the kernel's image, an allocation at boot with an alignment that
-- is a power of two and does not wrap gives aligned memory without such a page, and leaves regions
-- without one; it fails only if no region has aligned memory of the length.
pub alloc_in-Allocs :
    (k : Image) (length alignment : ℕ) (rs : List Region)
    → 0 < alignment
    → IsPower alignment
    → All (λ (r : Region). r.start + alignment ≤ 2 ^ 32) rs
    → All (IsOutside k) rs
    → Allocs k length alignment rs (alloc_in length alignment rs)
unfolding alloc_in
alloc_in-Allocs k length alignment [] p power fits h = fails tt
alloc_in-Allocs k length alignment (r ∷ rs) p power fits h =
    let first = align_2 r.start alignment in
    let last = align_2_down r.end alignment in
    elim (Bool-cases (ltb first last && leb length (last - first))) [
      | inl large ↦
          let low = align_2-above r.start alignment p power fits.0 in
          let high = align_2_down-below r.end alignment power in
          rw large (
            gives first (record r { start = first + length } ∷ rs)
              (record {
                aligned =
                    rw (align_2_word r.start alignment power)
                      (mul-mod_left ((r.start + alignment - 1) % 2 ^ 32 / alignment) alignment);
                outside = ground (arith, h.0, low, high);
              })
              (ground (arith, h.0, low), h.1))
      | inr small ↦ rw small (
          Allocs-later k length alignment r rs (alloc_in length alignment rs) h.0 small
            (alloc_in-Allocs k length alignment rs p power fits.1 h.1))
    ]
