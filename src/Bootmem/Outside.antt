-- ===== src/Bootmem/Outside.antt =====
-- A region is added, but for the memory of the kernel's image.
use protura.Base.{
  ℕ, suc, ◌>>=◌, ◌+◌, ◌-◌, ◌^◌, ◌||◌, not, ◌≤◌, ◌<◌, ◌==◌, ltb, leb, ◌≡◌, ◌⊎◌, refl, Bool, true,
  false, ◌&&◌, Option, some, List, [], ◌∷◌, All, arith, Bool-cases, inl, inr, if◌then◌else◌,
}
use protura.Slab.{align_2}
use protura.Bootmem.Pages.{
  align_2-page, IsImage, align_2-aligned, align_2_down-aligned, has, free_places, image_has,
}
use protura.Bootmem.{
  Region, Bootmem, Image, pg_size, align_2_down, kern_pg_start, kern_pg_end, put_region, register,
  note_page, without_zero_page, in_image, meets_image, add_if, bootmem_add,
}

-- A region has no page of the image.
abbrev pub IsOutside : Image → Region → Type 0
IsOutside k r = (r.end ≤ r.start) ⊎ ((r.end ≤ kern_pg_start k) ⊎ (kern_pg_end k ≤ r.start))

-- No region has one.
abbrev pub AreOutside : Image → Bootmem → Type 0
AreOutside k b = All (IsOutside k) b.memregions

put_region-All :
    (P : Region → Type 0) (r : Region) (rs : List Region) → P r → All P rs → All P (put_region r rs)
unfolding put_region
put_region-All P r [] p h = tt
put_region-All P r (x ∷ xs) p h = elim (Bool-cases (x.start == 0)) [
  | inl free ↦ rw free (p, h.1)
  | inr taken ↦ rw taken (h.0, put_region-All P r xs p h.1)
]

put_region-free_places :
    (r : Region) (rs : List Region)
    → (r.start == 0) ≡ false
    → free_places (put_region r rs) ≡ free_places rs - 1
unfolding put_region free_places
put_region-free_places r [] h = refl
put_region-free_places r (x ∷ xs) h = elim (Bool-cases (x.start == 0)) [
  | inl free ↦ rw (free, h) (omega arith)
  | inr taken ↦
      let rest = put_region-free_places r xs h in rw taken (rw taken (omega (arith, rest)))
]

put_region-has :
    (q : ℕ) (r : Region) (rs : List Region)
    → (r.start == 0) ≡ false
    → 0 < free_places rs
    → has q (put_region r rs) ≡ ((leb r.start q && ltb q r.end) || has q rs)
unfolding put_region has free_places
put_region-has q r [] h more = absurd (omega (arith, more))
put_region-has q r (x ∷ xs) h more = elim (Bool-cases (x.start == 0)) [
  | inl free ↦ rw (free, h) refl
  | inr taken ↦ rw (taken) (ground (arith, put_region-has q r xs h (ground (arith, taken, more))))
]

-- What `bootmem_add` leaves of a region from `s` to `last`: the rest of it is added, the image's
-- pages are not, and nothing else changes.
pub data Adds (k : Image) (s last : ℕ) (b : Bootmem) : Option Bootmem → Type 0 where
  adds :
      (b' : Bootmem)
      → AreOutside k b'
      → ((q : ℕ)
          → has q b'.memregions
            ≡ (((leb s q && ltb q last) && not (image_has k q)) || has q b.memregions))
      → Adds k s last b (some b')

Adds-if :
    (k : Image) (s last : ℕ) (b : Bootmem) (c : Bool) {x y : Option Bootmem}
    → (c ≡ true → Adds k s last b x)
    → (c ≡ false → Adds k s last b y)
    → Adds k s last b (if c then x else y)
Adds-if k s last b true h h' = h refl
Adds-if k s last b false h h' = h' refl

not_met :
    (k : Image) (s last : ℕ)
    → in_image k s last ≡ false
    → meets_image k s last ≡ false
    → IsOutside k (record { start = s; end = last })
not_met k s last i m = ground arith

-- Nothing of the region is added.
none_added :
    (k : Image) (s last : ℕ) (b : Bootmem)
    → ((q : ℕ) → ((leb s q && ltb q last) && not (image_has k q)) ≡ false)
    → AreOutside k b
    → Adds k s last b (some b)
none_added k s last b e h = adds b h (λ q. rw (e q) refl)

-- A region that ends where the image begins, or begins where it ends, is registered as it is.
before_image :
    (depth : ℕ) (k : Image) (s : ℕ) (b : Bootmem)
    → IsImage k
    → align_2 s pg_size ≡ s
    → (s == 0) ≡ false
    → s < kern_pg_start k
    → bootmem_add (suc depth) k s (kern_pg_start k) b
      ≡ some (register s (kern_pg_start k) (note_page (kern_pg_start k) b))
unfolding bootmem_add
before_image depth k s b image e nonzero below =
    let last = align_2_down-aligned k.kern_start image.start_fits in
    let i : in_image k s (kern_pg_start k) ≡ false = ground (arith, below) in
    let m : meets_image k s (kern_pg_start k) ≡ false = ground (arith, below, image.some_page) in
    rw (e, last, nonzero, i, m) refl

after_image :
    (depth : ℕ) (k : Image) (last : ℕ) (b : Bootmem)
    → IsImage k
    → align_2_down last pg_size ≡ last
    → kern_pg_end k < last
    → bootmem_add (suc depth) k (kern_pg_end k) last b
      ≡ some (register (kern_pg_end k) last (note_page last b))
unfolding bootmem_add
after_image depth k last b image e above =
    let first = align_2-aligned k.kern_end image.end_fits in
    let nonzero : (kern_pg_end k == 0) ≡ false = ground (arith, image.some_page) in
    let i : in_image k (kern_pg_end k) last ≡ false = ground (arith, above, image.some_page) in
    let m : meets_image k (kern_pg_end k) last ≡ false = ground (arith, above, image.some_page) in
    rw (first, e, nonzero, i, m) refl

register-AreOutside :
    (k : Image) (s last : ℕ) (b : Bootmem)
    → IsOutside k (record { start = s; end = last })
    → AreOutside k b
    → AreOutside k (register s last b)
register-AreOutside k s last b o h =
    put_region-All (IsOutside k) (record { start = s; end = last }) b.memregions o h

-- The parts of a region that meets the image.
split-Adds :
    (depth : ℕ) (k : Image) (s last : ℕ) (b : Bootmem)
    → IsImage k
    → align_2 s pg_size ≡ s
    → (s == 0) ≡ false
    → align_2_down last pg_size ≡ last
    → meets_image k s last ≡ true
    → 2 ≤ free_places b.memregions
    → AreOutside k b
    → Adds k s last b (
        add_if
          (ltb s (kern_pg_start k))
          (bootmem_add (suc depth) k s (kern_pg_start k))
          (note_page last b)
        >>= add_if (ltb (kern_pg_end k) last) (bootmem_add (suc depth) k (kern_pg_end k) last))
split-Adds depth k s last b image es nonzero el m places h =
    let low = kern_pg_start k in
    let high = kern_pg_end k in
    let r : Region = record { start = s; end = low } in
    let t : Region = record { start = high; end = last } in
    let t_nonzero : (high == 0) ≡ false = ground (arith, image.some_page) in
    elim (Bool-cases (ltb s low)) [
      | inl below ↦
          let b1 = register s low (note_page low (note_page last b)) in
          let e1 =
            before_image depth k s (note_page last b) image es nonzero (ground (arith, below)) in
          let o1 = register-AreOutside k s low b (inr (inl (omega arith))) h in
          let h1 = λ (q : ℕ). put_region-has q r b.memregions nonzero (omega (arith, places)) in
          let f1 = put_region-free_places r b.memregions nonzero in
          elim (Bool-cases (ltb high last)) [
            | inl above ↦
                let e2 = after_image depth k last b1 image el (ground (arith, above)) in
                rw (below, e1, above, e2)
                  (adds (register high last (note_page last b1))
                    (register-AreOutside k high last b1 (inr (inr (omega arith))) o1)
                    (λ q. ground (
                      arith,
                      put_region-has q t b1.memregions t_nonzero (omega (arith, f1, places)),
                      h1 q,
                      below,
                      above,
                      image.some_page,
                    )))
            | inr not_above ↦
                rw (below, e1, not_above)
                  (adds b1 o1 (λ q. ground (arith, h1 q, m, below, not_above, image.some_page)))
          ]
      | inr not_below ↦ elim (Bool-cases (ltb high last)) [
        | inl above ↦
            let b0 = note_page last b in
            let e2 = after_image depth k last b0 image el (ground (arith, above)) in
            rw (not_below, above, e2)
              (adds (register high last (note_page last b0))
                (register-AreOutside k high last b (inr (inr (omega arith))) h)
                (λ q. ground (
                  arith,
                  put_region-has q t b.memregions t_nonzero (omega (arith, places)),
                  not_below,
                  above,
                  m,
                  image.some_page,
                )))
        | inr not_above ↦
            rw (not_below, not_above)
              (adds (note_page last b) h
                (λ q. ground (arith, m, not_below, not_above, image.some_page)))
      ]
    ]

start_aligned :
    (start : ℕ)
    → start + pg_size ≤ 2 ^ 32
    → align_2 (without_zero_page (align_2 start pg_size)) pg_size
      ≡ without_zero_page (align_2 start pg_size)
start_aligned start l = elim (Bool-cases (align_2 start pg_size == 0)) [
  | inl lowest ↦ rw lowest (align_2-page pg_size (omega arith))
  | inr other ↦ rw other (align_2-aligned start l)
]

-- For addresses of 32 bits: if the kernel's image has a page, its end and the start of a region lie
-- at least a page below 2^32, two places for regions are free, and no region has a page of the
-- image, then `bootmem_add` ends in a recursion of depth two, no region has a page of the image,
-- and an address belongs to a region exactly if it did before or lies in the whole pages of the new
-- one, but for the page at address 0 and those of the image.
pub bootmem_add-Adds :
    (depth : ℕ) (k : Image) (start end : ℕ) (b : Bootmem)
    → IsImage k
    → start + pg_size ≤ 2 ^ 32
    → end < 2 ^ 32
    → 2 ≤ free_places b.memregions
    → AreOutside k b
    → Adds k
        (without_zero_page (align_2 start pg_size))
        (align_2_down end pg_size)
        b
        (bootmem_add (suc (suc depth)) k start end b)
unfolding bootmem_add
bootmem_add-Adds depth k start end b image start_fits end_fits places h =
    let first = align_2 start pg_size in
    let last = align_2_down end pg_size in
    let s = without_zero_page first in
    let b' = note_page last b in
    let nonzero : (s == 0) ≡ false = ground arith in
    Adds-if k s last b (first == 0 && leb last pg_size)
      (λ e. none_added k s last b (λ q. ground (arith, e)) h)
      (λ e.
        Adds-if k s last b (in_image k s last) (λ e1. adds b' h (λ q. ground (arith, e1)))
          (λ e1.
            Adds-if k s last b (meets_image k s last)
              (λ e2.
                split-Adds depth k s last b image (start_aligned start start_fits) nonzero
                  (align_2_down-aligned end end_fits) e2 places h)
              (λ e2.
                let o = not_met k s last e1 e2 in
                adds (register s last b') (register-AreOutside k s last b o h) (λ q. ground (
                  arith,
                  put_region-has q (record { start = s; end = last }) b.memregions nonzero
                      (omega (arith, places)),
                  e1,
                  e2,
                )))))
