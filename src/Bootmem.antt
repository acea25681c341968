-- ===== src/Bootmem.antt =====
-- src/mm/bootmem.c: the memory that is known at boot. Addresses are physical ones of 32
-- bits.
pub mod Pages
pub mod Outside
pub mod Alloc
pub mod Setup
pub mod Frames
mod Examples
use Prim.Native.Nat.{bit_and}
use protura.Base.{
  ℕ, zero, suc, ◌>>=◌, ◌+◌, ◌-◌, ◌/◌, ◌%◌, ◌^◌, ◌==◌, ltb, leb, max, Bool, ◌&&◌, ◌||◌, Option, none,
  some, List, [], ◌∷◌, replicate, if◌then◌else◌,
}
use protura.Slab.{align_2}

-- `struct bootmem_region`
pub record Region : Type 0 where
  pub start : ℕ
  pub end : ℕ

-- `memregions` and `highest_page`
pub record Bootmem : Type 0 where
  pub memregions : List Region
  pub highest_page : ℕ

-- Where the kernel's image is.
pub record Image : Type 0 where
  pub kern_start : ℕ
  pub kern_end : ℕ

abbrev pub pg_size : ℕ
pg_size = 4096

-- `ALIGN_2_DOWN`, on words of 32 bits
unfoldable pub align_2_down : ℕ → ℕ → ℕ
align_2_down v a = bit_and (v % 2 ^ 32) (2 ^ 32 - a)

abbrev pub no_region : Region
no_region = record { start = 0; end = 0 }

abbrev pub no_bootmem : Bootmem
no_bootmem = record { memregions = replicate 64 no_region; highest_page = 0 }

abbrev pub kern_pg_start : Image → ℕ
kern_pg_start k = align_2_down k.kern_start pg_size

abbrev pub kern_pg_end : Image → ℕ
kern_pg_end k = align_2 k.kern_end pg_size

-- The first free place; without one the region is dropped.
unfoldable pub put_region : Region → List Region → List Region
put_region r [] = []
put_region r (x ∷ xs) = let rest = put_region r xs in if x.start == 0 then r ∷ xs else x ∷ rest

abbrev pub register : ℕ → ℕ → Bootmem → Bootmem
register start end b = record b {
  memregions = put_region (record { start = start; end = end }) b.memregions;
}

abbrev pub note_page : ℕ → Bootmem → Bootmem
note_page end b = record b { highest_page = max (end / pg_size) b.highest_page }

-- The page at address 0 is left out.
abbrev pub without_zero_page : ℕ → ℕ
without_zero_page start = if start == 0 then pg_size else start

abbrev pub in_image : Image → ℕ → ℕ → Bool
in_image k start end = leb (kern_pg_start k) start && ltb end (kern_pg_end k)

abbrev pub meets_image : Image → ℕ → ℕ → Bool
meets_image k start end =
    (ltb start (kern_pg_end k) && leb (kern_pg_end k) end)
    || (leb start (kern_pg_start k) && ltb (kern_pg_start k) end)

abbrev pub add_if : Bool → (Bootmem → Option Bootmem) → Bootmem → Option Bootmem
add_if Bool.true add b = add b
add_if Bool.false add b = some b

-- `bootmem_add`, on the depth of its recursion; `none` if there is more.
unfoldable pub bootmem_add : ℕ → Image → ℕ → ℕ → Bootmem → Option Bootmem
bootmem_add zero k start end b = none
bootmem_add (suc depth) k start end b =
    let first = align_2 start pg_size in
    let last = align_2_down end pg_size in
    let s = without_zero_page first in
    let b' = note_page last b in
    let before = bootmem_add depth k s (kern_pg_start k) in
    let after = bootmem_add depth k (kern_pg_end k) last in
    if first == 0 && leb last pg_size
    then some b
    else if in_image k s last
    then some b'
    else if meets_image k s last
    then (add_if (ltb s (kern_pg_start k)) before b' >>= add_if (ltb (kern_pg_end k) last) after)
    else some (register s last b')

-- `bootmem_alloc_nopanic`, on the regions.
unfoldable pub alloc_in : ℕ → ℕ → List Region → Option (ℕ × List Region)
alloc_in length alignment [] = none
alloc_in length alignment (r ∷ rs) =
    let first_addr = align_2 r.start alignment in
    let end_addr = align_2_down r.end alignment in
    let rest = alloc_in length alignment rs in
    if ltb first_addr end_addr && leb length (end_addr - first_addr)
    then some (first_addr, record r { start = first_addr + length } ∷ rs)
    else (rest >>= λ z. some (z.0, r ∷ z.1))

unfoldable pub bootmem_alloc_nopanic : ℕ → ℕ → Bootmem → Option (ℕ × Bootmem)
bootmem_alloc_nopanic length alignment b =
    alloc_in length alignment b.memregions >>= λ z. some (z.0, record b { memregions = z.1 })
