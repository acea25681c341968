-- ===== src/Ext2/Reads.antt =====
-- The sectors of a file as addresses of its tree, and what `ext2_bmap` reads there.
use protura.Base.{
  ℕ, ◌+◌, ◌-◌, ◌*◌, ◌/◌, ◌<◌, ◌≤◌, ◌==◌, ◌&&◌, ◌||◌, not, ltb, ◌≡◌, ◌≢◌, refl, ◌∙◌, sym, ap, Bool,
  true, false, List, [], ◌∷◌, length, arith, Bool-cases, inl, inr, if◌then◌else◌,
}
use native.Mathlib.Nat.{div-add-mod'}
use protura.Ext2.{sector_invalid}
use protura.Ext2.Map.{
  Fs, ptrs_per_blk, word_of, from_entry, return_sector, bmap_indirect, bmap_dindirect,
  bmap_tindirect, bmap_blocks, ext2_bmap,
}
use protura.Ext2.Tree.{lookup, same_path, path1, path2, path3, same_address}

-- How many blocks of pointers lead to a sector.
unfoldable pub level : ℕ → ℕ → ℕ
level p n =
    if ltb n 12 then 0 else if ltb (n - 12) p then 1 else if ltb (n - 12 - p) (p * p) then 2 else 3

-- The indices that lead there.
unfoldable pub path : ℕ → ℕ → List ℕ
path p n =
    if ltb n 12
    then n ∷ []
    else if ltb (n - 12) p
    then path1 p (n - 12)
    else if ltb (n - 12 - p) (p * p)
    then path2 p (n - 12 - p)
    else path3 p (n - 12 - p - p * p)

-- The sectors that a file can have.
abbrev pub max_sectors : ℕ → ℕ
max_sectors p = 12 + p + p * p + p * p * p

-- The block of a sector, 0 if it has none.
unfoldable pub file_block : Fs → ℕ → ℕ
file_block fs n = lookup fs (level (ptrs_per_blk fs) n) (path (ptrs_per_blk fs) n)

-- Sectors that `ext2_bmap` looks for: it tests for `>`, so that a sector at the very end of the file
-- is one of them.
unfoldable pub is_looked_for : Fs → ℕ → Bool
is_looked_for fs n = ltb n 12 || not (ltb (fs.inode.size / fs.sb.block_size) n)

pub length-path : (p n : ℕ) → length (path p n) ≡ level p n + 1
unfolding path level
length-path p n = ground arith

from_entry_word :
    (fs : Fs) (e k : ℕ)
    → return_sector (from_entry e (fs.words e k)) ≡ return_sector (word_of fs e k)
unfolding from_entry return_sector word_of
from_entry_word fs e k = ground arith

from_entry_words :
    (fs : Fs) (e k j : ℕ)
    → return_sector (from_entry e (word_of fs (fs.words e k) j))
      ≡ return_sector (word_of fs (word_of fs e k) j)
unfolding from_entry return_sector word_of
from_entry_words fs e k j = ground arith

from_entry_words3 :
    (fs : Fs) (e k j i : ℕ)
    → return_sector (from_entry e (word_of fs (word_of fs (fs.words e k) j) i))
      ≡ return_sector (word_of fs (word_of fs (word_of fs e k) j) i)
unfolding from_entry return_sector word_of
from_entry_words3 fs e k j i = ground arith

-- The sectors after the direct ones.
bmap_blocks_lem :
    (fs : Fs) (n : ℕ)
    → ltb n 12 ≡ false
    → n < max_sectors (ptrs_per_blk fs)
    → return_sector (bmap_blocks fs (n - 12)) ≡ return_sector (file_block fs n)
unfolding bmap_blocks bmap_indirect bmap_dindirect bmap_tindirect file_block level path lookup
bmap_blocks_lem fs n later h =
    let p = ptrs_per_blk fs in
    elim (Bool-cases (ltb (n - 12) p)) [
      | inl one ↦ rw (later, one) (from_entry_word fs _ _)
      | inr more ↦ elim (Bool-cases (ltb (n - 12 - p) (p * p))) [
        | inl two ↦ rw (later, more, two) (from_entry_words fs _ _ _)
        | inr rest ↦
            let three : ltb (n - 12 - p - p * p) (p * p * p) ≡ true =
              ground (arith, later, more, rest, h) in
            rw (later, more, rest, three) (from_entry_words3 fs _ _ _ _)
      ]
    ]

-- For blocks of at most a page and a sector below the greatest number that a file can have,
-- `ext2_bmap` gives the block that the tree of the file's pointers has at the address of the
-- sector, and the invalid sector if there is none, or if the sector is not a direct one and its
-- number is above the file's size divided by the size of a block.
pub ext2_bmap-file_block :
    (fs : Fs) (n : ℕ)
    → fs.sb.block_size ≤ 4096
    → n < max_sectors (ptrs_per_blk fs)
    → ext2_bmap fs n
      ≡ (if is_looked_for fs n then return_sector (file_block fs n) else sector_invalid)
unfolding ext2_bmap file_block level path lookup is_looked_for
ext2_bmap-file_block fs n page h = elim (Bool-cases (ltb n 12)) [
  | inl direct ↦ rw direct refl
  | inr later ↦ elim (Bool-cases (ltb (fs.inode.size / fs.sb.block_size) n)) [
    | inl after ↦ rw (later, after) refl
    | inr inside ↦ let e = bmap_blocks_lem fs n later h in rw (later, inside, e) (rw (later) refl)
  ]
]

-- The sector of an address.
unfoldable pub sector_at : ℕ → ℕ → List ℕ → ℕ
sector_at p l (d ∷ []) = d
sector_at p l (d ∷ s ∷ []) = 12 + (s * p + d)
sector_at p l (d ∷ s ∷ t ∷ []) = 12 + p + ((t * p + s) * p + d)
sector_at p l (d ∷ s ∷ t ∷ u ∷ rest) = 12 + p + p * p + (((u * p + t) * p + s) * p + d)
sector_at p l [] = 0

sector_at-path : (p n : ℕ) → sector_at p (level p n) (path p n) ≡ n
unfolding sector_at level path
sector_at-path p n = elim (Bool-cases (ltb n 12)) [
  | inl direct ↦ rw direct refl
  | inr later ↦ elim (Bool-cases (ltb (n - 12) p)) [
    | inl one ↦ rw (later, one, div-add-mod' (n - 12) p) (ground (arith, later))
    | inr more ↦ elim (Bool-cases (ltb (n - 12 - p) (p * p))) [
      | inl two ↦
          let m = n - 12 - p in
          rw (later, more, two, div-add-mod' (m / p) p, div-add-mod' m p)
            (ground (arith, later, more))
      | inr rest ↦
          let m = n - 12 - p - p * p in
          rw
            (
              later,
              more,
              rest,
              div-add-mod' (m / p / p) p,
              div-add-mod' (m / p) p,
              div-add-mod' m p,
            )
            (ground (arith, later, more, rest))
    ]
  ]
]

-- Two sectors have two addresses.
pub path-apart :
    (p n m : ℕ) → n ≢ m → ((level p n == level p m) && same_path (path p n) (path p m)) ≡ false
path-apart p n m h =
    elim (Bool-cases ((level p n == level p m) && same_path (path p n) (path p m))) [
      | inl same ↦
          let e = same_address (level p n) (level p m) (path p n) (path p m) same in
          absurd (
            h (
              sym (sector_at-path p n)
              ∙ ap (λ l. sector_at p l (path p n)) e.0
              ∙ ap (sector_at p (level p m)) e.1
              ∙ sector_at-path p m))
      | inr other ↦ other
    ]
