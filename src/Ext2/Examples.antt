-- ===== src/Ext2/Examples.antt =====
-- A file system of 32 blocks of 16 bytes, four of them in use, with an empty file.
use protura.Base.{ℕ, ltb, ◌≡◌, refl, true, false, List, [], ◌∷◌, arith, if◌then◌else◌}
use protura.Base.Arrays.{update, sum_below}
use protura.Ext2.{
  SuperBlock, sector_invalid, max_block_location, ext2_block_alloc, count_marked, mark_block,
  mark_in_groups, mark_in_group, mark_found, or_else, bit_find_first_zero, bit_find_next_zero,
  find_in_bytes, find_in_byte, is_full, is_none, block_number, mark,
}
use protura.Ext2.Alloc.{zeros, in_use, IsCounted}
use protura.Ext2.Free.{Allocates, ext2_block_alloc-Allocates}
use protura.Ext2.Map.{
  Fs, word_of, ext2_bmap, return_sector, ext2_bmap_alloc, bmap_blocks, bmap_dindirect, from_entry,
  map_new, map_blocks, map_dindirect, finish_map, alloc_block_zero, zero_allocated, when_found,
  ensure, put_new, get, put, map_in_block, inode_set_dirty,
}
use protura.Ext2.Tree.{lookup, IsTree}
use protura.Ext2.Reads.{is_looked_for, file_block, ext2_bmap-file_block}
use protura.Ext2.Grown.{BmapAllocs}
use protura.Ext2.Maps.{ext2_bmap_alloc-BmapAllocs}

abbrev small_sb : SuperBlock
small_sb = record {
  block_size = 16;
  block_group_count = 1;
  blocks_per_block_group = 32;
  block_total = 32;
  block_unused_total = 28;
  sb_block_number = 0;
  groups = λ i. record { block_bitmap = λ k. ltb k 4; block_unused_total = 28 };
}

abbrev empty_file : Fs
empty_file = record {
  sb = small_sb;
  inode = record { size = 400; blocks = 0; blk_ptrs = λ l k. 0; dirty = false };
  words = λ b k. 0;
}

small_sb-IsCounted : IsCounted small_sb
unfolding zeros sum_below max_block_location
small_sb-IsCounted = record {
  bitmap_fits = omega arith;
  some_blocks = omega arith;
  count_fits = omega arith;
  numbers_fit = omega arith;
  limits = λ i h. ground arith;
  counted = λ i h. (let e : i ≡ 0 = omega arith in rw e refl);
  total = refl;
}

no_pointer : (l : ℕ) (a : List ℕ) → lookup empty_file l a ≡ 0
unfolding lookup word_of
no_pointer l [] = refl
no_pointer l (k ∷ []) = refl
no_pointer l (k ∷ j ∷ a) = rw (no_pointer l (j ∷ a)) refl

empty_file-IsTree : IsTree empty_file
unfolding in_use
empty_file-IsTree = record {
  counts = small_sb-IsCounted;
  narrow = record { numbers_small = omega arith; size_fits = omega arith };
  boot = refl;
  alone = λ l m a b la lb there e. absurd (there (no_pointer l a));
  used = λ l a la there. absurd (there (no_pointer l a));
  blocks = λ l a la there. absurd (there (no_pointer l a));
}

is_looked_for_20 : is_looked_for empty_file 20 ≡ true
unfolding is_looked_for
is_looked_for_20 = refl

-- Sector 20 is reached through two blocks of pointers.
ext2_bmap_alloc-BmapAllocs_example : BmapAllocs empty_file 20 4 (ext2_bmap_alloc empty_file 20)
ext2_bmap_alloc-BmapAllocs_example =
    ext2_bmap_alloc-BmapAllocs empty_file 20 empty_file-IsTree (omega arith) is_looked_for_20

ext2_block_alloc-Allocates_example : Allocates small_sb (ext2_block_alloc small_sb)
ext2_block_alloc-Allocates_example = ext2_block_alloc-Allocates small_sb small_sb-IsCounted

ext2_bmap-file_block_example : ext2_bmap empty_file 20 ≡ (
    if is_looked_for empty_file 20
    then return_sector (file_block empty_file 20)
    else sector_invalid)
ext2_bmap-file_block_example = ext2_bmap-file_block empty_file 20 (omega arith) (omega arith)

-- The data gets block 4, and its two blocks of pointers are 5 and 6.
runs : (ext2_bmap_alloc empty_file 20).1 ≡ 4
unfolding ext2_bmap_alloc ext2_bmap return_sector bmap_blocks bmap_dindirect from_entry map_new
    map_blocks map_dindirect finish_map alloc_block_zero zero_allocated ext2_block_alloc
    count_marked mark_block mark_in_groups mark_in_group mark_found or_else bit_find_first_zero
    bit_find_next_zero find_in_bytes find_in_byte is_full is_none max_block_location block_number
    mark update when_found ensure put_new get put map_in_block inode_set_dirty
runs = refl
