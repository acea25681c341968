-- ===== src/Ext2/Map.antt =====
-- src/fs/ext2/bmap.c: the map from the sectors of a file to the blocks of the device. A file holds
-- the lock of its inode while the map grows, so that no other task changes it.
use protura.Base.{
  ℕ, ◌-◌, ◌*◌, ◌/◌, ◌%◌, ◌==◌, ◌!=◌, ltb, Bool, true, Option, none, some, if◌then◌else◌,
}
use protura.Base.Errno.{Status, ok, err, enospc, e2big}
use protura.Base.Word.{add32, sub32}
use protura.Base.Arrays.{update}
use protura.Ext2.{SuperBlock, sector_invalid, ext2_block_alloc, ext2_block_release}

-- `struct ext2_inode`: `blk_ptrs` holds the arrays `blk_ptrs_direct`, `blk_ptrs_single`,
-- `blk_ptrs_double` and `blk_ptrs_triple`, by the number of the blocks of pointers on the way.
pub record Inode : Type 0 where
  pub size : ℕ
  pub blocks : ℕ
  pub blk_ptrs : ℕ → ℕ → ℕ
  pub dirty : Bool

-- A file of a file system, with the words of the blocks.
pub record Fs : Type 0 where
  pub sb : SuperBlock
  pub inode : Inode
  pub words : ℕ → ℕ → ℕ

-- `ARRAY_SIZE(inode->blk_ptrs_direct)`
abbrev pub direct_ptrs : ℕ
direct_ptrs = 12

-- `ptrs_per_blk`
abbrev pub ptrs_per_blk : Fs → ℕ
ptrs_per_blk fs = fs.sb.block_size / 4

-- `sb->block_size / EXT2_BLOCKS_SECTOR_SIZE`
abbrev pub sectors_per_blk : Fs → ℕ
sectors_per_blk fs = fs.sb.block_size / 512

-- A place that holds the number of a block: an entry of the inode, or a word of a block.
pub data Cell : Type 0 where
  in_inode : ℕ → ℕ → Cell
  in_block : ℕ → ℕ → Cell

unfoldable pub get : Fs → Cell → ℕ
get fs (in_inode level k) = fs.inode.blk_ptrs level k
get fs (in_block b k) = fs.words b k

unfoldable pub put : Fs → Cell → ℕ → Fs
put fs (in_inode level k) v = record fs {
  inode = record (fs.inode) {
    blk_ptrs = update fs.inode.blk_ptrs level (update (fs.inode.blk_ptrs level) k v);
  };
}
put fs (in_block b k) v = record fs { words = update fs.words b (update (fs.words b) k v) }

-- A block that was allocated is zeroed, and counted in the inode.
unfoldable pub zero_allocated : Fs → SuperBlock × ℕ → Fs × ℕ
zero_allocated fs (sb, iblock) =
    if iblock == sector_invalid then (record fs { sb = sb }, sector_invalid) else (
      record fs {
        sb = sb;
        words = update fs.words iblock (λ k. 0);
        inode = record (fs.inode) { blocks = add32 fs.inode.blocks (sectors_per_blk fs) };
      },
      iblock,
    )

-- `ext2_alloc_block_zero`
unfoldable pub alloc_block_zero : Fs → Fs × ℕ
alloc_block_zero fs = zero_allocated fs (ext2_block_alloc fs.sb)

-- A new block of pointers goes into its cell.
unfoldable pub put_new : Cell → Fs × ℕ → Fs × Option ℕ
put_new c (fs, new) = if new == sector_invalid then (fs, none) else (put fs c new, some new)

-- The block of pointers that a cell names, allocated if it names none: `none` is -ENOSPC.
unfoldable pub ensure : Fs → Cell → Fs × Option ℕ
ensure fs c = if get fs c == 0 then put_new c (alloc_block_zero fs) else (fs, some (get fs c))

-- The rest of a mapping, in the block that was found.
unfoldable pub when_found : Fs × Option ℕ → (Fs → ℕ → Fs × Status) → Fs × Status
when_found (fs, none) rest = (fs, err enospc)
when_found (fs, some b) rest = rest fs b

unfoldable pub map_in_block : ℕ → ℕ → Fs → ℕ → Fs × Status
map_in_block direct_blk alloc_sector fs b = (put fs (in_block b direct_blk) alloc_sector, ok)

-- `ext2_map_indirect`
unfoldable pub map_indirect : Fs → ℕ → ℕ → Fs × Status
map_indirect fs inode_sector alloc_sector =
    let p = ptrs_per_blk fs in
    when_found (ensure fs (in_inode 1 (inode_sector / p)))
      (map_in_block (inode_sector % p) alloc_sector)

-- `ext2_map_dindirect`
unfoldable pub map_dindirect : Fs → ℕ → ℕ → Fs × Status
map_dindirect fs inode_sector alloc_sector =
    let p = ptrs_per_blk fs in
    when_found (ensure fs (in_inode 2 (inode_sector / p / p))) (λ fs2 b2.
      when_found (ensure fs2 (in_block b2 (inode_sector / p % p)))
        (map_in_block (inode_sector % p) alloc_sector))

-- `ext2_map_tindirect`
unfoldable pub map_tindirect : Fs → ℕ → ℕ → Fs × Status
map_tindirect fs inode_sector alloc_sector =
    let p = ptrs_per_blk fs in
    when_found (ensure fs (in_inode 3 (inode_sector / p / p / p))) (λ fs3 b3.
      when_found (ensure fs3 (in_block b3 (inode_sector / p / p % p))) (λ fs2 b2.
        when_found (ensure fs2 (in_block b2 (inode_sector / p % p)))
          (map_in_block (inode_sector % p) alloc_sector)))

-- A word of a block of pointers, if there is such a block.
unfoldable pub word_of : Fs → ℕ → ℕ → ℕ
word_of fs b k = if b == 0 then b else fs.words b k

-- `ret` where a branch of `ext2_bmap` ends, given the entry of the inode.
unfoldable pub from_entry : ℕ → ℕ → ℕ
from_entry entry ret = if entry == 0 then sector_invalid else ret

-- `return_sector:`
unfoldable pub return_sector : ℕ → ℕ
return_sector ret = if ret == 0 then sector_invalid else ret

unfoldable pub bmap_indirect : Fs → ℕ → ℕ
bmap_indirect fs n =
    let p = ptrs_per_blk fs in
    let entry = fs.inode.blk_ptrs 1 (n / p) in from_entry entry (fs.words entry (n % p))

unfoldable pub bmap_dindirect : Fs → ℕ → ℕ
bmap_dindirect fs n =
    let p = ptrs_per_blk fs in
    let entry = fs.inode.blk_ptrs 2 (n / p / p) in
    from_entry entry (word_of fs (fs.words entry (n / p % p)) (n % p))

unfoldable pub bmap_tindirect : Fs → ℕ → ℕ
bmap_tindirect fs n =
    let p = ptrs_per_blk fs in
    let entry = fs.inode.blk_ptrs 3 (n / p / p / p) in
    from_entry entry (word_of fs (word_of fs (fs.words entry (n / p / p % p)) (n / p % p)) (n % p))

-- The sectors after the direct ones: `n` counts from the first of them.
unfoldable pub bmap_blocks : Fs → ℕ → ℕ
bmap_blocks fs n =
    let p = ptrs_per_blk fs in
    if ltb n p
    then bmap_indirect fs n
    else if ltb (n - p) (p * p)
    then bmap_dindirect fs (n - p)
    else if ltb (n - p - p * p) (p * p * p)
    then bmap_tindirect fs (n - p - p * p)
    else sector_invalid

unfoldable pub ext2_bmap : Fs → ℕ → ℕ
ext2_bmap fs inode_sector =
    if ltb inode_sector direct_ptrs
    then return_sector (fs.inode.blk_ptrs 0 inode_sector)
    else if ltb (fs.inode.size / fs.sb.block_size) inode_sector
    then sector_invalid
    else return_sector (bmap_blocks fs (inode_sector - direct_ptrs))

-- The choice between the three kinds of indirect blocks.
unfoldable pub map_blocks : Fs → ℕ → ℕ → Fs × Status
map_blocks fs n alloc_sector =
    let p = ptrs_per_blk fs in
    if ltb n p
    then map_indirect fs n alloc_sector
    else if ltb (n - p) (p * p)
    then map_dindirect fs (n - p) alloc_sector
    else if ltb (n - p - p * p) (p * p * p)
    then map_tindirect fs (n - p - p * p) alloc_sector
    else (fs, err e2big)

-- `ext2_block_release` for a file.
unfoldable pub release : Fs → ℕ → Fs
release fs b = record fs {
  sb = ext2_block_release fs.sb b;
  inode = record (fs.inode) { blocks = sub32 fs.inode.blocks (sectors_per_blk fs) };
}

unfoldable pub inode_set_dirty : Fs → Fs
inode_set_dirty fs = record fs { inode = record (fs.inode) { dirty = true } }

-- What follows the mapping: an error gives the block back.
unfoldable pub finish_map : ℕ → Fs × Status → Fs × ℕ
finish_map ret (fs, ok) = (inode_set_dirty fs, ret)
finish_map ret (fs, err e) = (release fs ret, sector_invalid)

-- The block that was allocated for the sector is mapped.
unfoldable pub map_new : ℕ → Fs × ℕ → Fs × ℕ
map_new inode_sector (fs, ret) =
    if ret == sector_invalid
    then (fs, sector_invalid)
    else if ltb inode_sector direct_ptrs
    then (inode_set_dirty (put fs (in_inode 0 inode_sector) ret), ret)
    else finish_map ret (map_blocks fs (inode_sector - direct_ptrs) ret)

unfoldable pub ext2_bmap_alloc : Fs → ℕ → Fs × ℕ
ext2_bmap_alloc fs inode_sector =
    if ext2_bmap fs inode_sector != sector_invalid
    then (fs, ext2_bmap fs inode_sector)
    else map_new inode_sector (alloc_block_zero fs)
