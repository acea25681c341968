-- ===== src/Ext2.antt =====
-- src/fs/ext2/bmap.c: the blocks of an ext2 file system that are given to its files and taken
-- back. The super block is locked by its mutex and a block by its lock, so that each function is
-- one step here. A block's data is an array of 32-bit words; the bits of a block bitmap, which no
-- file reaches, stand beside it, as an array of bits for each group.
pub mod Bits
pub mod Alloc
pub mod Take
pub mod Free
pub mod Release
pub mod Map
pub mod Tree
pub mod Writes
pub mod Grow
pub mod Link
pub mod Ensure
pub mod Mapped
pub mod Reads
pub mod Grown
pub mod Maps
mod Examples
use protura.Base.{
  ℕ, zero, suc, ◌+◌, ◌-◌, ◌*◌, ◌/◌, ◌%◌, ◌^◌, ◌==◌, ◌!=◌, ◌&&◌, ltb, Bool, true, false, Option,
  none, some, if◌then◌else◌,
}
use protura.Base.Word.{u32_mod, add32, sub32}
use protura.Base.Arrays.{update}

-- `SECTOR_INVALID`
abbrev pub sector_invalid : ℕ
sector_invalid = 4294967295

-- `CHAR_BIT`
abbrev pub char_bit : ℕ
char_bit = 8

-- `struct ext2_disk_block_group`, with the bits of the block `block_nr_block_bitmap`.
pub record Group : Type 0 where
  pub block_bitmap : ℕ → Bool
  pub block_unused_total : ℕ

-- `struct ext2_super_block` and the fields of its `disksb`.
pub record SuperBlock : Type 0 where
  pub block_size : ℕ
  pub block_group_count : ℕ
  pub blocks_per_block_group : ℕ
  pub block_total : ℕ
  pub block_unused_total : ℕ
  pub sb_block_number : ℕ
  pub groups : ℕ → Group

-- What follows a search that found nothing.
unfoldable pub or_else {ℓ} : {A : Type ℓ} → Option A → Option A → Option A
or_else (some a) next = some a
or_else none next = next

-- The bits of one byte from `k` on, `n` of them.
unfoldable pub find_in_byte : (ℕ → Bool) → ℕ → ℕ → ℕ → Option ℕ
find_in_byte bits i k zero = none
find_in_byte bits i k (suc n) =
    if bits (i * char_bit + k) then find_in_byte bits i (k + 1) n else some (i * char_bit + k)

unfoldable pub is_none : Option ℕ → Bool
is_none none = true
is_none (some loc) = false

-- `b[i] == 0xFF`: no bit of the byte is zero.
unfoldable pub is_full : (ℕ → Bool) → ℕ → Bool
is_full bits i = is_none (find_in_byte bits i 0 char_bit)

-- The loop of `bit_find_next_zero`, with `n` bytes to go: a full byte leaves `start_bit` alone.
unfoldable pub find_in_bytes : (ℕ → Bool) → ℕ → ℕ → ℕ → Option ℕ
find_in_bytes bits i start_bit zero = none
find_in_bytes bits i start_bit (suc n) =
    if is_full bits i
    then find_in_bytes bits (i + 1) start_bit n
    else or_else (find_in_byte bits i start_bit (char_bit - start_bit))
        (find_in_bytes bits (i + 1) 0 n)

-- `bit_find_next_zero`, where `none` is -1.
unfoldable pub bit_find_next_zero : (ℕ → Bool) → ℕ → ℕ → Option ℕ
bit_find_next_zero bits bytes start_loc =
    find_in_bytes bits (start_loc / char_bit) (start_loc % char_bit) (bytes - start_loc / char_bit)

unfoldable pub bit_find_first_zero : (ℕ → Bool) → ℕ → Option ℕ
bit_find_first_zero bits bytes = bit_find_next_zero bits bytes 0

-- `max_block_location`
unfoldable pub max_block_location : SuperBlock → ℕ → ℕ
max_block_location sb i =
    if i == sb.block_group_count - 1
    then sb.block_total - i * sb.blocks_per_block_group
    else sb.blocks_per_block_group

-- The number of a block, from its group and its place there.
unfoldable pub block_number : SuperBlock → ℕ → ℕ → ℕ
block_number sb i location =
    (i * sb.blocks_per_block_group + location + sb.sb_block_number) % u32_mod

-- The bit of the block is set and the group has one unused block less.
unfoldable pub mark : SuperBlock → ℕ → ℕ → SuperBlock
mark sb i location = record sb {
  groups = update sb.groups i (record {
    block_bitmap = update (sb.groups i).block_bitmap location true;
    block_unused_total = ((sb.groups i).block_unused_total + 2 ^ 16 - 1) % 2 ^ 16;
  });
}

unfoldable pub mark_found : SuperBlock → ℕ → Option ℕ → Option (SuperBlock × ℕ)
mark_found sb i none = none
mark_found sb i (some location) =
    if ltb location (max_block_location sb i)
    then some (mark sb i location, block_number sb i location)
    else none

-- One turn of the loop.
unfoldable pub mark_in_group : SuperBlock → ℕ → Option (SuperBlock × ℕ)
mark_in_group sb i =
    if (sb.groups i).block_unused_total == 0
    then none
    else mark_found sb i (bit_find_first_zero (sb.groups i).block_bitmap sb.block_size)

-- The loop over the groups from `i` on, with `n` of them to go.
unfoldable pub mark_in_groups : SuperBlock → ℕ → ℕ → Option (SuperBlock × ℕ)
mark_in_groups sb i zero = none
mark_in_groups sb i (suc n) = or_else (mark_in_group sb i) (mark_in_groups sb (i + 1) n)

-- `__ext2_mark_block`
unfoldable pub mark_block : SuperBlock → Option (SuperBlock × ℕ)
mark_block sb = mark_in_groups sb 0 sb.block_group_count

unfoldable pub count_marked : SuperBlock → Option (SuperBlock × ℕ) → SuperBlock × ℕ
count_marked sb none = (sb, sector_invalid)
count_marked sb (some (marked, ret)) =
    (record marked { block_unused_total = sub32 marked.block_unused_total 1 }, ret)

unfoldable pub ext2_block_alloc : SuperBlock → SuperBlock × ℕ
ext2_block_alloc sb = count_marked sb (mark_block sb)

-- The part of `ext2_block_release` that holds the mutex. The source keeps the number in an int, so
-- that one from 2^31 on would give a negative group; here it is a number below 2^31.
unfoldable pub ext2_block_release : SuperBlock → ℕ → SuperBlock
ext2_block_release sb orig_block =
    let block = sub32 orig_block sb.sb_block_number in
    let group = block / sb.blocks_per_block_group in
    let index = block % sb.blocks_per_block_group in
    record sb {
      groups = update sb.groups group (record {
        block_bitmap = update (sb.groups group).block_bitmap index false;
        block_unused_total = ((sb.groups group).block_unused_total + 1) % 2 ^ 16;
      });
      block_unused_total = add32 sb.block_unused_total 1;
    }
