-- ===== src/Ext2/Alloc.antt =====
-- The free blocks of a file system as a set: what the allocation of a block and its release do to
-- it, and the counts of unused blocks.
use protura.Base.{
  ℕ, zero, suc, ◌+◌, ◌-◌, ◌*◌, ◌/◌, ◌%◌, ◌^◌, ◌≤◌, ◌<◌, ◌==◌, ◌&&◌, ltb, ◌≡◌, refl, sym, Bool, true,
  false, arith, Bool-cases, ==_iff, inl, inr, if◌then◌else◌,
}
use protura.Base.Arrays.{update, sum_below, row-at, column-at, place-at, sum_below-update}
use protura.Ext2.{Group, SuperBlock, sector_invalid, max_block_location}

-- The zero bits below `n`.
unfoldable pub zeros : (ℕ → Bool) → ℕ → ℕ
zeros bits n = sum_below n (λ j. if bits j then 0 else 1)

-- Blocks before the first one of the groups are never free.
unfoldable pub in_use : SuperBlock → ℕ → Bool
in_use sb s =
    if ltb s sb.sb_block_number
    then true
    else (sb.groups ((s - sb.sb_block_number) / sb.blocks_per_block_group)).block_bitmap
        ((s - sb.sb_block_number) % sb.blocks_per_block_group)

-- The layout fits, and the blocks that are counted as unused are those with a zero bit.
pub record IsCounted (sb : SuperBlock) : Type 0 where
  pub bitmap_fits : sb.blocks_per_block_group ≤ sb.block_size * 8
  pub some_blocks : 0 < sb.blocks_per_block_group
  pub count_fits : sb.blocks_per_block_group < 2 ^ 16
  pub numbers_fit :
      sb.block_group_count * sb.blocks_per_block_group + sb.sb_block_number < sector_invalid
  pub limits :
      (i : ℕ) → i < sb.block_group_count → max_block_location sb i ≤ sb.blocks_per_block_group
  pub counted :
      (i : ℕ)
      → i < sb.block_group_count
      → (sb.groups i).block_unused_total
        ≡ zeros (sb.groups i).block_bitmap (max_block_location sb i)
  pub total :
      sb.block_unused_total ≡ sum_below sb.block_group_count (λ i. (sb.groups i).block_unused_total)

-- The numbers of blocks fit into an int, and the blocks into a page.
pub record IsNarrow (sb : SuperBlock) : Type 0 where
  pub numbers_small : sb.block_group_count * sb.blocks_per_block_group + sb.sb_block_number < 2 ^ 31
  pub size_fits : sb.block_size ≤ 4096

-- One bit and the two counts are written.
abbrev pub write : SuperBlock → ℕ → ℕ → Bool → ℕ → ℕ → SuperBlock
write sb g k b unused total = record sb {
  groups = update sb.groups g (record {
    block_bitmap = update (sb.groups g).block_bitmap k b;
    block_unused_total = unused;
  });
  block_unused_total = total;
}

pub zeros-update :
    (bits : ℕ → Bool) (n k : ℕ) (b : Bool)
    → k < n
    → zeros (update bits k b) n + (if bits k then 0 else 1) ≡ zeros bits n + (if b then 0 else 1)
unfolding zeros
zeros-update bits n k b h = sum_below-update n k b bits (λ j c. if c then 0 else 1) h

sum_below-ap : (n : ℕ) (f g : ℕ → ℕ) → ((i : ℕ) → i < n → f i ≡ g i) → sum_below n f ≡ sum_below n g
unfolding sum_below
sum_below-ap zero f g h = refl
sum_below-ap (suc n) f g h =
    omega (arith, sum_below-ap n f g (λ i l. h i (omega arith)), h n (omega arith))

pub sum_below-le : (n b : ℕ) (f : ℕ → ℕ) → ((i : ℕ) → i < n → f i ≤ b) → sum_below n f ≤ n * b
unfolding sum_below
sum_below-le zero b f h = omega arith
sum_below-le (suc n) b f h =
    let e : suc n * b ≡ n * b + b = ground arith in
    omega (arith, sum_below-le n b f (λ i l. h i (omega arith)), h n (omega arith), e)

pub sum_below-zero : (n i : ℕ) (f : ℕ → ℕ) → i < n → sum_below n f ≡ 0 → f i ≡ 0
unfolding sum_below
sum_below-zero zero i f h e = absurd (omega arith)
sum_below-zero (suc n) i f h e = elim (Bool-cases (i == n)) [
  | inl same ↦ ground arith
  | inr other ↦ sum_below-zero n i f (ground arith) (omega arith)
]

pub write-IsCounted :
    (sb : SuperBlock) (g k : ℕ) (b : Bool) (unused t : ℕ)
    → IsCounted sb
    → g < sb.block_group_count
    → unused ≡ zeros (update (sb.groups g).block_bitmap k b) (max_block_location sb g)
    → t + (sb.groups g).block_unused_total ≡ sb.block_unused_total + unused
    → IsCounted (write sb g k b unused t)
unfolding update zeros max_block_location
write-IsCounted sb g k b unused t v l u e = record {
  bitmap_fits = v.bitmap_fits;
  some_blocks = v.some_blocks;
  count_fits = v.count_fits;
  numbers_fit = v.numbers_fit;
  limits = v.limits;
  counted = λ i h. elim (Bool-cases (g == i)) [
    | inl same ↦ rw (same, sym ((==_iff g i).0 same)) u
    | inr other ↦ rw other (v.counted i h)
  ];
  total =
      let s =
        sum_below-update sb.block_group_count g
          (record {
            block_bitmap = update (sb.groups g).block_bitmap k b;
            block_unused_total = unused;
          })
          sb.groups (λ i (x : Group). x.block_unused_total) l in
      omega (arith, s, v.total);
}

-- The block at place `k` of group `g`.
abbrev pub block_at : SuperBlock → ℕ → ℕ → ℕ
block_at sb g k = g * sb.blocks_per_block_group + k + sb.sb_block_number

written_bit :
    (groups : ℕ → Group) (g k q r : ℕ) (b : Bool) (u : ℕ)
    → (update groups g
          (record { block_bitmap = update (groups g).block_bitmap k b; block_unused_total = u })
          q).block_bitmap
        r
      ≡ (if (g == q) && (k == r) then b else (groups q).block_bitmap r)
unfolding update
written_bit groups g k q r b u = elim (Bool-cases (g == q)) [
  | inl same ↦ let e = (==_iff g q).0 same in rw (same, e) refl
  | inr other ↦ rw other refl
]

pub in_use-write :
    (sb : SuperBlock) (g k : ℕ) (b : Bool) (u t s : ℕ)
    → k < sb.blocks_per_block_group
    → in_use (write sb g k b u t) s ≡ (if block_at sb g k == s then b else in_use sb s)
unfolding in_use
in_use-write sb g k b u t s h = elim (Bool-cases (ltb s sb.sb_block_number)) [
  | inl before ↦
      let other : (block_at sb g k == s) ≡ false = ground arith in rw (before, other) refl
  | inr after ↦
      let place : (block_at sb g k == s)
          ≡ (g * sb.blocks_per_block_group + k == s - sb.sb_block_number) =
        ground arith in
      rw (after, place, place-at sb.blocks_per_block_group g k (s - sb.sb_block_number) h)
        (written_bit sb.groups g k _ _ b u)
]

pub in_use-block_at :
    (sb : SuperBlock) (g k : ℕ)
    → k < sb.blocks_per_block_group
    → in_use sb (block_at sb g k) ≡ (sb.groups g).block_bitmap k
unfolding in_use
in_use-block_at sb g k h =
    let m = sb.blocks_per_block_group in
    let e : block_at sb g k - sb.sb_block_number ≡ g * m + k = omega arith in
    let after : ltb (block_at sb g k) sb.sb_block_number ≡ false = ground arith in
    rw (after, e, row-at m g k h, column-at m g k h) refl
