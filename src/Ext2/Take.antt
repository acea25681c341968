-- ===== src/Ext2/Take.antt =====
-- The search of the groups for a free block.
use protura.Base.{
  ℕ, zero, suc, ◌+◌, ◌*◌, ◌≤◌, ◌<◌, ◌==◌, ltb, ◌≡◌, refl, subst, Bool, true, false, Option, none,
  some, arith, Bool-cases, ==_iff, inl, inr,
}
use protura.Base.Arrays.{sum_below}
use protura.Ext2.{
  SuperBlock, or_else, max_block_location, block_number, mark, mark_found, mark_in_group,
  mark_in_groups,
}
use protura.Ext2.Bits.{FirstZero, all_set, first_zero, bit_find_first_zero-FirstZero}
use protura.Ext2.Alloc.{zeros, IsCounted}

zeros-none : (bits : ℕ → Bool) (n : ℕ) → ((j : ℕ) → j < n → bits j ≡ true) → zeros bits n ≡ 0
unfolding zeros sum_below
zeros-none bits zero h = refl
zeros-none bits (suc n) h =
    rw (h n (omega arith)) (omega (arith, zeros-none bits n (λ j l. h j (omega arith))))

pub zeros-le : (bits : ℕ → Bool) (n : ℕ) → zeros bits n ≤ n
unfolding zeros sum_below
zeros-le bits zero = omega arith
zeros-le bits (suc n) = ground (arith, zeros-le bits n)

-- What the search of the groups from `i` on comes to.
pub data Found (sb : SuperBlock) (i : ℕ) : Option (SuperBlock × ℕ) → Type 0 where
  nothing_left :
      ((j : ℕ) → i ≤ j → j < sb.block_group_count → (sb.groups j).block_unused_total ≡ 0)
      → Found sb i none
  found :
      (g k : ℕ)
      → g < sb.block_group_count
      → k < max_block_location sb g
      → (sb.groups g).block_bitmap k ≡ false
      → Found sb i (some (mark sb g k, block_number sb g k))

-- What the search of one group comes to.
data FoundIn (sb : SuperBlock) (g : ℕ) : Option (SuperBlock × ℕ) → Type 0 where
  none_in : (sb.groups g).block_unused_total ≡ 0 → FoundIn sb g none
  found_in :
      (k : ℕ)
      → k < max_block_location sb g
      → (sb.groups g).block_bitmap k ≡ false
      → FoundIn sb g (some (mark sb g k, block_number sb g k))

mark_found-FoundIn :
    (sb : SuperBlock) (g : ℕ) (r : Option ℕ)
    → IsCounted sb
    → g < sb.block_group_count
    → FirstZero (sb.groups g).block_bitmap 0 (sb.block_size * 8) r
    → FoundIn sb g (mark_found sb g r)
unfolding mark_found
mark_found-FoundIn sb g none v l (all_set set) =
    let full =
      zeros-none (sb.groups g).block_bitmap (max_block_location sb g)
        (λ j u. set j (omega arith) (omega (arith, v.limits g l, v.bitmap_fits))) in
    none_in (omega (arith, full, v.counted g l))
mark_found-FoundIn sb g (some loc) v l (first_zero b k u z below) =
    elim (Bool-cases (ltb loc (max_block_location sb g))) [
      | inl e ↦ rw e (found_in loc (ground (arith, e)) z)
      | inr e ↦
          let full =
            zeros-none (sb.groups g).block_bitmap (max_block_location sb g)
              (λ j u. below j (omega arith) (ground (arith, e))) in
          rw e (none_in (omega (arith, full, v.counted g l)))
    ]

mark_in_group-FoundIn :
    (sb : SuperBlock) (g : ℕ)
    → IsCounted sb
    → g < sb.block_group_count
    → FoundIn sb g (mark_in_group sb g)
unfolding mark_in_group
mark_in_group-FoundIn sb g v l = elim (Bool-cases ((sb.groups g).block_unused_total == 0)) [
  | inl e ↦ rw e (none_in (ground (arith, e)))
  | inr e ↦ rw e (
      mark_found-FoundIn sb g _ v l
        (bit_find_first_zero-FirstZero (sb.groups g).block_bitmap sb.block_size))
]

or_else-Found :
    (sb : SuperBlock) (i : ℕ) (r next : Option (SuperBlock × ℕ))
    → i < sb.block_group_count
    → FoundIn sb i r
    → Found sb (i + 1) next
    → Found sb i (or_else r next)
unfolding or_else
or_else-Found sb i (some p) next l (found_in k u z) later = found i k l u z
or_else-Found sb i none none l (none_in e) (nothing_left rest) = nothing_left (λ j a u.
    elim (Bool-cases (i == j)) [
      | inl same ↦ subst (λ (x : ℕ). (sb.groups x).block_unused_total ≡ 0) ((==_iff i j).0 same) e
      | inr other ↦ rest j (ground arith) u
    ])
or_else-Found sb i none (some p) l (none_in e) (found g k a u z) = found g k a u z

pub mark_in_groups-Found :
    (sb : SuperBlock) (i n : ℕ)
    → IsCounted sb
    → i + n ≡ sb.block_group_count
    → Found sb i (mark_in_groups sb i n)
unfolding mark_in_groups
mark_in_groups-Found sb i zero v e = nothing_left (λ j a u. absurd (omega arith))
mark_in_groups-Found sb i (suc n) v e =
    let l : i < sb.block_group_count = omega arith in
    or_else-Found sb i _ _ l (mark_in_group-FoundIn sb i v l)
      (mark_in_groups-Found sb (i + 1) n v (omega arith))
