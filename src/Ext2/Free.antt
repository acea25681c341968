-- ===== src/Ext2/Free.antt =====
-- What `ext2_block_alloc` does to the set of free blocks.
use protura.Base.{
  ℕ, zero, suc, ◌+◌, ◌-◌, ◌%◌, ◌^◌, ◌≤◌, ◌<◌, ◌==◌, ◌≡◌, ◌≢◌, refl, ◌∙◌, Bool, true, false, Option,
  none, some, arith, Bool-cases, ==_iff, inl, inr, if◌then◌else◌, ==_refl,
}
use native.Mathlib.Nat.{mul-le-mul_right, mod-eq_of_lt}
use protura.Base.Word.{u32_mod, sub32}
use protura.Base.Arrays.{sum_below}
use protura.Ext2.{
  SuperBlock, sector_invalid, max_block_location, block_number, mark, mark_block, count_marked,
  ext2_block_alloc,
}
use protura.Ext2.Alloc.{
  in_use, IsCounted, IsNarrow, write, zeros-update, sum_below-le, write-IsCounted, block_at,
  in_use-write, in_use-block_at,
}
use protura.Ext2.Take.{Found, nothing_left, found, mark_in_groups-Found, zeros-le}

-- A block that the groups have.
pub record IsBlock (sb : SuperBlock) (s : ℕ) : Type 0 where
  pub group : ℕ
  pub place : ℕ
  pub number : block_at sb group place ≡ s
  pub in_groups : group < sb.block_group_count
  pub in_group : place < max_block_location sb group

-- The sizes of the file system stay.
pub record SameLayout (sb sb' : SuperBlock) : Type 0 where
  pub size : sb'.block_size ≡ sb.block_size
  pub blocks : (s : ℕ) → IsBlock sb s → IsBlock sb' s
  pub narrow : IsNarrow sb → IsNarrow sb'

-- One block goes from being free or in use to the other.
pub record Turns (b : Bool) (s : ℕ) (sb sb' : SuperBlock) : Type 0 where
  pub layout : SameLayout sb sb'
  pub counts : IsCounted sb'
  pub turned : in_use sb' s ≡ b
  pub others : (t : ℕ) → s ≢ t → in_use sb' t ≡ in_use sb t

pub write-Turns :
    (sb : SuperBlock) (g k : ℕ) (b : Bool) (unused t : ℕ)
    → IsCounted sb
    → g < sb.block_group_count
    → k < max_block_location sb g
    → unused + (if (sb.groups g).block_bitmap k then 0 else 1)
      ≡ (sb.groups g).block_unused_total + (if b then 0 else 1)
    → t + (if (sb.groups g).block_bitmap k then 0 else 1)
      ≡ sb.block_unused_total + (if b then 0 else 1)
    → Turns b (block_at sb g k) sb (write sb g k b unused t)
unfolding max_block_location
write-Turns sb g k b unused t v l u e h =
    let z = zeros-update (sb.groups g).block_bitmap (max_block_location sb g) k b u in
    let fits : k < sb.blocks_per_block_group = omega (arith, v.limits g l) in
    record {
      layout = record {
        size = refl;
        blocks = λ s i. record {
          group = i.group;
          place = i.place;
          number = i.number;
          in_groups = i.in_groups;
          in_group = i.in_group;
        };
        narrow = λ n. record { numbers_small = n.numbers_small; size_fits = n.size_fits };
      };
      counts =
          write-IsCounted sb g k b unused t v l (omega (arith, z, e, v.counted g l))
            (omega (arith, e, h));
      turned =
          rw (in_use-write sb g k b unused t (block_at sb g k) fits, ==_refl (block_at sb g k))
            refl;
      others = λ s other.
          (let apart : (block_at sb g k == s) ≡ false = ground (arith, other) in
            rw (in_use-write sb g k b unused t s fits, apart) refl);
    }

pub unused-le : (sb : SuperBlock) → IsCounted sb → sb.block_unused_total < sector_invalid
unused-le sb v =
    let b =
      sum_below-le sb.block_group_count sb.blocks_per_block_group
        (λ i. (sb.groups i).block_unused_total)
        (λ i l. omega (
          arith,
          v.counted i l,
          zeros-le (sb.groups i).block_bitmap (max_block_location sb i),
          v.limits i l,
        )) in
    omega (arith, v.total, v.numbers_fit, b)

sum_below-entry : (n i : ℕ) (f : ℕ → ℕ) → i < n → f i ≤ sum_below n f
unfolding sum_below
sum_below-entry zero i f h = absurd (omega arith)
sum_below-entry (suc n) i f h = elim (Bool-cases (i == n)) [
  | inl same ↦ rw ((==_iff i n).0 same) (omega arith)
  | inr other ↦ omega (arith, sum_below-entry n i f (ground (arith, other)))
]

-- A block is allocated, if one is free.
pub data Allocates (sb : SuperBlock) : SuperBlock × ℕ → Type 0 where
  no_space : sb.block_unused_total ≡ 0 → Allocates sb (sb, sector_invalid)
  allocated :
      (sb' : SuperBlock) (ret : ℕ)
      → IsBlock sb ret
      → ret < sector_invalid
      → in_use sb ret ≡ false
      → Turns true ret sb sb'
      → sb'.block_unused_total + 1 ≡ sb.block_unused_total
      → Allocates sb (sb', ret)

pub block_at-fits :
    (sb : SuperBlock) (g k : ℕ)
    → IsCounted sb
    → g < sb.block_group_count
    → k < sb.blocks_per_block_group
    → block_at sb g k < sector_invalid
block_at-fits sb g k v l u =
    let m =
      mul-le-mul_right {m = suc g} {n = sb.block_group_count} sb.blocks_per_block_group
        (omega arith) in
    omega (arith, m, v.numbers_fit)

count_marked-Allocates :
    (sb : SuperBlock) (r : Option (SuperBlock × ℕ))
    → IsCounted sb
    → Found sb 0 r
    → Allocates sb (count_marked sb r)
unfolding count_marked mark block_number
count_marked-Allocates sb none v (nothing_left rest) = no_space (
    omega (
      arith,
      v.total,
      sum_below-le sb.block_group_count 0 (λ i. (sb.groups i).block_unused_total)
          (λ i l. omega (arith, rest i (omega arith) l)),
    ))
count_marked-Allocates sb (some p) v (found g k l u z) =
    let fits : k < sb.blocks_per_block_group = omega (arith, v.limits g l) in
    let bound = block_at-fits sb g k v l fits in
    let e : block_at sb g k % u32_mod ≡ block_at sb g k = mod-eq_of_lt (omega (arith, bound)) in
    let entry = sum_below-entry sb.block_group_count g (λ i. (sb.groups i).block_unused_total) l in
    let positive : 0 < (sb.groups g).block_unused_total = omega (
      arith,
      v.counted g l,
      rw z at (zeros-update (sb.groups g).block_bitmap (max_block_location sb g) k true u),
    ) in
    let small : (sb.groups g).block_unused_total < 65536 = omega (
      arith,
      v.counted g l,
      v.limits g l,
      v.count_fits,
      zeros-le (sb.groups g).block_bitmap (max_block_location sb g),
    ) in
    let some_left : 0 < sb.block_unused_total = omega (arith, v.total, entry, positive) in
    let most = unused-le sb v in
    let fewer : sub32 sb.block_unused_total 1 + 1 ≡ sb.block_unused_total =
      omega (arith, some_left, most) in
    let fewer_in : ((sb.groups g).block_unused_total + 2 ^ 16 - 1) % 2 ^ 16 + 1
        ≡ (sb.groups g).block_unused_total =
      omega (arith, positive, small) in
    rw e (
      allocated _ (block_at sb g k)
        (record { group = g; place = k; number = refl; in_groups = l; in_group = u }) bound
        (in_use-block_at sb g k fits ∙ z)
        (write-Turns sb g k true _ _ v l u (rw z (omega (arith, fewer_in)))
          (rw z (omega (arith, fewer))))
        fewer)

-- In a file system whose layout fits its words and whose counts are those of its bitmaps,
-- `ext2_block_alloc` returns a block that was free, which is then in use and counted as such while
-- no other block changes; only if the count of unused blocks is 0 it returns the invalid sector and
-- changes nothing.
pub ext2_block_alloc-Allocates :
    (sb : SuperBlock) → IsCounted sb → Allocates sb (ext2_block_alloc sb)
unfolding ext2_block_alloc mark_block
ext2_block_alloc-Allocates sb v =
    count_marked-Allocates sb _ v (mark_in_groups-Found sb 0 sb.block_group_count v (omega arith))
