-- ===== src/Ext2/Release.antt =====
-- What `ext2_block_release` does to the set of free blocks.
use protura.Base.{ℕ, ◌+◌, ◌*◌, ◌%◌, ◌^◌, ◌<◌, ◌≡◌, refl, ◌∙◌, sym, ap, subst, true, false, arith}
use protura.Base.Word.{add32, sub32}
use protura.Base.Arrays.{update, row-at, column-at}
use protura.Ext2.{SuperBlock, max_block_location, ext2_block_release}
use protura.Ext2.Alloc.{in_use, IsCounted, write, zeros-update, block_at, in_use-block_at}
use protura.Ext2.Take.{zeros-le}
use protura.Ext2.Free.{IsBlock, Turns, write-Turns, unused-le, block_at-fits}

-- The release of a block finds its bit.
release_at :
    (sb : SuperBlock) (g k : ℕ)
    → IsCounted sb
    → g < sb.block_group_count
    → k < sb.blocks_per_block_group
    → ext2_block_release sb (block_at sb g k)
      ≡ write sb g k false
          (((sb.groups g).block_unused_total + 1) % 2 ^ 16)
          (add32 sb.block_unused_total 1)
unfolding ext2_block_release
release_at sb g k v l u =
    let m = sb.blocks_per_block_group in
    let e : sub32 (block_at sb g k) sb.sb_block_number ≡ g * m + k =
      omega (arith, block_at-fits sb g k v l u) in
    rw (e, row-at m g k u, column-at m g k u) refl

release_at-Turns :
    (sb : SuperBlock) (g k : ℕ)
    → IsCounted sb
    → g < sb.block_group_count
    → k < max_block_location sb g
    → (sb.groups g).block_bitmap k ≡ true
    → Turns false (block_at sb g k) sb (ext2_block_release sb (block_at sb g k))
      × ((ext2_block_release sb (block_at sb g k)).block_unused_total ≡ sb.block_unused_total + 1)
release_at-Turns sb g k v l u z =
    let fits : k < sb.blocks_per_block_group = omega (arith, v.limits g l) in
    let bits = (sb.groups g).block_bitmap in
    let more_in : ((sb.groups g).block_unused_total + 1) % 2 ^ 16
        ≡ (sb.groups g).block_unused_total + 1 =
      omega (
        arith,
        zeros-le (update bits k false) (max_block_location sb g),
        v.limits g l,
        v.counted g l,
        v.count_fits,
        rw z at (zeros-update bits (max_block_location sb g) k false u),
      ) in
    let more : add32 sb.block_unused_total 1 ≡ sb.block_unused_total + 1 =
      omega (arith, unused-le sb v) in
    rw (release_at sb g k v l fits) (
      write-Turns sb g k false _ _ v l u (rw (z, more_in) (omega arith))
          (rw (z, more) (omega arith)),
      more,
    )

pub ext2_block_release-Turns :
    (sb : SuperBlock) (s : ℕ)
    → IsCounted sb
    → IsBlock sb s
    → in_use sb s ≡ true
    → Turns false s sb (ext2_block_release sb s)
      × ((ext2_block_release sb s).block_unused_total ≡ sb.block_unused_total + 1)
ext2_block_release-Turns sb s v i e =
    let fits : i.place < sb.blocks_per_block_group =
      omega (arith, v.limits i.group i.in_groups, i.in_group) in
    let bit : (sb.groups i.group).block_bitmap i.place ≡ true =
      sym (in_use-block_at sb i.group i.place fits) ∙ ap (in_use sb) i.number ∙ e in
    subst
      (λ (x : ℕ).
        Turns false x sb (ext2_block_release sb x)
        × ((ext2_block_release sb x).block_unused_total ≡ sb.block_unused_total + 1))
      i.number (release_at-Turns sb i.group i.place v i.in_groups i.in_group bit)
