-- ===== src/Ext2/Maps.antt =====
-- `ext2_bmap_alloc` on every path.
use protura.Base.{
  ℕ, ◌+◌, ◌-◌, ◌*◌, ◌/◌, ◌≤◌, ◌<◌, ◌==◌, ltb, ◌≡◌, ◌≢◌, refl, ◌∙◌, sym, subst, true, false, List,
  [], ◌∷◌, length, arith, Bool-cases, ==_iff, inl, inr,
}
use protura.Base.Errno.{Status}
use protura.Ext2.{sector_invalid}
use protura.Ext2.Free.{block_at-fits}
use protura.Ext2.Map.{
  Fs, in_inode, put, ptrs_per_blk, return_sector, ext2_bmap, map_blocks, release, inode_set_dirty,
  finish_map, map_new, ext2_bmap_alloc,
}
use protura.Ext2.Tree.{lookup, cell_of, HasParent, IsTree, IsLoose}
use protura.Ext2.Grow.{Zeroed, no_block, zeroed, alloc_block_zero-Zeroed}
use protura.Ext2.Mapped.{
  Maps-more, Linked, Maps, not_mapped, mapped, put_at-Linked, map_indirect-Maps, map_dindirect-Maps,
  map_tindirect-Maps,
}
use protura.Ext2.Reads.{
  level, path, max_sectors, file_block, is_looked_for, length-path, ext2_bmap-file_block,
}
use protura.Ext2.Grown.{
  is_looked_for-same, release-SameFile, inode_set_dirty-Linked, kept_block, BmapAllocs, allocs,
  no_space, SameFile-BmapAllocs, Linked-BmapAllocs,
}

-- The kind of indirect blocks is that of the address.
map_blocks-Maps :
    (fs : Fs) (n v : ℕ)
    → IsTree fs
    → IsLoose fs v
    → ltb n 12 ≡ false
    → n < max_sectors (ptrs_per_blk fs)
    → lookup fs (level (ptrs_per_blk fs) n) (path (ptrs_per_blk fs) n) ≡ 0
    → Maps fs (level (ptrs_per_blk fs) n) (path (ptrs_per_blk fs) n) v 3 (map_blocks fs (n - 12) v)
unfolding map_blocks level path
map_blocks-Maps fs n v t o later h missing =
    let p = ptrs_per_blk fs in
    elim (Bool-cases (ltb (n - 12) p)) [
      | inl one ↦
          rw (later, one)
            (Maps-more fs 1 _ v 1 3 _ (omega arith)
              (map_indirect-Maps fs (n - 12) v t o (rw (later, one) at missing)))
      | inr more ↦ elim (Bool-cases (ltb (n - 12 - p) (p * p))) [
        | inl two ↦
            rw (later, more, two)
              (Maps-more fs 2 _ v 2 3 _ (omega arith)
                (map_dindirect-Maps fs (n - 12 - p) v t o (rw (later, more, two) at missing)))
        | inr rest ↦
            let three : ltb (n - 12 - p - p * p) (p * p * p) ≡ true =
              ground (arith, later, more, rest, h) in
            rw (later, more, rest, three)
              (map_tindirect-Maps fs (n - 12 - p - p * p) v t o (rw (later, more, rest) at missing))
      ]
    ]

finish_map-BmapAllocs :
    (fs : Fs) (n v : ℕ) (r : Fs × Status)
    → IsTree fs
    → IsLoose fs v
    → v ≢ sector_invalid
    → n < max_sectors (ptrs_per_blk fs)
    → is_looked_for fs n ≡ true
    → Maps fs (level (ptrs_per_blk fs) n) (path (ptrs_per_blk fs) n) v 3 r
    → BmapAllocs fs n 3 (finish_map v r)
unfolding finish_map
finish_map-BmapAllocs fs n v r t o valid h w (mapped fs' k) =
    Linked-BmapAllocs fs (inode_set_dirty fs') n 3 v o.there valid h w
      (inode_set_dirty-Linked fs (level (ptrs_per_blk fs) n) (path (ptrs_per_blk fs) n) v fs' k)
finish_map-BmapAllocs fs n v r t o valid h w (not_mapped fs' e g few) =
    let k = release-SameFile fs' v g.tree (g.loose v o) in
    SameFile-BmapAllocs fs (release fs' v) n 3
      (record {
        layout = record {
          size = k.layout.size ∙ g.layout.size;
          blocks = λ s i. k.layout.blocks s (g.layout.blocks s i);
          narrow = λ n. k.layout.narrow (g.layout.narrow n);
        };
        size = k.size ∙ g.size;
        tree = k.tree;
        mapped = λ l a la. k.mapped l a la ∙ g.mapped l a la;
      })
      few

-- Blocks with an address have valid numbers.
lookup-valid :
    (fs : Fs) (l : ℕ) (a : List ℕ)
    → IsTree fs
    → length a ≤ l + 1
    → lookup fs l a ≢ 0
    → lookup fs l a ≢ sector_invalid
lookup-valid fs l a t la there e =
    let i = t.blocks l a la there in
    let fits =
      block_at-fits fs.sb i.group i.place t.counts i.in_groups
        (omega (arith, t.counts.limits i.group i.in_groups, i.in_group)) in
    omega (arith, i.number, fits, e)

-- A sector that `ext2_bmap` looks for and does not find has no block.
nothing_mapped :
    (fs : Fs) (n : ℕ)
    → IsTree fs
    → n < max_sectors (ptrs_per_blk fs)
    → is_looked_for fs n ≡ true
    → ext2_bmap fs n ≡ sector_invalid
    → lookup fs (level (ptrs_per_blk fs) n) (path (ptrs_per_blk fs) n) ≡ 0
unfolding file_block return_sector
nothing_mapped fs n t h w e =
    let l = level (ptrs_per_blk fs) n in
    let a = path (ptrs_per_blk fs) n in
    let r = rw w at (sym (ext2_bmap-file_block fs n t.narrow.size_fits h) ∙ e) in
    elim (Bool-cases (lookup fs l a == 0)) [
      | inl missing ↦ (==_iff (lookup fs l a) 0).0 missing
      | inr there ↦ absurd (
          lookup-valid fs l a t (omega (arith, length-path (ptrs_per_blk fs) n))
            (ground (arith, there)) (rw there at r))
    ]

direct-Linked :
    (fs : Fs) (n v : ℕ)
    → IsTree fs
    → IsLoose fs v
    → ltb n 12 ≡ true
    → lookup fs (level (ptrs_per_blk fs) n) (path (ptrs_per_blk fs) n) ≡ 0
    → Linked fs (level (ptrs_per_blk fs) n) (path (ptrs_per_blk fs) n) v (put fs (in_inode 0 n) v)
unfolding level path cell_of HasParent
direct-Linked fs n v t o direct missing =
    rw direct (put_at-Linked fs 0 (n ∷ []) v t o refl tt (rw direct at missing))

map_new-BmapAllocs :
    (fs : Fs) (n v : ℕ)
    → IsTree fs
    → IsLoose fs v
    → v ≢ sector_invalid
    → n < max_sectors (ptrs_per_blk fs)
    → is_looked_for fs n ≡ true
    → ext2_bmap fs n ≡ sector_invalid
    → BmapAllocs fs n 3 (map_new n (fs, v))
unfolding map_new
map_new-BmapAllocs fs n v t o valid h w e =
    let missing = nothing_mapped fs n t h w e in
    let good : (v == sector_invalid) ≡ false = ground (arith, valid) in
    elim (Bool-cases (ltb n 12)) [
      | inl direct ↦
          rw (good, direct)
            (Linked-BmapAllocs fs _ n 3 v o.there valid h w (
              inode_set_dirty-Linked fs (level (ptrs_per_blk fs) n) (path (ptrs_per_blk fs) n) v _
                (direct-Linked fs n v t o direct missing)))
      | inr later ↦
          rw (good, later)
            (finish_map-BmapAllocs fs n v _ t o valid h w
              (map_blocks-Maps fs n v t o later h missing))
    ]

-- The same from a state where the sectors have the same blocks.
BmapAllocs-from :
    (fs fs1 : Fs) (n : ℕ) (r : Fs × ℕ)
    → fs1.sb.block_size ≡ fs.sb.block_size
    → ((m : ℕ) → m < max_sectors (ptrs_per_blk fs) → ext2_bmap fs1 m ≡ ext2_bmap fs m)
    → fs1.sb.block_unused_total + 1 ≡ fs.sb.block_unused_total
    → BmapAllocs fs1 n 3 r
    → BmapAllocs fs n 4 r
BmapAllocs-from fs fs1 n r size same less (allocs fs' ret valid t e others) =
    allocs fs' ret valid t e (λ m h other.
      others m (subst (λ (x : ℕ). m < max_sectors (x / 4)) (sym size) h) other ∙ same m h)
BmapAllocs-from fs fs1 n r size same less (no_space fs' t others few) =
    no_space fs' t
      (λ m h. others m (subst (λ (x : ℕ). m < max_sectors (x / 4)) (sym size) h) ∙ same m h)
      (omega (arith, few, less))

map_allocated-BmapAllocs :
    (fs : Fs) (n : ℕ) (r : Fs × ℕ)
    → IsTree fs
    → n < max_sectors (ptrs_per_blk fs)
    → is_looked_for fs n ≡ true
    → ext2_bmap fs n ≡ sector_invalid
    → Zeroed fs r
    → BmapAllocs fs n 4 (map_new n r)
unfolding map_new
map_allocated-BmapAllocs fs n r t h w e (no_block z) =
    no_space fs t (λ m l. refl) (omega (arith, z))
map_allocated-BmapAllocs fs n r t h w e (zeroed fs1 b g same o small fresh fewer) =
    let kept = λ (m : ℕ) (l : m < max_sectors (ptrs_per_blk fs)).
      kept_block fs fs1 m g.tree.narrow.size_fits g.layout g.size l (
        same (level (ptrs_per_blk fs) m) (path (ptrs_per_blk fs) m)
          (omega (arith, length-path (ptrs_per_blk fs) m))) in
    BmapAllocs-from fs fs1 n _ g.layout.size kept fewer (
      map_new-BmapAllocs fs1 n b g.tree o (omega (arith, small))
        (subst (λ (x : ℕ). n < max_sectors (x / 4)) (sym g.layout.size) h)
        (is_looked_for-same fs fs1 n g.layout.size g.size ∙ w) (kept n h ∙ e))

-- In a file system whose block numbers are below 2^31, whose blocks are of at most a page, and
-- whose bitmaps, counts and pointers agree, `ext2_bmap_alloc` of a sector that `ext2_bmap` looks
-- for ends with the sector mapped to the block that it returns, every other sector mapped as
-- before, and a file system as before; or it returns the invalid sector, has changed the map of no
-- sector, and fewer than the four blocks it may need were left.
pub ext2_bmap_alloc-BmapAllocs :
    (fs : Fs) (n : ℕ)
    → IsTree fs
    → n < max_sectors (ptrs_per_blk fs)
    → is_looked_for fs n ≡ true
    → BmapAllocs fs n 4 (ext2_bmap_alloc fs n)
unfolding ext2_bmap_alloc
ext2_bmap_alloc-BmapAllocs fs n t h w = elim (Bool-cases (ext2_bmap fs n == sector_invalid)) [
  | inl missing ↦ rw missing (
      map_allocated-BmapAllocs fs n _ t h w ((==_iff (ext2_bmap fs n) sector_invalid).0 missing)
        (alloc_block_zero-Zeroed fs t))
  | inr there ↦
      rw there (allocs fs (ext2_bmap fs n) (ground (arith, there)) t refl (λ m l other. refl))
]
