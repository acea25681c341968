-- ===== src/Ext2/Grown.antt =====
-- `ext2_bmap_alloc`: the sector is mapped to a block of its own, and the other sectors stay.
use protura.Base.{
  ℕ, ◌+◌, ◌/◌, ◌≤◌, ◌<◌, ◌==◌, ◌||◌, not, ltb, ◌≡◌, ◌≢◌, refl, ◌∙◌, sym, ap, subst, true, false,
  List, [], ◌∷◌, length, arith, if◌then◌else◌,
}
use protura.Ext2.{sector_invalid}
use protura.Ext2.Alloc.{in_use, IsCounted, IsNarrow}
use protura.Ext2.Free.{IsBlock, SameLayout}
use protura.Ext2.Release.{ext2_block_release-Turns}
use protura.Ext2.Map.{Fs, ptrs_per_blk, return_sector, ext2_bmap, release, inode_set_dirty, word_of}
use protura.Ext2.Tree.{lookup, IsTree, IsLoose}
use protura.Ext2.Mapped.{Linked}
use protura.Ext2.Reads.{
  level, path, max_sectors, file_block, is_looked_for, length-path, ext2_bmap-file_block,
  path-apart,
}

-- The pointers of two states are the same.
lookup-same :
    (fs fs' : Fs) (l : ℕ) (a : List ℕ)
    → ((m k : ℕ) → fs'.inode.blk_ptrs m k ≡ fs.inode.blk_ptrs m k)
    → ((b k : ℕ) → fs'.words b k ≡ fs.words b k)
    → lookup fs' l a ≡ lookup fs l a
unfolding lookup word_of
lookup-same fs fs' l [] p w = refl
lookup-same fs fs' l (k ∷ []) p w = p l k
lookup-same fs fs' l (k ∷ j ∷ a) p w =
    rw (lookup-same fs fs' l (j ∷ a) p w, w (lookup fs l (j ∷ a)) k) refl

-- A tree stays one if the pointers stay and no block with an address goes out of use.
IsTree-same :
    (fs fs' : Fs)
    → IsTree fs
    → ((l : ℕ) (a : List ℕ) → lookup fs' l a ≡ lookup fs l a)
    → IsCounted fs'.sb
    → IsNarrow fs'.sb
    → ((s : ℕ) → IsBlock fs.sb s → IsBlock fs'.sb s)
    → in_use fs'.sb 0 ≡ true
    → ((l : ℕ) (a : List ℕ)
        → length a ≤ l + 1
        → lookup fs l a ≢ 0
        → in_use fs'.sb (lookup fs l a) ≡ true)
    → IsTree fs'
IsTree-same fs fs' t same c narrow blocks boot used = record {
  counts = c;
  narrow = narrow;
  boot = boot;
  alone = λ l m a b la lb there e.
      t.alone l m a b la lb (λ z. there (same l a ∙ z)) (sym (same l a) ∙ e ∙ same m b);
  used = λ l a la there. rw (same l a) (used l a la (λ z. there (same l a ∙ z)));
  blocks = λ l a la there.
      rw (same l a) (blocks (lookup fs l a) (t.blocks l a la (λ z. there (same l a ∙ z))));
}

pub inode_set_dirty-Linked :
    (fs : Fs) (l : ℕ) (a : List ℕ) (v : ℕ) (fs' : Fs)
    → Linked fs l a v fs'
    → Linked fs l a v (inode_set_dirty fs')
unfolding inode_set_dirty
inode_set_dirty-Linked fs l a v fs' k =
    let same = λ (m : ℕ) (b : List ℕ).
      lookup-same fs' (inode_set_dirty fs') m b (λ x y. refl) (λ x y. refl) in
    record {
      layout = k.layout;
      size = k.size;
      tree =
          IsTree-same fs' (inode_set_dirty fs') k.tree same k.tree.counts k.tree.narrow (λ s i. i)
            k.tree.boot k.tree.used;
      here = same l a ∙ k.here;
      others = λ m b lb other. same m b ∙ k.others m b lb other;
    }

lookup-release : (fs : Fs) (v l : ℕ) (a : List ℕ) → lookup (release fs v) l a ≡ lookup fs l a
unfolding release
lookup-release fs v l a = lookup-same fs (release fs v) l a (λ x y. refl) (λ x y. refl)

-- The blocks of data stay where they are.
pub record SameFile (fs fs' : Fs) : Type 0 where
  pub layout : SameLayout fs.sb fs'.sb
  pub size : fs'.inode.size ≡ fs.inode.size
  pub tree : IsTree fs'
  pub mapped : (l : ℕ) (a : List ℕ) → length a ≡ l + 1 → lookup fs' l a ≡ lookup fs l a

-- A loose block is given back.
pub release-SameFile : (fs : Fs) (v : ℕ) → IsTree fs → IsLoose fs v → SameFile fs (release fs v)
unfolding release
release-SameFile fs v t o =
    let u = (ext2_block_release-Turns fs.sb v t.counts o.block o.taken).0 in
    record {
      layout = u.layout;
      size = refl;
      tree =
          IsTree-same fs (release fs v) t (lookup-release fs v) u.counts (u.layout.narrow t.narrow)
            u.layout.blocks (u.others 0 o.there ∙ t.boot)
            (λ l a la there.
              u.others (lookup fs l a) (λ e. o.apart l a la (sym e)) ∙ t.used l a la there);
      mapped = λ l a la. lookup-release fs v l a;
    }

-- The sector has the block that is returned, and the other sectors what they had; or no sector
-- has another block, none is returned, and fewer than `q` blocks were left.
pub data BmapAllocs (fs : Fs) (n q : ℕ) : Fs × ℕ → Type 0 where
  allocs :
      (fs' : Fs) (ret : ℕ)
      → ret ≢ sector_invalid
      → IsTree fs'
      → ext2_bmap fs' n ≡ ret
      → ((m : ℕ) → m < max_sectors (ptrs_per_blk fs) → n ≢ m → ext2_bmap fs' m ≡ ext2_bmap fs m)
      → BmapAllocs fs n q (fs', ret)
  no_space :
      (fs' : Fs)
      → IsTree fs'
      → ((m : ℕ) → m < max_sectors (ptrs_per_blk fs) → ext2_bmap fs' m ≡ ext2_bmap fs m)
      → fs.sb.block_unused_total < q
      → BmapAllocs fs n q (fs', sector_invalid)

pub is_looked_for-same :
    (fs fs' : Fs) (m : ℕ)
    → fs'.sb.block_size ≡ fs.sb.block_size
    → fs'.inode.size ≡ fs.inode.size
    → is_looked_for fs' m ≡ is_looked_for fs m
unfolding is_looked_for
is_looked_for-same fs fs' m y z =
    ap (λ x. ltb m 12 || not (ltb (x / fs'.sb.block_size) m)) z
    ∙ ap (λ x. ltb m 12 || not (ltb (fs.inode.size / x) m)) y

file_block-same :
    (fs fs' : Fs) (m : ℕ)
    → fs'.sb.block_size ≡ fs.sb.block_size
    → file_block fs' m ≡ lookup fs' (level (ptrs_per_blk fs) m) (path (ptrs_per_blk fs) m)
unfolding file_block
file_block-same fs fs' m y = ap (λ x. lookup fs' (level (x / 4) m) (path (x / 4) m)) y

-- What a sector is mapped to afterwards.
bmap_after :
    (fs fs' : Fs) (m v : ℕ)
    → fs'.sb.block_size ≤ 4096
    → SameLayout fs.sb fs'.sb
    → fs'.inode.size ≡ fs.inode.size
    → m < max_sectors (ptrs_per_blk fs)
    → lookup fs' (level (ptrs_per_blk fs) m) (path (ptrs_per_blk fs) m) ≡ v
    → ext2_bmap fs' m ≡ (if is_looked_for fs m then return_sector v else sector_invalid)
bmap_after fs fs' m v page y z h e =
    let h' = subst (λ (x : ℕ). m < max_sectors (x / 4)) (sym y.size) h in
    rw
      (
        ext2_bmap-file_block fs' m page h',
        is_looked_for-same fs fs' m y.size z,
        file_block-same fs fs' m y.size,
        e,
      )
      refl

-- A sector that keeps its block.
pub kept_block :
    (fs fs' : Fs) (m : ℕ)
    → fs'.sb.block_size ≤ 4096
    → SameLayout fs.sb fs'.sb
    → fs'.inode.size ≡ fs.inode.size
    → m < max_sectors (ptrs_per_blk fs)
    → lookup fs' (level (ptrs_per_blk fs) m) (path (ptrs_per_blk fs) m)
      ≡ lookup fs (level (ptrs_per_blk fs) m) (path (ptrs_per_blk fs) m)
    → ext2_bmap fs' m ≡ ext2_bmap fs m
kept_block fs fs' m page y z h e =
    bmap_after fs fs' m (file_block fs m) page y z h (e ∙ sym (file_block-same fs fs m refl))
    ∙ sym (ext2_bmap-file_block fs m (rw (y.size) at page) h)

pub SameFile-BmapAllocs :
    (fs fs' : Fs) (n q : ℕ)
    → SameFile fs fs'
    → fs.sb.block_unused_total < q
    → BmapAllocs fs n q (fs', sector_invalid)
SameFile-BmapAllocs fs fs' n q k few =
    no_space fs' k.tree
      (λ m h.
        kept_block fs fs' m k.tree.narrow.size_fits k.layout k.size h
          (k.mapped _ _ (length-path (ptrs_per_blk fs) m)))
      few

pub Linked-BmapAllocs :
    (fs fs' : Fs) (n q v : ℕ)
    → v ≢ 0
    → v ≢ sector_invalid
    → n < max_sectors (ptrs_per_blk fs)
    → is_looked_for fs n ≡ true
    → Linked fs (level (ptrs_per_blk fs) n) (path (ptrs_per_blk fs) n) v fs'
    → BmapAllocs fs n q (fs', v)
unfolding return_sector
Linked-BmapAllocs fs fs' n q v there valid h w k =
    let p = ptrs_per_blk fs in
    let here : (v == 0) ≡ false = ground (arith, there) in
    allocs fs' v valid k.tree
      (bmap_after fs fs' n v k.tree.narrow.size_fits k.layout k.size h k.here ∙ rw (w, here) refl)
      (λ m l other.
        kept_block fs fs' m k.tree.narrow.size_fits k.layout k.size l
          (k.others (level p m) (path p m) (length-path p m) (path-apart p n m other)))
