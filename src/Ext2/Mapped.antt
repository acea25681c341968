-- ===== src/Ext2/Mapped.antt =====
-- The mapping of an allocated block at an address, through one, two and three blocks of pointers.
use protura.Base.{
  ℕ, ◌+◌, ◌/◌, ◌%◌, ◌≤◌, ◌<◌, ◌==◌, ◌&&◌, ◌≡◌, ◌≢◌, refl, ◌∙◌, sym, false, Option, List, [], ◌∷◌,
  length, arith,
}
use protura.Base.Errno.{Errno, Status, ok, err}
use protura.Ext2.Free.{SameLayout}
use protura.Ext2.Map.{
  Fs, in_inode, in_block, ensure, when_found, map_in_block, map_indirect, map_dindirect,
  map_tindirect, ptrs_per_blk,
}
use protura.Ext2.Tree.{
  path1, path2, path3, lookup, cell_of, same_path, HasParent, IsTree, IsLoose, put_at,
}
use protura.Ext2.Grow.{Grows, Grows-trans}
use protura.Ext2.Link.{put-sb, put-size, linked-new, linked-old, linked-IsTree}
use protura.Ext2.Ensure.{Ensures, no_room, ensured, ensure-Ensures}

-- The block `v` has the address, and the other blocks of data have theirs.
pub record Linked (fs : Fs) (l : ℕ) (a : List ℕ) (v : ℕ) (fs' : Fs) : Type 0 where
  pub layout : SameLayout fs.sb fs'.sb
  pub size : fs'.inode.size ≡ fs.inode.size
  pub tree : IsTree fs'
  pub here : lookup fs' l a ≡ v
  pub others :
      (m : ℕ) (b : List ℕ)
      → length b ≡ m + 1
      → ((l == m) && same_path a b) ≡ false
      → lookup fs' m b ≡ lookup fs m b

-- The block is mapped; or fewer than `q` blocks were left, and no block of the file has moved.
pub data Maps (fs : Fs) (l : ℕ) (a : List ℕ) (v q : ℕ) : Fs × Status → Type 0 where
  not_mapped :
      (fs' : Fs) (e : Errno)
      → Grows fs fs'
      → fs.sb.block_unused_total < q
      → Maps fs l a v q (fs', err e)
  mapped : (fs' : Fs) → Linked fs l a v fs' → Maps fs l a v q (fs', ok)

pub put_at-Linked :
    (fs : Fs) (l : ℕ) (a : List ℕ) (v : ℕ)
    → IsTree fs
    → IsLoose fs v
    → length a ≡ l + 1
    → HasParent fs l a
    → lookup fs l a ≡ 0
    → Linked fs l a v (put_at fs l a v)
put_at-Linked fs l a v t o la ha ea =
    let la' : length a ≤ l + 1 = omega (arith, la) in
    record {
      layout =
          rw (put-sb fs (cell_of fs l a) v)
            (record { size = refl; blocks = λ s i. i; narrow = λ n. n });
      size = put-size fs (cell_of fs l a) v;
      tree = linked-IsTree fs l a v t o la' ha ea;
      here = linked-new fs l a v t o la' ha ea;
      others = λ m b lb other. linked-old fs l a v t o la' ha ea m b (omega (arith, lb)) other;
    }

map_in_block-Maps :
    (fs : Fs) (l k j : ℕ) (a : List ℕ) (v p q : ℕ)
    → IsTree fs
    → IsLoose fs v
    → length a + 2 ≡ l + 1
    → lookup fs l (j ∷ a) ≡ p
    → p ≢ 0
    → lookup fs l (k ∷ j ∷ a) ≡ 0
    → Maps fs l (k ∷ j ∷ a) v q (map_in_block k v fs p)
unfolding map_in_block HasParent cell_of
map_in_block-Maps fs l k j a v p q t o la e there missing = rw (sym e) (
    mapped _
      (put_at-Linked fs l (k ∷ j ∷ a) v t o (omega (arith, la)) (λ z. there (sym e ∙ z)) missing))

Grows-Linked :
    (fs fs1 fs2 : Fs) (l : ℕ) (a : List ℕ) (v : ℕ)
    → Grows fs fs1
    → Linked fs1 l a v fs2
    → Linked fs l a v fs2
Grows-Linked fs fs1 fs2 l a v g k = record {
  layout = record {
    size = k.layout.size ∙ g.layout.size;
    blocks = λ s i. k.layout.blocks s (g.layout.blocks s i);
    narrow = λ n. k.layout.narrow (g.layout.narrow n);
  };
  size = k.size ∙ g.size;
  tree = k.tree;
  here = k.here;
  others = λ m b lb other. k.others m b lb other ∙ g.mapped m b lb;
}

Grows-Maps :
    (fs fs1 : Fs) (l : ℕ) (a : List ℕ) (v q : ℕ) (r : Fs × Status)
    → Grows fs fs1
    → fs.sb.block_unused_total ≤ fs1.sb.block_unused_total + 1
    → Maps fs1 l a v q r
    → Maps fs l a v (q + 1) r
Grows-Maps fs fs1 l a v q r g less (not_mapped fs2 e h few) =
    not_mapped fs2 e (Grows-trans fs fs1 fs2 g h) (omega (arith, few, less))
Grows-Maps fs fs1 l a v q r g less (mapped fs2 k) = mapped fs2 (Grows-Linked fs fs1 fs2 l a v g k)

pub Maps-more :
    (fs : Fs) (l : ℕ) (a : List ℕ) (v q q' : ℕ) (r : Fs × Status)
    → q ≤ q'
    → Maps fs l a v q r
    → Maps fs l a v q' r
Maps-more fs l a v q q' r h (not_mapped fs2 e g few) = not_mapped fs2 e g (omega (arith, few, h))
Maps-more fs l a v q q' r h (mapped fs2 k) = mapped fs2 k

-- A mapping that goes on from a cell, where the block has to be loose and the address free.
when_found-Maps :
    (fs : Fs) (l : ℕ) (a path : List ℕ) (v q : ℕ) (r : Fs × Option ℕ) (rest : Fs → ℕ → Fs × Status)
    → IsLoose fs v
    → length path ≡ l + 1
    → lookup fs l path ≡ 0
    → Ensures fs l a r
    → ((fs' : Fs) (p : ℕ)
        → IsTree fs'
        → IsLoose fs' v
        → lookup fs' l a ≡ p
        → p ≢ 0
        → lookup fs' l path ≡ 0
        → Maps fs' l path v q (rest fs' p))
    → Maps fs l path v (q + 1) (when_found r rest)
unfolding when_found
when_found-Maps fs l a path v q r rest o lp missing (no_room fs' g z) h =
    not_mapped fs' _ g (omega (arith, z))
when_found-Maps fs l a path v q r rest o lp missing (ensured fs' p g e there less) h =
    Grows-Maps fs fs' l path v q _ g less
      (h fs' p g.tree (g.loose v o) e there (g.mapped l path lp ∙ missing))

ensure_entry :
    (fs : Fs) (l k : ℕ) → IsTree fs → 1 ≤ l → Ensures fs l (k ∷ []) (ensure fs (in_inode l k))
unfolding cell_of HasParent
ensure_entry fs l k t h = ensure-Ensures fs l (k ∷ []) t (omega (arith, h)) tt

ensure_below :
    (fs : Fs) (l k j : ℕ) (a : List ℕ) (p : ℕ)
    → IsTree fs
    → length a + 2 ≤ l
    → lookup fs l (j ∷ a) ≡ p
    → p ≢ 0
    → Ensures fs l (k ∷ j ∷ a) (ensure fs (in_block p k))
unfolding cell_of HasParent
ensure_below fs l k j a p t h e there =
    rw (sym e) (ensure-Ensures fs l (k ∷ j ∷ a) t (omega (arith, h)) (λ z. there (sym e ∙ z)))

pub map_indirect-Maps :
    (fs : Fs) (n v : ℕ)
    → IsTree fs
    → IsLoose fs v
    → lookup fs 1 (path1 (ptrs_per_blk fs) n) ≡ 0
    → Maps fs 1 (path1 (ptrs_per_blk fs) n) v 1 (map_indirect fs n v)
unfolding map_indirect
map_indirect-Maps fs n v t o missing =
    let p = ptrs_per_blk fs in
    when_found-Maps fs 1 (n / p ∷ []) (n % p ∷ n / p ∷ []) v 0 _ _ o (omega arith) missing
      (ensure_entry fs 1 (n / p) t (omega arith))
      (λ fs1 b t1 o1 e there free.
        map_in_block-Maps fs1 1 (n % p) (n / p) [] v b 0 t1 o1 (omega arith) e there free)

pub map_dindirect-Maps :
    (fs : Fs) (n v : ℕ)
    → IsTree fs
    → IsLoose fs v
    → lookup fs 2 (path2 (ptrs_per_blk fs) n) ≡ 0
    → Maps fs 2 (path2 (ptrs_per_blk fs) n) v 2 (map_dindirect fs n v)
unfolding map_dindirect
map_dindirect-Maps fs n v t o missing =
    let p = ptrs_per_blk fs in
    let x = n / p / p ∷ [] in
    let y = n / p % p ∷ x in
    when_found-Maps fs 2 x (n % p ∷ y) v 1 _ _ o (omega arith) missing
      (ensure_entry fs 2 (n / p / p) t (omega arith))
      (λ fs2 b2 t2 o2 e2 there2 free2.
        when_found-Maps fs2 2 y (n % p ∷ y) v 0 _ _ o2 (omega arith) free2
          (ensure_below fs2 2 (n / p % p) (n / p / p) [] b2 t2 (omega arith) e2 there2)
          (λ fs1 b1 t1 o1 e1 there1 free1.
            map_in_block-Maps fs1 2 (n % p) (n / p % p) x v b1 0 t1 o1 (omega arith) e1 there1
              free1))

pub map_tindirect-Maps :
    (fs : Fs) (n v : ℕ)
    → IsTree fs
    → IsLoose fs v
    → lookup fs 3 (path3 (ptrs_per_blk fs) n) ≡ 0
    → Maps fs 3 (path3 (ptrs_per_blk fs) n) v 3 (map_tindirect fs n v)
unfolding map_tindirect
map_tindirect-Maps fs n v t o missing =
    let p = ptrs_per_blk fs in
    let x = n / p / p / p ∷ [] in
    let y = n / p / p % p ∷ x in
    let z = n / p % p ∷ y in
    when_found-Maps fs 3 x (n % p ∷ z) v 2 _ _ o (omega arith) missing
      (ensure_entry fs 3 (n / p / p / p) t (omega arith))
      (λ fs3 b3 t3 o3 e3 there3 free3.
        when_found-Maps fs3 3 y (n % p ∷ z) v 1 _ _ o3 (omega arith) free3
          (ensure_below fs3 3 (n / p / p % p) (n / p / p / p) [] b3 t3 (omega arith) e3 there3)
          (λ fs2 b2 t2 o2 e2 there2 free2.
            when_found-Maps fs2 3 z (n % p ∷ z) v 0 _ _ o2 (omega arith) free2
              (ensure_below fs2 3 (n / p % p) (n / p / p % p) x b2 t2 (omega arith) e2 there2)
              (λ fs1 b1 t1 o1 e1 there1 free1.
                map_in_block-Maps fs1 3 (n % p) (n / p % p) y v b1 0 t1 o1 (omega arith) e1 there1
                  free1)))
