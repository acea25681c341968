-- ===== src/Ext2/Link.antt =====
-- A loose block is linked into a tree, and the blocks of pointers on the way to an address are
-- made.
use protura.Base.{
  ℕ, ◌+◌, ◌≤◌, ◌==◌, ◌&&◌, ◌≡◌, ◌≢◌, refl, ◌∙◌, sym, subst, true, false, List, length, Bool-cases,
  ==_refl, inl, inr, if◌then◌else◌,
}
use protura.Ext2.{SuperBlock}
use protura.Ext2.Alloc.{in_use}
use protura.Ext2.Free.{IsBlock}
use protura.Ext2.Map.{Fs, Cell, in_inode, in_block, put}
use protura.Ext2.Tree.{
  lookup, cell_of, same_path, same_path_refl, HasParent, IsTree, IsLoose, put_at, same_address,
}
use protura.Ext2.Writes.{lookup-put_at, words-put_at_loose}

pub put-sb : (fs : Fs) (c : Cell) (v : ℕ) → (put fs c v).sb ≡ fs.sb
unfolding put
put-sb fs (in_inode l k) v = refl
put-sb fs (in_block b k) v = refl

pub put-size : (fs : Fs) (c : Cell) (v : ℕ) → (put fs c v).inode.size ≡ fs.inode.size
unfolding put
put-size fs (in_inode l k) v = refl
put-size fs (in_block b k) v = refl

-- The tree after a loose block got an address.
module _ (fs : Fs) (l : ℕ) (a : List ℕ) (v : ℕ) (t : IsTree fs) (o : IsLoose fs v)
    (la : length a ≤ l + 1) (ha : HasParent fs l a) (ea : lookup fs l a ≡ 0) where
  pub linked : Fs
  linked = put_at fs l a v

  -- Every address but the new one has what it had.
  linked-at :
      (m : ℕ) (b : List ℕ)
      → length b ≤ m + 1
      → lookup (put_at fs l a v) m b ≡ (if (l == m) && same_path a b then v else lookup fs m b)
  linked-at m b lb = lookup-put_at fs l a v m b t o la ha ea lb

  pub linked-new : lookup (put_at fs l a v) l a ≡ v
  linked-new = linked-at l a la ∙ rw (==_refl l, same_path_refl a) refl

  pub linked-old :
      (m : ℕ) (b : List ℕ)
      → length b ≤ m + 1
      → ((l == m) && same_path a b) ≡ false
      → lookup (put_at fs l a v) m b ≡ lookup fs m b
  linked-old m b lb e = linked-at m b lb ∙ rw e refl

  linked-alone :
      (m n : ℕ) (b c : List ℕ)
      → length b ≤ m + 1
      → length c ≤ n + 1
      → lookup (put_at fs l a v) m b ≢ 0
      → lookup (put_at fs l a v) m b ≡ lookup (put_at fs l a v) n c
      → ((m == n) && same_path b c) ≡ true
  linked-alone m n b c lb lc there e =
      let at_b = linked-at m b lb in
      let at_c = linked-at n c lc in
      elim (Bool-cases ((l == m) && same_path a b)) [
        | inl new_b ↦ elim (Bool-cases ((l == n) && same_path a c)) [
          | inl new_c ↦
              let x = same_address l m a b new_b in
              let y = same_address l n a c new_c in
              rw (sym x.0, sym x.1, sym y.0, sym y.1, ==_refl l) (same_path_refl a)
          | inr old_c ↦ absurd (o.apart n c lc (sym (rw old_c at at_c) ∙ sym e ∙ rw new_b at at_b))
        ]
        | inr old_b ↦ elim (Bool-cases ((l == n) && same_path a c)) [
          | inl new_c ↦ absurd (o.apart m b lb (sym (rw old_b at at_b) ∙ e ∙ rw new_c at at_c))
          | inr old_c ↦
              let was_b = rw old_b at at_b in
              t.alone m n b c lb lc (λ z. there (was_b ∙ z)) (sym was_b ∙ e ∙ rw old_c at at_c)
        ]
      ]

  linked-used :
      (m : ℕ) (b : List ℕ)
      → length b ≤ m + 1
      → lookup (put_at fs l a v) m b ≢ 0
      → in_use fs.sb (lookup (put_at fs l a v) m b) ≡ true
  linked-used m b lb there =
      let at_b = linked-at m b lb in
      elim (Bool-cases ((l == m) && same_path a b)) [
        | inl new_b ↦ rw (rw new_b at at_b) o.taken
        | inr old_b ↦
            let was_b = rw old_b at at_b in rw was_b (t.used m b lb (λ z. there (was_b ∙ z)))
      ]

  linked-IsBlock :
      (m : ℕ) (b : List ℕ)
      → length b ≤ m + 1
      → lookup (put_at fs l a v) m b ≢ 0
      → IsBlock fs.sb (lookup (put_at fs l a v) m b)
  linked-IsBlock m b lb there =
      let at_b = linked-at m b lb in
      elim (Bool-cases ((l == m) && same_path a b)) [
        | inl new_b ↦ rw (rw new_b at at_b) o.block
        | inr old_b ↦
            let was_b = rw old_b at at_b in rw was_b (t.blocks m b lb (λ z. there (was_b ∙ z)))
      ]

  pub linked-IsTree : IsTree (put_at fs l a v)
  linked-IsTree = record {
    counts = rw (put-sb fs (cell_of fs l a) v) t.counts;
    narrow = rw (put-sb fs (cell_of fs l a) v) t.narrow;
    boot = rw (put-sb fs (cell_of fs l a) v) t.boot;
    alone = linked-alone;
    used = λ m b lb there.
        subst (λ (s : SuperBlock). in_use s (lookup (put_at fs l a v) m b) ≡ true)
          (sym (put-sb fs (cell_of fs l a) v)) (linked-used m b lb there);
    blocks = λ m b lb there.
        subst (λ (s : SuperBlock). IsBlock s (lookup (put_at fs l a v) m b))
          (sym (put-sb fs (cell_of fs l a) v)) (linked-IsBlock m b lb there);
  }

  pub linked-IsLoose : (w : ℕ) → IsLoose fs w → w ≢ v → IsLoose (put_at fs l a v) w
  linked-IsLoose w p other = record {
    block = rw (put-sb fs (cell_of fs l a) v) p.block;
    taken = rw (put-sb fs (cell_of fs l a) v) p.taken;
    there = p.there;
    apart = λ m b lb e. elim (Bool-cases ((l == m) && same_path a b)) [
      | inl new ↦ other (sym e ∙ linked-at m b lb ∙ rw new refl)
      | inr old ↦ p.apart m b lb (sym (linked-old m b lb old) ∙ e)
    ];
    blank = λ k. words-put_at_loose fs l a v w k p la;
  }
