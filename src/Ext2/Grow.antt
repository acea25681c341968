-- ===== src/Ext2/Grow.antt =====
-- How a tree grows: blocks of pointers are allocated and linked, and the blocks with the file's
-- data stay where they are.
use protura.Base.{
  ℕ, ◌+◌, ◌≤◌, ◌<◌, ◌==◌, ◌≡◌, ◌≢◌, refl, ◌∙◌, sym, ap, true, false, List, [], ◌∷◌, length, arith,
  Bool-cases, ==_iff, inl, inr,
}
use protura.Base.Arrays.{update, update_self, update_ne}
use protura.Ext2.{SuperBlock, sector_invalid}
use protura.Ext2.Alloc.{in_use}
use protura.Ext2.Free.{
  IsBlock, SameLayout, Turns, Allocates, no_space, allocated, ext2_block_alloc-Allocates,
}
use protura.Ext2.Map.{Fs, word_of, zero_allocated, alloc_block_zero, sectors_per_blk}
use protura.Base.Word.{add32}
use protura.Ext2.Tree.{lookup, IsTree, IsLoose}

-- The map has the same data, and more blocks of pointers.
pub record Grows (fs fs' : Fs) : Type 0 where
  pub layout : SameLayout fs.sb fs'.sb
  pub size : fs'.inode.size ≡ fs.inode.size
  pub mapped : (l : ℕ) (a : List ℕ) → length a ≡ l + 1 → lookup fs' l a ≡ lookup fs l a
  pub loose : (v : ℕ) → IsLoose fs v → IsLoose fs' v
  pub tree : IsTree fs'

pub Grows-trans : (a b c : Fs) → Grows a b → Grows b c → Grows a c
Grows-trans a b c f g = record {
  layout = record {
    size = g.layout.size ∙ f.layout.size;
    blocks = λ s i. g.layout.blocks s (f.layout.blocks s i);
    narrow = λ n. g.layout.narrow (f.layout.narrow n);
  };
  size = g.size ∙ f.size;
  mapped = λ l p e. g.mapped l p e ∙ f.mapped l p e;
  loose = λ v o. g.loose v (f.loose v o);
  tree = g.tree;
}

pub Grows-refl : (a : Fs) → IsTree a → Grows a a
Grows-refl a t = record {
  layout = record { size = refl; blocks = λ s i. i; narrow = λ n. n };
  size = refl;
  mapped = λ l p e. refl;
  loose = λ v o. o;
  tree = t;
}

-- A block that was free has no address.
free_apart :
    (fs : Fs) (b l : ℕ) (a : List ℕ)
    → IsTree fs
    → in_use fs.sb b ≡ false
    → length a ≤ l + 1
    → lookup fs l a ≢ b
free_apart fs b l a t f la e = elim (Bool-cases (lookup fs l a == 0)) [
  | inl missing ↦
      let z = sym e ∙ (==_iff (lookup fs l a) 0).0 missing in
      absurd (ground (arith, f, rw (sym z) at t.boot))
  | inr there ↦ absurd (ground (arith, f, rw e at (t.used l a la (ground (arith, there)))))
]

free_there : (fs : Fs) (b : ℕ) → IsTree fs → in_use fs.sb b ≡ false → b ≢ 0
free_there fs b t f e = absurd (ground (arith, f, rw (sym e) at t.boot))

-- The state after the allocation of a zeroed block.
abbrev pub zeroed_state : Fs → SuperBlock → ℕ → ℕ → Fs
zeroed_state fs sb b count = record fs {
  sb = sb;
  words = update fs.words b (λ k. 0);
  inode = record (fs.inode) { blocks = count };
}

lookup-zeroed :
    (fs : Fs) (sb : SuperBlock) (b count l : ℕ) (a : List ℕ)
    → IsTree fs
    → in_use fs.sb b ≡ false
    → length a ≤ l + 1
    → lookup (zeroed_state fs sb b count) l a ≡ lookup fs l a
unfolding lookup word_of
lookup-zeroed fs sb b count l [] t f la = refl
lookup-zeroed fs sb b count l (k ∷ []) t f la = refl
lookup-zeroed fs sb b count l (k ∷ j ∷ a) t f la =
    let other = free_apart fs b l (j ∷ a) t f (omega arith) in
    rw
      (
        lookup-zeroed fs sb b count l (j ∷ a) t f (omega arith),
        update_ne fs.words b (lookup fs l (j ∷ a)) (λ k. 0) (λ e. other (sym e)),
      )
      refl

zeroed-IsTree :
    (fs : Fs) (sb : SuperBlock) (b count : ℕ)
    → IsTree fs
    → in_use fs.sb b ≡ false
    → Turns true b fs.sb sb
    → IsTree (zeroed_state fs sb b count)
zeroed-IsTree fs sb b count t f u =
    let fs' = zeroed_state fs sb b count in
    let same =
      λ (l : ℕ) (a : List ℕ) (h : length a ≤ l + 1). lookup-zeroed fs sb b count l a t f h in
    record {
      counts = u.counts;
      narrow = u.layout.narrow t.narrow;
      boot = u.others 0 (free_there fs b t f) ∙ t.boot;
      alone = λ l m p q lp lq there e.
          t.alone l m p q lp lq (λ z. there (same l p lp ∙ z))
            (sym (same l p lp) ∙ e ∙ same m q lq);
      used = λ l p lp there. rw (same l p lp) (
          u.others (lookup fs l p) (λ e. free_apart fs b l p t f lp (sym e))
          ∙ t.used l p lp (λ z. there (same l p lp ∙ z)));
      blocks = λ l p lp there.
          rw (same l p lp)
            (u.layout.blocks (lookup fs l p) (t.blocks l p lp (λ z. there (same l p lp ∙ z))));
    }

zeroed-IsLoose :
    (fs : Fs) (sb : SuperBlock) (b count v : ℕ)
    → IsTree fs
    → in_use fs.sb b ≡ false
    → Turns true b fs.sb sb
    → IsLoose fs v
    → IsLoose (zeroed_state fs sb b count) v
zeroed-IsLoose fs sb b count v t f u o =
    let other : b ≢ v = λ e. absurd (ground (arith, f, rw (sym e) at o.taken)) in
    record {
      block = u.layout.blocks v o.block;
      taken = u.others v other ∙ o.taken;
      there = o.there;
      apart = λ l a la e. o.apart l a la (sym (lookup-zeroed fs sb b count l a t f la) ∙ e);
      blank = λ k. ap (λ (w : ℕ → ℕ). w k) (update_ne fs.words b v (λ i. 0) other) ∙ o.blank k;
    }

pub data Zeroed (fs : Fs) : Fs × ℕ → Type 0 where
  no_block : fs.sb.block_unused_total ≡ 0 → Zeroed fs (fs, sector_invalid)
  zeroed :
      (fs' : Fs) (b : ℕ)
      → Grows fs fs'
      → ((l : ℕ) (a : List ℕ) → length a ≤ l + 1 → lookup fs' l a ≡ lookup fs l a)
      → IsLoose fs' b
      → b < sector_invalid
      → ((v : ℕ) → IsLoose fs v → v ≢ b)
      → fs'.sb.block_unused_total + 1 ≡ fs.sb.block_unused_total
      → Zeroed fs (fs', b)

new-IsLoose :
    (fs : Fs) (sb : SuperBlock) (b count : ℕ)
    → IsTree fs
    → in_use fs.sb b ≡ false
    → IsBlock fs.sb b
    → Turns true b fs.sb sb
    → IsLoose (zeroed_state fs sb b count) b
new-IsLoose fs sb b count t f i u = record {
  block = u.layout.blocks b i;
  taken = u.turned;
  there = free_there fs b t f;
  apart = λ l a la e. free_apart fs b l a t f la (sym (lookup-zeroed fs sb b count l a t f la) ∙ e);
  blank = λ k. ap (λ (w : ℕ → ℕ). w k) (update_self fs.words b (λ i. 0));
}

zero_allocated-Zeroed :
    (fs : Fs) (r : SuperBlock × ℕ) → IsTree fs → Allocates fs.sb r → Zeroed fs (zero_allocated fs r)
unfolding zero_allocated
zero_allocated-Zeroed fs r t (no_space e) = no_block e
zero_allocated-Zeroed fs r t (allocated sb b i small f u fewer) =
    let count = add32 fs.inode.blocks (sectors_per_blk fs) in
    let valid : (b == sector_invalid) ≡ false = ground (arith, small) in
    let same =
      λ (l : ℕ) (a : List ℕ) (h : length a ≤ l + 1). lookup-zeroed fs sb b count l a t f h in
    rw valid (
      zeroed (zeroed_state fs sb b count) b
        (record {
          layout = u.layout;
          size = refl;
          mapped = λ l a e. same l a (omega (arith, e));
          loose = λ v o. zeroed-IsLoose fs sb b count v t f u o;
          tree = zeroed-IsTree fs sb b count t f u;
        })
        same (new-IsLoose fs sb b count t f i u) small (λ v o e. ground (arith, f, rw e at o.taken))
        fewer)

pub alloc_block_zero-Zeroed : (fs : Fs) → IsTree fs → Zeroed fs (alloc_block_zero fs)
unfolding alloc_block_zero
alloc_block_zero-Zeroed fs t =
    zero_allocated-Zeroed fs _ t (ext2_block_alloc-Allocates fs.sb t.counts)
