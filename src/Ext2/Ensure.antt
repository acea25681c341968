-- ===== src/Ext2/Ensure.antt =====
-- The blocks of pointers on the way to an address are made, and the block is linked at the end.
use protura.Base.{
  ℕ, ◌+◌, ◌≤◌, ◌==◌, ◌&&◌, ◌≡◌, ◌≢◌, refl, ◌∙◌, sym, ap, false, Option, none, some, List, [], ◌∷◌,
  length, arith, Bool-cases, ==_iff, inl, inr,
}
use protura.Ext2.{sector_invalid}
use protura.Ext2.Map.{Fs, in_block, get, word_of, put_new, ensure}
use protura.Ext2.Tree.{
  lookup, cell_of, same_path, same_path-length, HasParent, IsTree, put_at, and-false,
}
use protura.Ext2.Grow.{Grows, Grows-refl, Zeroed, no_block, zeroed, alloc_block_zero-Zeroed}
use protura.Ext2.Link.{put-sb, put-size, linked-new, linked-old, linked-IsTree, linked-IsLoose}

get-cell_of :
    (fs : Fs) (l : ℕ) (a : List ℕ) → HasParent fs l a → get fs (cell_of fs l a) ≡ lookup fs l a
unfolding get cell_of lookup HasParent word_of
get-cell_of fs l [] h = absurd h
get-cell_of fs l (k ∷ []) h = refl
get-cell_of fs l (k ∷ j ∷ a) h =
    let there : (lookup fs l (j ∷ a) == 0) ≡ false = ground (arith, h) in rw there refl

cell_of-same :
    (fs fs' : Fs) (l : ℕ) (a : List ℕ)
    → length a ≤ l + 1
    → ((b : List ℕ) → length b ≤ l + 1 → lookup fs' l b ≡ lookup fs l b)
    → cell_of fs' l a ≡ cell_of fs l a
unfolding cell_of
cell_of-same fs fs' l [] la h = refl
cell_of-same fs fs' l (k ∷ []) la h = refl
cell_of-same fs fs' l (k ∷ j ∷ a) la h = ap (λ p. in_block p k) (h (j ∷ a) (omega arith))

HasParent-same :
    (fs fs' : Fs) (l : ℕ) (a : List ℕ)
    → length a ≤ l + 1
    → ((b : List ℕ) → length b ≤ l + 1 → lookup fs' l b ≡ lookup fs l b)
    → HasParent fs l a
    → HasParent fs' l a
unfolding HasParent
HasParent-same fs fs' l [] la h p = p
HasParent-same fs fs' l (k ∷ []) la h p = tt
HasParent-same fs fs' l (k ∷ j ∷ a) la h p = λ z. p (sym (h (j ∷ a) (omega arith)) ∙ z)

-- A cell with a block of pointers.
pub data Ensures (fs : Fs) (l : ℕ) (a : List ℕ) : Fs × Option ℕ → Type 0 where
  no_room : (fs' : Fs) → Grows fs fs' → fs.sb.block_unused_total ≡ 0 → Ensures fs l a (fs', none)
  ensured :
      (fs' : Fs) (p : ℕ)
      → Grows fs fs'
      → lookup fs' l a ≡ p
      → p ≢ 0
      → fs.sb.block_unused_total ≤ fs'.sb.block_unused_total + 1
      → Ensures fs l a (fs', some p)

-- The address is not that of a block of data.
other_length :
    (l m : ℕ) (a b : List ℕ) → length a ≤ l → length b ≡ m + 1 → ((l == m) && same_path a b) ≡ false
other_length l m a b la lb = elim (Bool-cases (same_path a b)) [
  | inl same ↦
      let e = same_path-length a b same in
      let other : (l == m) ≡ false = ground (arith, e) in rw other refl
  | inr other ↦ rw (other, and-false (l == m)) refl
]

put_new-Ensures :
    (fs : Fs) (l : ℕ) (a : List ℕ) (r : Fs × ℕ)
    → Zeroed fs r
    → IsTree fs
    → length a ≤ l
    → HasParent fs l a
    → lookup fs l a ≡ 0
    → Ensures fs l a (put_new (cell_of fs l a) r)
unfolding put_new
put_new-Ensures fs l a r (no_block z) t la ha ea = no_room fs (Grows-refl fs t) z
put_new-Ensures fs l a r (zeroed fs1 b g same o small fresh fewer) t la ha ea =
    let la' : length a ≤ l + 1 = omega arith in
    let here = λ (c : List ℕ) (lc : length c ≤ l + 1). same l c lc in
    let h1 = HasParent-same fs fs1 l a la' here ha in
    let e1 = same l a la' ∙ ea in
    let valid : (b == sector_invalid) ≡ false = ground (arith, small) in
    rw (valid, sym (cell_of-same fs fs1 l a la' here))
      (ensured (put_at fs1 l a b) b
        (record {
          layout = rw (put-sb fs1 (cell_of fs1 l a) b) g.layout;
          size = put-size fs1 (cell_of fs1 l a) b ∙ g.size;
          mapped = λ m c lc.
              linked-old fs1 l a b g.tree o la' h1 e1 m c (omega (arith, lc))
                (other_length l m a c la lc)
              ∙ g.mapped m c lc;
          loose = λ v p. linked-IsLoose fs1 l a b g.tree o la' h1 e1 v (g.loose v p) (fresh v p);
          tree = linked-IsTree fs1 l a b g.tree o la' h1 e1;
        })
        (linked-new fs1 l a b g.tree o la' h1 e1) o.there
        (rw (put-sb fs1 (cell_of fs1 l a) b) (omega (arith, fewer))))

pub ensure-Ensures :
    (fs : Fs) (l : ℕ) (a : List ℕ)
    → IsTree fs
    → length a ≤ l
    → HasParent fs l a
    → Ensures fs l a (ensure fs (cell_of fs l a))
unfolding ensure
ensure-Ensures fs l a t la ha = elim (Bool-cases (lookup fs l a == 0)) [
  | inl missing ↦
      rw (get-cell_of fs l a ha, missing)
        (put_new-Ensures fs l a _ (alloc_block_zero-Zeroed fs t) t la ha
          ((==_iff (lookup fs l a) 0).0 missing))
  | inr there ↦
      rw (get-cell_of fs l a ha, there)
        (ensured fs (lookup fs l a) (Grows-refl fs t) refl (ground (arith, there)) (omega arith))
]
