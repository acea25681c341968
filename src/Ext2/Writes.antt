-- ===== src/Ext2/Writes.antt =====
-- The writing of one pointer of a tree.
use protura.Base.{
  ℕ, ◌+◌, ◌≤◌, ◌==◌, ◌&&◌, ◌≡◌, ◌≢◌, refl, ◌∙◌, sym, subst, false, List, [], ◌∷◌, length, arith,
  Bool-cases, ==_iff, inl, inr, if◌then◌else◌,
}
use protura.Ext2.Map.{Fs, put, word_of}
use protura.Ext2.Tree.{
  lookup, cell_of, same_path, HasParent, IsTree, IsLoose, put_at, words-put, entries-put, and-false,
  nested_false, and_true, and_swap, same_path-longer, same_address, same_block,
}

-- Writing a pointer, seen at an address of the inode.
lookup-put_at_entry :
    (fs : Fs) (l : ℕ) (a : List ℕ) (v m x : ℕ)
    → HasParent fs l a
    → lookup (put_at fs l a v) m (x ∷ [])
      ≡ (if (l == m) && same_path a (x ∷ []) then v else lookup fs m (x ∷ []))
unfolding lookup HasParent same_path cell_of put
lookup-put_at_entry fs l [] v m x h = absurd h
lookup-put_at_entry fs l (k ∷ []) v m x h = rw (and_true (k == x)) (entries-put fs l k v m x)
lookup-put_at_entry fs l (k ∷ j ∷ a) v m x h = rw (nested_false (l == m) (k == x)) refl

-- Writing a pointer, seen at an address in a block.
words-put_at :
    (fs : Fs) (l : ℕ) (a : List ℕ) (v m j x : ℕ) (b : List ℕ)
    → IsTree fs
    → length a ≤ l + 1
    → HasParent fs l a
    → length b ≤ m
    → lookup fs m (j ∷ b) ≢ 0
    → (put_at fs l a v).words (lookup fs m (j ∷ b)) x
      ≡ (if (l == m) && same_path a (x ∷ j ∷ b) then v else fs.words (lookup fs m (j ∷ b)) x)
unfolding lookup HasParent same_path cell_of put
words-put_at fs l [] v m j x b t la h lb p = absurd h
words-put_at fs l (k ∷ []) v m j x b t la h lb p = rw (nested_false (l == m) (k == x)) refl
words-put_at fs l (k ∷ k' ∷ a) v m j x b t la h lb p =
    rw
      (
        and_swap (l == m) (k == x) (same_path (k' ∷ a) (j ∷ b)),
        sym (same_block fs l m (k' ∷ a) (j ∷ b) t (omega arith) (omega arith) p),
      )
      (words-put fs (lookup fs l (k' ∷ a)) k v (lookup fs m (j ∷ b)) x)

pub words-put_at_loose :
    (fs : Fs) (l : ℕ) (a : List ℕ) (v w x : ℕ)
    → IsLoose fs w
    → length a ≤ l + 1
    → (put_at fs l a v).words w x ≡ 0
unfolding lookup cell_of put
words-put_at_loose fs l [] v w x o la = o.blank x
words-put_at_loose fs l (k ∷ []) v w x o la = o.blank x
words-put_at_loose fs l (k ∷ j ∷ a) v w x o la =
    let other : (lookup fs l (j ∷ a) == w) ≡ false =
      ground (arith, o.apart l (j ∷ a) (omega arith)) in
    words-put fs (lookup fs l (j ∷ a)) k v w x ∙ rw other (o.blank x)

-- Nothing is written below a missing block.
no_child :
    (fs : Fs) (l : ℕ) (a : List ℕ) (m j x : ℕ) (b : List ℕ)
    → HasParent fs l a
    → lookup fs m (j ∷ b) ≡ 0
    → ((l == m) && same_path a (x ∷ j ∷ b)) ≡ false
unfolding HasParent
no_child fs l a m j x b h z = elim (Bool-cases ((l == m) && same_path a (x ∷ j ∷ b))) [
  | inl same ↦
      let e = same_address l m a (x ∷ j ∷ b) same in
      let parent : HasParent fs m (x ∷ j ∷ b) =
        subst (λ (p : List ℕ). HasParent fs m p) e.1 (subst (λ (n : ℕ). HasParent fs n a) e.0 h) in
      absurd (parent z)
  | inr other ↦ other
]

-- One step down from an address where the pointer is known.
below_put :
    (fs : Fs) (l : ℕ) (a : List ℕ) (v m j x : ℕ) (b : List ℕ)
    → IsTree fs
    → IsLoose fs v
    → length a ≤ l + 1
    → HasParent fs l a
    → lookup fs l a ≡ 0
    → length b + 2 ≤ m + 1
    → lookup (put_at fs l a v) m (j ∷ b)
      ≡ (if (l == m) && same_path a (j ∷ b) then v else lookup fs m (j ∷ b))
    → word_of (put_at fs l a v) (lookup (put_at fs l a v) m (j ∷ b)) x
      ≡ (if (l == m) && same_path a (x ∷ j ∷ b) then v else word_of fs (lookup fs m (j ∷ b)) x)
unfolding word_of
below_put fs l a v m j x b t o la ha ea lb above =
    elim (Bool-cases ((l == m) && same_path a (j ∷ b))) [
      | inl same ↦
          let e = same_address l m a (j ∷ b) same in
          let longer : same_path a (x ∷ j ∷ b) ≡ false = rw (e.1) (same_path-longer (j ∷ b) x) in
          let missing : lookup fs m (j ∷ b) ≡ 0 = rw (sym e.0, sym e.1) ea in
          let here : (v == 0) ≡ false = ground (arith, o.there) in
          rw (above, same, longer, and-false (l == m), missing, here)
            (words-put_at_loose fs l a v v x o la)
      | inr other ↦ elim (Bool-cases (lookup fs m (j ∷ b) == 0)) [
        | inl missing ↦
            rw
              (
                above,
                other,
                missing,
                no_child fs l a m j x b ha ((==_iff (lookup fs m (j ∷ b)) 0).0 missing),
              )
              refl
        | inr there ↦
            rw (above, other, there)
              (words-put_at fs l a v m j x b t la ha (omega arith) (ground (arith, there)))
      ]
    ]

-- In a tree, the writing of a loose block to an address that has none gives it that address,
-- and changes no other.
pub lookup-put_at :
    (fs : Fs) (l : ℕ) (a : List ℕ) (v : ℕ) (m : ℕ) (b : List ℕ)
    → IsTree fs
    → IsLoose fs v
    → length a ≤ l + 1
    → HasParent fs l a
    → lookup fs l a ≡ 0
    → length b ≤ m + 1
    → lookup (put_at fs l a v) m b ≡ (if (l == m) && same_path a b then v else lookup fs m b)
unfolding lookup HasParent same_path
lookup-put_at fs l [] v m b t o la ha ea lb = absurd ha
lookup-put_at fs l (k ∷ a) v m [] t o la ha ea lb = rw (and-false (l == m)) refl
lookup-put_at fs l (k ∷ a) v m (x ∷ []) t o la ha ea lb = lookup-put_at_entry fs l (k ∷ a) v m x ha
lookup-put_at fs l (k ∷ a) v m (x ∷ j ∷ b) t o la ha ea lb =
    below_put fs l (k ∷ a) v m j x b t o la ha ea (omega arith)
      (lookup-put_at fs l (k ∷ a) v m (j ∷ b) t o la ha ea (omega arith))
