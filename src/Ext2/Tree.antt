-- ===== src/Ext2/Tree.antt =====
-- The map of a file as a tree. An address is the number of the blocks of pointers on the way and
-- the indices that lead to a pointer, the last one first.
use protura.Base.{
  ℕ, ◌+◌, ◌/◌, ◌%◌, ◌≤◌, ◌==◌, ◌&&◌, ◌≡◌, ◌≢◌, refl, ◌∙◌, sym, ap, Bool, true, false, List, [], ◌∷◌,
  length, arith, Bool-cases, ==_iff, ==_refl, inl, inr, if◌then◌else◌,
}
use protura.Base.Arrays.{update}
use protura.Ext2.Alloc.{in_use, IsCounted, IsNarrow}
use protura.Ext2.Free.{IsBlock}
use protura.Ext2.Map.{Fs, Cell, in_inode, in_block, put, word_of}

-- The pointer at an address, 0 if one on the way is missing.
unfoldable pub lookup : Fs → ℕ → List ℕ → ℕ
lookup fs l [] = 0
lookup fs l (k ∷ []) = fs.inode.blk_ptrs l k
lookup fs l (k ∷ j ∷ path) = word_of fs (lookup fs l (j ∷ path)) k

-- Where it stands.
unfoldable pub cell_of : Fs → ℕ → List ℕ → Cell
cell_of fs l [] = in_inode l 0
cell_of fs l (k ∷ []) = in_inode l k
cell_of fs l (k ∷ j ∷ path) = in_block (lookup fs l (j ∷ path)) k

unfoldable pub same_path : List ℕ → List ℕ → Bool
same_path [] [] = true
same_path (j ∷ p) (k ∷ q) = (j == k) && same_path p q
same_path [] (k ∷ q) = false
same_path (j ∷ p) [] = false

-- The blocks above an address are there.
unfoldable pub HasParent : Fs → ℕ → List ℕ → Type 0
HasParent fs l [] = ⊥
HasParent fs l (k ∷ []) = Unit
HasParent fs l (k ∷ j ∷ path) = lookup fs l (j ∷ path) ≢ 0

-- No two addresses have one block, and every block with an address is in use.
pub record IsTree (fs : Fs) : Type 0 where
  pub counts : IsCounted fs.sb
  pub narrow : IsNarrow fs.sb
  pub boot : in_use fs.sb 0 ≡ true
  pub alone :
      (l m : ℕ) (a b : List ℕ)
      → length a ≤ l + 1
      → length b ≤ m + 1
      → lookup fs l a ≢ 0
      → lookup fs l a ≡ lookup fs m b
      → ((l == m) && same_path a b) ≡ true
  pub used :
      (l : ℕ) (a : List ℕ)
      → length a ≤ l + 1
      → lookup fs l a ≢ 0
      → in_use fs.sb (lookup fs l a) ≡ true
  pub blocks :
      (l : ℕ) (a : List ℕ) → length a ≤ l + 1 → lookup fs l a ≢ 0 → IsBlock fs.sb (lookup fs l a)

-- A block that is allocated and has no address yet.
pub record IsLoose (fs : Fs) (v : ℕ) : Type 0 where
  pub block : IsBlock fs.sb v
  pub taken : in_use fs.sb v ≡ true
  pub there : v ≢ 0
  pub apart : (l : ℕ) (a : List ℕ) → length a ≤ l + 1 → lookup fs l a ≢ v
  pub blank : (k : ℕ) → fs.words v k ≡ 0

pub same_path_refl : (a : List ℕ) → same_path a a ≡ true
unfolding same_path
same_path_refl [] = refl
same_path_refl (k ∷ a) = rw (==_refl k) (same_path_refl a)

pub same_path-path : (a b : List ℕ) → same_path a b ≡ true → a ≡ b
unfolding same_path
same_path-path [] [] h = refl
same_path-path [] (k ∷ b) h = cc
same_path-path (k ∷ a) [] h = cc
same_path-path (j ∷ a) (k ∷ b) h = elim (Bool-cases (j == k)) [
  | inl same ↦ rw ((==_iff j k).0 same) (ap (◌∷◌ k) (same_path-path a b (rw same at h)))
  | inr other ↦ absurd (ground (arith, other, h))
]

-- The addresses that a file has, by the place of a sector after the ones of fewer levels.
abbrev pub path1 : ℕ → ℕ → List ℕ
path1 p n = n % p ∷ n / p ∷ []

abbrev pub path2 : ℕ → ℕ → List ℕ
path2 p n = n % p ∷ n / p % p ∷ n / p / p ∷ []

abbrev pub path3 : ℕ → ℕ → List ℕ
path3 p n = n % p ∷ n / p % p ∷ n / p / p % p ∷ n / p / p / p ∷ []

-- A pointer is written.
abbrev pub put_at : Fs → ℕ → List ℕ → ℕ → Fs
put_at fs l a v = put fs (cell_of fs l a) v

pub words-put :
    (fs : Fs) (c k v q x : ℕ)
    → (put fs (in_block c k) v).words q x ≡ (if (c == q) && (k == x) then v else fs.words q x)
unfolding put update
words-put fs c k v q x = elim (Bool-cases (c == q)) [
  | inl same ↦ rw (same, (==_iff c q).0 same) refl
  | inr other ↦ rw other refl
]

pub entries-put :
    (fs : Fs) (l k v m x : ℕ)
    → (put fs (in_inode l k) v).inode.blk_ptrs m x
      ≡ (if (l == m) && (k == x) then v else fs.inode.blk_ptrs m x)
unfolding put update
entries-put fs l k v m x = elim (Bool-cases (l == m)) [
  | inl same ↦ rw (same, (==_iff l m).0 same) refl
  | inr other ↦ rw other refl
]

pub and-false : (b : Bool) → (b && false) ≡ false
and-false true = refl
and-false false = refl

pub nested_false : (b c : Bool) → (b && (c && false)) ≡ false
nested_false b c = rw (and-false c) (and-false b)

pub and_true : (b : Bool) → (b && true) ≡ b
and_true true = refl
and_true false = refl

pub and_swap : (b c d : Bool) → (b && (c && d)) ≡ ((b && d) && c)
and_swap true c true = and_true c
and_swap true c false = and-false c
and_swap false c d = refl

and-true : (b c : Bool) → (b && c) ≡ true → (b ≡ true) × (c ≡ true)
and-true true c h = (refl, h)
and-true false c h = cc

-- A path and one that goes on from it.
pub same_path-longer : (a : List ℕ) (k : ℕ) → same_path a (k ∷ a) ≡ false
unfolding same_path
same_path-longer [] k = refl
same_path-longer (j ∷ a) k = rw (same_path-longer a j) (and-false (j == k))

pub same_address : (l m : ℕ) (a b : List ℕ) → ((l == m) && same_path a b) ≡ true → (l ≡ m) × (a ≡ b)
same_address l m a b h =
    let r = and-true (l == m) (same_path a b) h in ((==_iff l m).0 r.0, same_path-path a b r.1)

-- In a tree, one block means one address.
pub same_block :
    (fs : Fs) (l m : ℕ) (a b : List ℕ)
    → IsTree fs
    → length a ≤ l + 1
    → length b ≤ m + 1
    → lookup fs m b ≢ 0
    → (lookup fs l a == lookup fs m b) ≡ ((l == m) && same_path a b)
same_block fs l m a b t la lb p = elim (Bool-cases ((l == m) && same_path a b)) [
  | inl same ↦ let e = same_address l m a b same in rw (same, e.0, e.1) (==_refl (lookup fs m b))
  | inr other ↦ elim (Bool-cases (lookup fs l a == lookup fs m b)) [
    | inl meet ↦
        let e = (==_iff (lookup fs l a) (lookup fs m b)).0 meet in
        let q = t.alone l m a b la lb (λ z. p (sym e ∙ z)) e in absurd (ground (arith, other, q))
    | inr apart ↦ rw (other, apart) refl
  ]
]

pub same_path-length : (a b : List ℕ) → same_path a b ≡ true → length a ≡ length b
same_path-length a b h = ap length (same_path-path a b h)
