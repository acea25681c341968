-- ===== src/Palloc/Lists.antt =====
-- What the free lists cover, and the invariant that ties them to the page array.
use protura.Base.Arrays.{sum_below}
use protura.Base.{
  ℕ, ◌+◌, ◌%◌, ◌^◌, ◌≡◌, ◌≢◌, ◌==◌, refl, Bool, true, false, none, some, List, [], ◌∷◌, length, All,
  arith, if◌then◌else◌,
}
use protura.Palloc.{Buddy, palloc_maps, list_del, last}
use protura.Palloc.Blocks.{in_block}

-- The frame `q` in the blocks of a list: how many of them cover it.
unfoldable pub list_cover : ℕ → ℕ → List ℕ → ℕ
list_cover q order [] = 0
list_cover q order (x ∷ xs) = in_block q x order + list_cover q order xs

unfoldable pub cover : Buddy → ℕ → ℕ
cover a q = sum_below palloc_maps (λ k. list_cover q k (a.maps k).free_list)

-- A page is in a list.
unfoldable pub is_in : ℕ → List ℕ → Bool
is_in pn [] = false
is_in pn (x ∷ xs) = if x == pn then true else is_in pn xs

abbrev pub IsAligned : ℕ → List ℕ → Type 0
IsAligned order = All (λ x. x % 2 ^ order ≡ 0)

pub list_cover-del :
    (q order pn : ℕ) (xs : List ℕ)
    → is_in pn xs ≡ true
    → list_cover q order (list_del pn xs) + in_block q pn order ≡ list_cover q order xs
unfolding list_cover list_del is_in
list_cover-del q order pn [] h = cc
list_cover-del q order pn (x ∷ xs) h = ground (arith, list_cover-del q order pn xs)

pub length-list_del :
    (pn : ℕ) (xs : List ℕ) → is_in pn xs ≡ true → length (list_del pn xs) + 1 ≡ length xs
unfolding list_del is_in
length-list_del pn [] h = cc
length-list_del pn (x ∷ xs) h = ground (arith, length-list_del pn xs)

pub list_del-IsAligned :
    (order pn : ℕ) (xs : List ℕ) → IsAligned order xs → IsAligned order (list_del pn xs)
unfolding list_del
list_del-IsAligned order pn [] h = tt
list_del-IsAligned order pn (x ∷ xs) h = ground (arith, list_del-IsAligned order pn xs h.1)

pub IsAligned-in :
    (order pn : ℕ) (xs : List ℕ) → IsAligned order xs → is_in pn xs ≡ true → pn % 2 ^ order ≡ 0
unfolding is_in
IsAligned-in order pn [] h i = cc
IsAligned-in order pn (x ∷ xs) h i = ground (arith, IsAligned-in order pn xs h.1)

-- Taking a page out of a list takes no other page out.
pub is_in-list_del : (p pn : ℕ) (xs : List ℕ) → p ≢ pn → is_in p (list_del pn xs) ≡ is_in p xs
unfolding list_del is_in
is_in-list_del p pn [] h = refl
is_in-list_del p pn (x ∷ xs) h = ground (arith, is_in-list_del p pn xs h)

pub last-in : (xs : List ℕ) (pn : ℕ) → last xs ≡ some pn → is_in pn xs ≡ true
unfolding last is_in
last-in [] pn h = cc
last-in (x ∷ []) pn h = ground arith
last-in (x ∷ y ∷ xs) pn h = ground (arith, last-in (y ∷ xs) pn h)

pub last-some : (xs : List ℕ) → length xs ≢ 0 → last xs ≢ none
unfolding last
last-some [] h = absurd (h refl)
last-some (x ∷ []) h = λ e. cc
last-some (x ∷ y ∷ xs) h = last-some (y ∷ xs) (omega arith)
