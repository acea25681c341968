-- ===== src/Palloc/Free.antt =====
-- Giving a block back: the allocator's invariant, and what the merging loop adds to the free frames.
use protura.Base.Arrays.{update, sum_below, sum_below-update}
use protura.Base.{
  ℕ, zero, suc, ◌+◌, ◌-◌, ◌*◌, ◌%◌, ◌^◌, ◌<◌, ◌≡◌, ◌≢◌, inl, inr, refl, ap, sym, true, some, List,
  ◌∷◌, length, arith, Bool-cases,
}
use protura.Palloc.{
  BuddyMap, Buddy, palloc_maps, list_del, get_buddy_pn, clear_bit, has_order, merge, can_merge,
  add_block, pfree_loop, pfree_add_pages,
}
use protura.Palloc.Blocks.{
  in_block, merge_blocks, clear_bit_aligned, lower_upper, odd_room, pow_pos, double,
}
use protura.Palloc.Lists.{
  list_cover, cover, is_in, IsAligned, list_cover-del, length-list_del, list_del-IsAligned,
  is_in-list_del,
}

-- The frames in the free lists, counted.
abbrev pub pool : Buddy → ℕ
pool a = sum_below palloc_maps (λ k. 2 ^ k * length (a.maps k).free_list)

-- The free lists agree with their counts, hold only aligned blocks, and hold every page that has
-- an order below PALLOC_MAPS, but perhaps the page `c`.
pub record IsValidBut (c : ℕ) (a : Buddy) : Type 0 where
  pub counted : (k : ℕ) → k < 6 → (a.maps k).free_count ≡ length (a.maps k).free_list
  pub aligned : (k : ℕ) → k < 6 → IsAligned k (a.maps k).free_list
  pub listed :
      (p k : ℕ) → p ≢ c → k < 6 → (a.pages p).order ≡ some k → is_in p (a.maps k).free_list ≡ true

-- The allocator's invariant: no page is missing, and `free_pages` counts the free frames.
pub record IsValid (a : Buddy) : Type 0 where
  pub counted : (k : ℕ) → k < 6 → (a.maps k).free_count ≡ length (a.maps k).free_list
  pub aligned : (k : ℕ) → k < 6 → IsAligned k (a.maps k).free_list
  pub listed : (p k : ℕ) → k < 6 → (a.pages p).order ≡ some k → is_in p (a.maps k).free_list ≡ true
  pub total : a.free_pages ≡ pool a

-- Lists that differ from `a`'s in one order.
abbrev pub with_list : ℕ → List ℕ → ℕ → Buddy → ℕ → BuddyMap
with_list order xs n a = update a.maps order (record { free_list = xs; free_count = n })

pub cover-with_list :
    (order n q : ℕ) (xs : List ℕ) (a : Buddy)
    → order < 6
    → sum_below 6 (λ k. list_cover q k (with_list order xs n a k).free_list)
        + list_cover q order (a.maps order).free_list
      ≡ cover a q + list_cover q order xs
unfolding cover
cover-with_list order n q xs a h =
    sum_below-update 6 order (record { free_list = xs; free_count = n }) a.maps
      (λ k m. list_cover q k m.free_list) h

pub pool-with_list :
    (order n : ℕ) (xs : List ℕ) (a : Buddy)
    → order < 6
    → sum_below 6 (λ k. 2 ^ k * length (with_list order xs n a k).free_list)
        + 2 ^ order * length (a.maps order).free_list
      ≡ pool a + 2 ^ order * length xs
pool-with_list order n xs a h =
    sum_below-update 6 order (record { free_list = xs; free_count = n }) a.maps
      (λ k m. 2 ^ k * length m.free_list) h

-- The blocks of `b` are those of `a` and one more.
pub record Adds (cur order : ℕ) (a b : Buddy) : Type 0 where
  pub frames : (q : ℕ) → cover b q ≡ cover a q + in_block q cur order
  pub amount : pool b ≡ pool a + 2 ^ order
  pub same_total : b.free_pages ≡ a.free_pages

pub pushed :
    (cur order : ℕ) (a b : Buddy)
    → order < 6
    → b.maps ≡ with_list order (cur ∷ (a.maps order).free_list) ((a.maps order).free_count + 1) a
    → b.free_pages ≡ a.free_pages
    → Adds cur order a b
unfolding cover list_cover
pushed cur order a b h e t =
    let xs = (a.maps order).free_list in
    let n = (a.maps order).free_count + 1 in
    record {
      frames = λ q. rw (e, cover) (omega (arith, cover-with_list order n q (cur ∷ xs) a h));
      amount = rw e (omega (arith, pool-with_list order n (cur ∷ xs) a h));
      same_total = t;
    }

add_block-Adds : (cur order : ℕ) (a : Buddy) → order < 6 → Adds cur order a (add_block cur order a)
unfolding add_block
add_block-Adds cur order a h = pushed cur order a (add_block cur order a) h refl refl

-- A block that stands in its list goes out of it.
pub popped :
    (pn order n : ℕ) (a b : Buddy)
    → order < 6
    → is_in pn (a.maps order).free_list ≡ true
    → b.maps ≡ with_list order (list_del pn (a.maps order).free_list) n a
    → b.free_pages ≡ a.free_pages
    → Adds pn order b a
unfolding cover
popped pn order n a b h i e t =
    let xs = (a.maps order).free_list in
    let ys = list_del pn xs in
    record {
      frames = λ q.
          rw (e, cover)
            (omega (arith, cover-with_list order n q ys a h, list_cover-del q order pn xs i));
      amount = rw e (
          omega (
            arith,
            pool-with_list order n ys a h,
            ap (λ (t : ℕ). 2 ^ order * t) (length-list_del pn xs i),
          ));
      same_total = sym t;
    }

buddy-ne : (cur order : ℕ) → cur % 2 ^ order ≡ 0 → get_buddy_pn cur order ≢ cur
unfolding get_buddy_pn
buddy-ne cur order al = ground (arith, odd_room cur order al, pow_pos order)

-- Only an order that the page array gives, and only that of the block's page, changes.
add_block-IsValidBut :
    (cur order : ℕ) (a : Buddy)
    → order < 6
    → cur % 2 ^ order ≡ 0
    → IsValidBut cur a
    → (c : ℕ) → IsValidBut c (add_block cur order a)
unfolding add_block update is_in
add_block-IsValidBut cur order a h al v c = record {
  counted = λ k hk. ground (arith, v.counted k hk);
  aligned = λ k hk. ground (arith, v.aligned k hk);
  listed = λ p k hp hk e. ground (arith, v.listed p k);
}

-- One round: the merged block has the frames of the block and its buddy.
merge-IsValidBut :
    (cur order : ℕ) (a : Buddy)
    → order < 6
    → cur % 2 ^ order ≡ 0
    → can_merge cur order a ≡ true
    → IsValidBut cur a
    → IsValidBut (clear_bit cur order) (merge cur order a)
      × Adds (get_buddy_pn cur order) order (merge cur order a) a
unfolding merge can_merge has_order update
merge-IsValidBut cur order a h al m v =
    let buddy = get_buddy_pn cur order in
    let xs = (a.maps order).free_list in
    let ord : (a.pages buddy).order ≡ some order = ground arith in
    let there : is_in buddy xs ≡ true = v.listed buddy order (buddy-ne cur order al) h ord in
    (
      record {
        counted = λ k hk.
            ground (arith, v.counted k hk, v.counted order h, length-list_del buddy xs there);
        aligned = λ k hk.
            ground (arith, v.aligned k hk, list_del-IsAligned order buddy xs (v.aligned order h));
        listed = λ p k hp hk e.
            ground (arith, lower_upper cur order al, v.listed p k, is_in-list_del p buddy xs);
      },
      popped buddy order ((a.maps order).free_count - 1) a (merge cur order a) h there refl refl,
    )

Adds-trans :
    (cur buddy lower order : ℕ) (a b c : Buddy)
    → ((q : ℕ) → in_block q cur order + in_block q buddy order ≡ in_block q lower (order + 1))
    → Adds buddy order b a
    → Adds lower (order + 1) b c
    → Adds cur order a c
Adds-trans cur buddy lower order a b c halves down up = record {
  frames = λ q. omega (arith, halves q, down.frames q, up.frames q);
  amount = omega (arith, down.amount, up.amount, double order);
  same_total = omega (arith, down.same_total, up.same_total);
}

-- The loop ends with the block's frames added, whatever it merges.
pfree_loop_lem :
    (rounds cur order : ℕ) (a : Buddy)
    → order + rounds < 6
    → cur % 2 ^ order ≡ 0
    → IsValidBut cur a
    → Adds cur order a (pfree_loop rounds cur order a)
      × ((c : ℕ) → IsValidBut c (pfree_loop rounds cur order a))
unfolding pfree_loop
pfree_loop_lem zero cur order a h al v =
    (add_block-Adds cur order a (omega arith), add_block-IsValidBut cur order a (omega arith) al v)
pfree_loop_lem (suc rounds) cur order a h al v = elim (Bool-cases (can_merge cur order a)) [
  | inl yes' ↦
      let lower = clear_bit cur order in
      let b = merge cur order a in
      let (valid, down) = merge-IsValidBut cur order a (omega arith) al yes' v in
      let (up, done) =
        pfree_loop_lem rounds lower (order + 1) b (omega arith) (clear_bit_aligned cur order al)
          valid in
      rw yes' (
        Adds-trans cur (get_buddy_pn cur order) lower order a b
            (pfree_loop rounds lower (order + 1) b) (λ q. merge_blocks q cur order al) down up,
        done,
      )
  | inr stop ↦ rw stop (
    add_block-Adds cur order a (omega arith),
    add_block-IsValidBut cur order a (omega arith) al v,
  )
]

IsValid-but : (c : ℕ) (a : Buddy) → IsValid a → IsValidBut c a
IsValid-but c a v = record {
  counted = v.counted;
  aligned = v.aligned;
  listed = λ p k _ h e. v.listed p k h e;
}

pub pfree_add_pages_lem :
    (cur order : ℕ) (a : Buddy)
    → order < 6
    → cur % 2 ^ order ≡ 0
    → IsValid a
    → let b = pfree_add_pages cur order a in
      IsValid b
      × (b.free_pages ≡ a.free_pages + 2 ^ order)
      × ((q : ℕ) → cover b q ≡ cover a q + in_block q cur order)
unfolding pfree_add_pages cover
pfree_add_pages_lem cur order a h al v =
    let b = pfree_loop (5 - order) cur order a in
    let (adds, valid) =
      pfree_loop_lem (5 - order) cur order a (omega arith) al (IsValid-but cur a v) in
    (
      record {
        counted = (valid 0).counted;
        aligned = (valid 0).aligned;
        listed = λ p k hk e. (valid (suc p)).listed p k (omega arith) hk e;
        total = omega (arith, adds.amount, adds.same_total, v.total);
      },
      omega (arith, adds.same_total),
      adds.frames,
    )
