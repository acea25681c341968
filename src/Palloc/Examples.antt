-- ===== src/Palloc/Examples.antt =====
-- An allocator of eight page frames, and the allocator's theorems at it.
use protura.Base.Arrays.{update, sum_below}
use protura.Base.{ℕ, ◌≤◌, ◌≡◌, ◌==◌, refl, false, none, some, [], ◌∷◌, arith, if◌then◌else◌}
use protura.Palloc.{
  Page, BuddyMap, Buddy, pfree_add_pages, pfree_loop, can_merge, merge, add_block, has_order,
  get_buddy_pn, clear_bit, list_del, palloc, take_last, take_block, break_page, split_last,
  split_block, last,
}
use protura.Palloc.Lists.{cover, is_in, list_cover}
use protura.Palloc.Free.{IsValid}
use protura.Palloc.Take.{Allocates, palloc-Allocates, pfree_add_pages-palloc}

abbrev no_map : BuddyMap
no_map = record { free_list = []; free_count = 0 }

abbrev no_page : Page
no_page = record { order = none; invalid = false; use_count = 0 }

-- No page has been freed yet.
abbrev empty_pool : Buddy
empty_pool = record {
  pages = λ p. no_page;
  maps = λ k. no_map;
  free_pages = 0;
  kern_start = 0;
  kern_end = 0;
}

-- The eight frames from page 8 on, freed as one block.
abbrev eight : Buddy
eight = record {
  pages =
      λ p. if p == 8 then record { order = some 3; invalid = false; use_count = 0 } else no_page;
  maps = λ k. if k == 3 then record { free_list = 8 ∷ []; free_count = 1 } else no_map;
  free_pages = 8;
  kern_start = 0;
  kern_end = 0;
}

empty_pool-IsValid : IsValid empty_pool
unfolding sum_below
empty_pool-IsValid = record {
  counted = λ k h. refl;
  aligned = λ k h. tt;
  listed = λ p k h e. cc;
  total = refl;
}

eight-IsValid : IsValid eight
unfolding is_in sum_below
eight-IsValid = record {
  counted = λ k h. ground arith;
  aligned = λ k h. ground arith;
  listed = λ p k h e. ground arith;
  total = refl;
}

eight_once : (f : ℕ) → cover eight f ≤ 1
unfolding cover list_cover sum_below
eight_once f = ground arith

-- The first page of a block of eight.
first_of_eight : (palloc 0 eight).0 ≡ some 8
unfolding palloc take_last take_block break_page split_last split_block last list_del update
    get_buddy_pn
first_of_eight = refl

-- Two single pages become one block of two.
free_two : ((pfree_add_pages 5 0 (pfree_add_pages 4 0 empty_pool)).maps 1).free_list ≡ 4 ∷ []
unfolding pfree_add_pages pfree_loop can_merge merge add_block has_order get_buddy_pn clear_bit
    list_del update
free_two = refl

palloc-Allocates_example : Allocates 1 eight (palloc 1 eight)
palloc-Allocates_example = palloc-Allocates 1 eight (omega arith) eight-IsValid

two_of_eight : (palloc 1 eight).0 ≡ some 8
unfolding palloc take_last take_block break_page split_last split_block last list_del update
    get_buddy_pn
two_of_eight = refl

pfree_add_pages-palloc_example :
    let b = pfree_add_pages 8 1 (palloc 1 eight).1 in
    IsValid b × (b.free_pages ≡ 8) × ((q : ℕ) → cover b q ≡ cover eight q)
pfree_add_pages-palloc_example =
    pfree_add_pages-palloc 1 8 eight (omega arith) eight-IsValid two_of_eight
