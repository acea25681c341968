-- ===== src/Palloc.antt =====
-- src/mm/palloc.c: the buddy allocator of physical pages. Every function runs under the
-- allocator's spinlock. The page array is a function from page numbers, so that a read beyond its
-- end gives whatever stands there; a free list holds page numbers, its first page first.
pub mod Blocks
pub mod Lists
pub mod Free
pub mod Alloc
pub mod Take
mod Examples
use protura.Base.Arrays.{update, sum_below, sum_below-update}
use protura.Base.{
  ℕ, zero, suc, ◌+◌, ◌-◌, ◌*◌, ◌/◌, ◌%◌, ◌^◌, ◌==◌, ◌!=◌, ◌&&◌, ◌||◌, not, ltb, leb, Bool, true,
  false, Option, none, some, List, [], ◌∷◌, if◌then◌else◌,
}
use protura.Base.Word.{add32, sub32}

-- `struct page`: its order, where `none` is -1, the flag PG_INVALID and the use count.
pub record Page : Type 0 where
  pub order : Option ℕ
  pub invalid : Bool
  pub use_count : ℕ

-- `struct page_buddy_map`, without its wait queue.
pub record BuddyMap : Type 0 where
  pub free_list : List ℕ
  pub free_count : ℕ

-- `struct page_buddy_alloc`, and the physical range of the kernel's image.
pub record Buddy : Type 0 where
  pub pages : ℕ → Page
  pub maps : ℕ → BuddyMap
  pub free_pages : ℕ
  pub kern_start : ℕ
  pub kern_end : ℕ

-- `PALLOC_MAPS`
abbrev pub palloc_maps : ℕ
palloc_maps = 6

-- `pn ^ (1 << order)`
unfoldable pub get_buddy_pn : ℕ → ℕ → ℕ
get_buddy_pn pn order = if pn / 2 ^ order % 2 == 0 then pn + 2 ^ order else pn - 2 ^ order

-- `pn & ~(1 << order)`
unfoldable pub clear_bit : ℕ → ℕ → ℕ
clear_bit pn order = if pn / 2 ^ order % 2 == 0 then pn else pn - 2 ^ order

-- `list_del`
unfoldable pub list_del : ℕ → List ℕ → List ℕ
list_del pn [] = []
list_del pn (x ∷ xs) = if x == pn then xs else x ∷ list_del pn xs

unfoldable pub has_order : Page → ℕ → Bool
has_order p order = elim p.order [ none ↦ false | some k ↦ k == order ]

abbrev pub set_order : ℕ → Option ℕ → Buddy → Buddy
set_order pn o a = record a { pages = update a.pages pn (record (a.pages pn) { order = o }) }

-- A page goes to the front of a free list.
abbrev pub list_add : ℕ → ℕ → Buddy → Buddy
list_add order pn a = record a {
  maps = update a.maps order (record {
    free_list = pn ∷ (a.maps order).free_list;
    free_count = (a.maps order).free_count + 1;
  });
}

abbrev pub list_remove : ℕ → ℕ → Buddy → Buddy
list_remove order pn a = record a {
  maps = update a.maps order (record {
    free_list = list_del pn (a.maps order).free_list;
    free_count = (a.maps order).free_count - 1;
  });
}

-- One round of the loop of `__pfree_add_pages`: the buddy leaves its free list, and the upper of
-- the two pages loses its order.
unfoldable pub merge : ℕ → ℕ → Buddy → Buddy
merge cur order a =
    let lower = clear_bit cur order in
    set_order (get_buddy_pn lower order) none (list_remove order (get_buddy_pn cur order) a)

unfoldable pub can_merge : ℕ → ℕ → Buddy → Bool
can_merge cur order a =
    let buddy = a.pages (get_buddy_pn cur order) in has_order buddy order && not buddy.invalid

-- The end of `__pfree_add_pages`.
unfoldable pub add_block : ℕ → ℕ → Buddy → Buddy
add_block cur order a = list_add order cur (set_order cur (some order) a)

-- The loop, on the number of orders that are left above: `rounds` is PALLOC_MAPS - 1 - order.
unfoldable pub pfree_loop : ℕ → ℕ → ℕ → Buddy → Buddy
pfree_loop zero cur order a = add_block cur order a
pfree_loop (suc rounds) cur order a =
    let merged = pfree_loop rounds (clear_bit cur order) (order + 1) (merge cur order a) in
    if can_merge cur order a then merged else add_block cur order a

unfoldable pub pfree_add_pages : ℕ → ℕ → Buddy → Buddy
pfree_add_pages cur order a =
    let b = pfree_loop (palloc_maps - 1 - order) cur order a in
    record b { free_pages = b.free_pages + 2 ^ order }

-- `page_to_pa` in the kernel's range.
unfoldable pub is_kernel : Buddy → ℕ → Bool
is_kernel a pn = leb a.kern_start (pn * 4096) && ltb (pn * 4096) a.kern_end

unfoldable pub mark_page_free : ℕ → Buddy → Buddy
mark_page_free pn a = if is_kernel a pn then a else pfree_add_pages pn 0 a

-- `pfree` of a page that is not NULL: the block goes back with its last reference.
unfoldable pub pfree : ℕ → ℕ → Buddy → Buddy
pfree pn order a =
    let p = a.pages pn in
    let b = record a { pages = update a.pages pn (record p { use_count = sub32 p.use_count 1 }) } in
    if is_kernel a pn then a else if p.use_count == 1 then pfree_add_pages pn order b else b

-- The page that `list_take_last` takes; a page is in a list at most once, so `list_del` takes it out.
unfoldable pub last : List ℕ → Option ℕ
last [] = none
last (x ∷ []) = some x
last (x ∷ y ∷ xs) = last (y ∷ xs)

-- A block of the given order is split in two of the order below, `half`.
unfoldable pub split_block : ℕ → ℕ → ℕ → Buddy → Buddy
split_block half order pn a =
    let buddy = get_buddy_pn pn half in
    let b = set_order buddy (some half) (set_order pn (some half) (list_remove order pn a)) in
    list_add half buddy (list_add half pn b)

-- The rest of `break_page` after the orders above have been tried.
unfoldable pub split_last : ℕ → Buddy → Buddy
split_last order a =
    if (a.maps order).free_count == 0 then a else elim (last (a.maps order).free_list) [
      | none ↦ a
      | some pn ↦ split_block (order - 1) order pn a
    ]

-- `above` counts the orders from this one up to PALLOC_MAPS; at none the source reports a failure.
unfoldable pub break_page : ℕ → ℕ → Buddy → Buddy
break_page zero order a = a
break_page (suc above) order a =
    let b = break_page above (order + 1) a in
    split_last order (if (a.maps order).free_count == 0 then b else a)

-- `__palloc_phys_multiple` behind its wait; `palloc` returns its page. The page is NULL if no
-- block could be broken.
unfoldable pub take_block : ℕ → ℕ → Buddy → Buddy
take_block order pn a =
    let b = set_order pn none (list_remove order pn a) in
    let p = b.pages pn in
    record b {
      pages = update b.pages pn (record p { use_count = add32 p.use_count 1 });
      free_pages = b.free_pages - 2 ^ order;
    }

-- The rest of `__palloc_phys_multiple` after `break_page`.
unfoldable pub take_last : ℕ → Buddy → Option ℕ × Buddy
take_last order a =
    if (a.maps order).free_count == 0 then (none, a) else elim (last (a.maps order).free_list) [
      | none ↦ (none, a)
      | some pn ↦ (some pn, take_block order pn a)
    ]

unfoldable pub palloc : ℕ → Buddy → Option ℕ × Buddy
palloc order a =
    let b = break_page (palloc_maps - (order + 1)) (order + 1) a in
    take_last order (if (a.maps order).free_count == 0 then b else a)
