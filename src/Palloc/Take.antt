-- ===== src/Palloc/Take.antt =====
-- Taking a block out of its free list, and the allocation as a whole.
use protura.Base.Arrays.{update}
use protura.Base.{
  ℕ, ◌+◌, ◌-◌, ◌%◌, ◌^◌, ◌≤◌, ◌<◌, ◌≡◌, ◌⊎◌, inl, inr, ◌==◌, refl, sym, ◌∙◌, true, Option, none,
  some, List, arith, Bool-cases,
}
use protura.Palloc.{
  Buddy, palloc_maps, break_page, take_block, take_last, palloc, pfree_add_pages, list_remove,
}
use protura.Palloc.Blocks.{in_block}
use protura.Palloc.Lists.{
  cover, is_in, length-list_del, IsAligned-in, list_del-IsAligned, is_in-list_del,
}
use protura.Palloc.Free.{IsValid, pfree_add_pages_lem, Adds, pool, popped}
use protura.Palloc.Alloc.{SameFree, SameFree-refl, NoneFrom, break_page_lem, last_block, none_from}

-- A block that was taken: its frames were free, each once, and are free no more.
pub record Taken (order pn : ℕ) (a b : Buddy) : Type 0 where
  pub valid : IsValid b
  pub aligned : pn % 2 ^ order ≡ 0
  pub counted : b.free_pages + 2 ^ order ≡ a.free_pages
  pub frames : (q : ℕ) → cover b q + in_block q pn order ≡ cover a q
  pub unordered : (b.pages pn).order ≡ none

module _ (order pn : ℕ) (a : Buddy) (h : order < 6) (v : IsValid a)
    (there : is_in pn (a.maps order).free_list ≡ true) where
  abbrev xs : List ℕ
  xs = (a.maps order).free_list

  abbrev taken : Buddy
  taken = take_block order pn a

  taken_down : Adds pn order (list_remove order pn a) a
  taken_down =
      popped pn order ((a.maps order).free_count - 1) a (list_remove order pn a) h there refl refl

  taken_frames : (q : ℕ) → cover taken q + in_block q pn order ≡ cover a q
  unfolding cover take_block
  taken_frames q = sym (taken_down.frames q)

  taken_amount : pool taken + 2 ^ order ≡ pool a
  unfolding take_block
  taken_amount = sym taken_down.amount

  taken_listed :
      (p k : ℕ) → k < 6 → (taken.pages p).order ≡ some k → is_in p (taken.maps k).free_list ≡ true
  unfolding take_block update
  taken_listed p k hk o = ground (arith, v.listed p k hk, is_in-list_del p pn xs)

  taken-IsValid : IsValid taken
  unfolding take_block update
  taken-IsValid = record {
    counted =
        λ k hk. ground (arith, v.counted k hk, v.counted order h, length-list_del pn xs there);
    aligned =
        λ k hk. ground (arith, v.aligned k hk, list_del-IsAligned order pn xs (v.aligned order h));
    listed = taken_listed;
    total = omega (arith, v.total, taken_amount);
  }

  take_block-Taken : Taken order pn a taken
  unfolding take_block update
  take_block-Taken = record {
    valid = taken-IsValid;
    aligned = IsAligned-in order pn xs (v.aligned order h) there;
    counted = omega (arith, v.total, taken_amount);
    frames = taken_frames;
    unordered = ground arith;
  }

Taken-from : (order pn : ℕ) (a c b : Buddy) → SameFree a c → Taken order pn c b → Taken order pn a b
Taken-from order pn a c b s t = record {
  valid = t.valid;
  aligned = t.aligned;
  counted = t.counted ∙ s.same_total;
  frames = λ q. t.frames q ∙ s.frames q;
  unordered = t.unordered;
}

-- A block that was free, or a failure that only an allocator without such a block has.
abbrev pub Allocates : ℕ → Buddy → Option ℕ × Buddy → Type 0
Allocates order a r =
    ((r.0 ≡ none) × NoneFrom order a × IsValid r.1 × SameFree a r.1)
    ⊎ ((pn : ℕ) × (r.0 ≡ some pn) × Taken order pn a r.1)

take_last-Allocates :
    (order : ℕ) (a c : Buddy)
    → order < 6
    → IsValid c
    → SameFree a c
    → ((c.maps order).free_count ≡ 0 → NoneFrom order a)
    → Allocates order a (take_last order c)
unfolding take_last
take_last-Allocates order a c h v same no_block =
    elim (Bool-cases ((c.maps order).free_count == 0)) [
      | inl empty ↦ rw empty (inl (refl, no_block (ground arith), v, same))
      | inr full ↦
          let (pn, l, there) = last_block order c h v (ground arith) in
          let b = take_block order pn c in
          rw (full, l)
            (inr (pn, refl, Taken-from order pn a c b same (take_block-Taken order pn c h v there)))
    ]

-- An allocation of an order below PALLOC_MAPS either takes an aligned block whose frames were free,
-- each counted once, and are free no more, takes its size off `free_pages` and keeps the invariant;
-- or it fails, keeps the invariant and the free frames, and no block of the order or a larger one
-- was there.
pub palloc-Allocates :
    (order : ℕ) (a : Buddy) → order < 6 → IsValid a → Allocates order a (palloc order a)
unfolding palloc
palloc-Allocates order a h v =
    let b = break_page (palloc_maps - (order + 1)) (order + 1) a in
    let up =
      break_page_lem (palloc_maps - (order + 1)) (order + 1) a (omega arith) (omega arith) v in
    elim (Bool-cases ((a.maps order).free_count == 0)) [
      | inl empty ↦
          let rest = none_from order a b (ground arith) up in
          rw empty (take_last-Allocates order a b h up.valid up.same rest)
      | inr full ↦
          let rest : (a.maps order).free_count ≡ 0 → NoneFrom order a = λ z. ground arith in
          rw full (take_last-Allocates order a a h v (SameFree-refl a) rest)
    ]

-- In an allocator whose free frames are in one block each, a frame of a block that was taken is in
-- no free block afterwards, so that no allocation before it is freed can take it again.
pub cover-palloc :
    (order pn q : ℕ) (a : Buddy)
    → order < 6
    → IsValid a
    → ((f : ℕ) → cover a f ≤ 1)
    → (palloc order a).0 ≡ some pn
    → pn ≤ q
    → q < pn + 2 ^ order
    → cover (palloc order a).1 q ≡ 0
cover-palloc order pn q a h v once r low high = elim (palloc-Allocates order a h v) [
  | inl (failed, _, _, _) ↦ cc
  | inr (pn', r', t) ↦
      let same : pn' ≡ pn = ground arith in ground (arith, rw same at (t.frames q), once q)
]

-- A block that was allocated and is given back leaves the allocator valid, with the free frames and
-- the count of free pages that it had before.
pub pfree_add_pages-palloc :
    (order pn : ℕ) (a : Buddy)
    → order < 6
    → IsValid a
    → (palloc order a).0 ≡ some pn
    → let b = pfree_add_pages pn order (palloc order a).1 in
      IsValid b × (b.free_pages ≡ a.free_pages) × ((q : ℕ) → cover b q ≡ cover a q)
pfree_add_pages-palloc order pn a h v r = elim (palloc-Allocates order a h v) [
  | inl (failed, _, _, _) ↦ cc
  | inr (pn', r', t') ↦
      let same : pn' ≡ pn = ground arith in
      let t = rw same at t' in
      let (valid, total, frames) =
        pfree_add_pages_lem pn order (palloc order a).1 h t.aligned t.valid in
      (valid, total ∙ t.counted, λ q. frames q ∙ t.frames q)
]
