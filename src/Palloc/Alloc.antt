-- ===== src/Palloc/Alloc.antt =====
-- Taking a block: splitting larger blocks keeps the free frames, and the block's frames leave them.
use protura.Base.Arrays.{update}
use protura.Base.{
  ℕ, zero, suc, ◌+◌, ◌-◌, ◌%◌, ◌^◌, ◌≤◌, ◌<◌, ◌≡◌, ◌≢◌, ◌⊎◌, inl, inr, ◌==◌, refl, ◌∙◌, true, some,
  List, length, arith, Bool-cases, Option-cases,
}
use protura.Palloc.{
  Buddy, get_buddy_pn, clear_bit, last, split_block, split_last, break_page, list_add, list_remove,
  set_order,
}
use protura.Palloc.Blocks.{merge_blocks, double, split_even}
use protura.Palloc.Lists.{
  cover, is_in, IsAligned, length-list_del, IsAligned-in, list_del-IsAligned, is_in-list_del,
  last-in, last-some,
}
use protura.Palloc.Free.{IsValid, pool, popped, pushed}

-- The same frames are free, and as many are counted.
pub record SameFree (a b : Buddy) : Type 0 where
  pub frames : (q : ℕ) → cover b q ≡ cover a q
  pub amount : pool b ≡ pool a
  pub same_total : b.free_pages ≡ a.free_pages

module _ (half order pn : ℕ) (a : Buddy) (e : order ≡ half + 1) (h : order < 6) (v : IsValid a)
    (there : is_in pn (a.maps order).free_list ≡ true) where
  abbrev xs : List ℕ
  xs = (a.maps order).free_list

  abbrev split : Buddy
  split = split_block half order pn a

  split_aligned :
      (pn % 2 ^ half ≡ 0)
      × (get_buddy_pn pn half % 2 ^ half ≡ 0)
      × (clear_bit pn half ≡ pn)
      × (get_buddy_pn pn half ≢ pn)
  split_aligned =
      let al : pn % 2 ^ order ≡ 0 = IsAligned-in order pn xs (v.aligned order h) there in
      split_even pn half (rw e at al)

  split_frames : SameFree a split
  unfolding split_block
  split_frames =
      let buddy = get_buddy_pn pn half in
      let low = list_remove order pn a in
      let b = set_order buddy (some half) (set_order pn (some half) low) in
      let c = list_add half pn b in
      let down = popped pn order ((a.maps order).free_count - 1) a b h there refl refl in
      let one = pushed pn half b c (omega arith) refl refl in
      let two = pushed buddy half c (list_add half buddy c) (omega arith) refl refl in
      let (al, _, clear, _) = split_aligned in
      record {
        frames = λ q.
            let whole = rw (clear, ← e) at (merge_blocks q pn half al) in
            omega (arith, down.frames q, one.frames q, two.frames q, whole);
        amount = omega (arith, down.amount, one.amount, two.amount, rw (← e) at (double half));
        same_total = omega (arith, down.same_total, one.same_total, two.same_total);
      }

  split_counted : (k : ℕ) → k < 6 → (split.maps k).free_count ≡ length (split.maps k).free_list
  unfolding split_block update
  split_counted k hk =
      ground (arith, v.counted k hk, v.counted order h, v.counted half, length-list_del pn xs there)

  split-IsAligned : (k : ℕ) → k < 6 → IsAligned k (split.maps k).free_list
  unfolding split_block update
  split-IsAligned k hk =
      ground
        (arith, v.aligned k hk, split_aligned, list_del-IsAligned order pn xs (v.aligned order h))

  split_listed :
      (p k : ℕ) → k < 6 → (split.pages p).order ≡ some k → is_in p (split.maps k).free_list ≡ true
  unfolding split_block update is_in
  split_listed p k hk o = ground (arith, v.listed p k hk, is_in-list_del p pn xs)

  split-IsValid : IsValid split
  split-IsValid = record {
    counted = split_counted;
    aligned = split-IsAligned;
    listed = split_listed;
    total = omega (arith, v.total, split_frames.amount, split_frames.same_total);
  }

  split_nonempty : (split.maps half).free_count ≢ 0
  unfolding split_block update
  split_nonempty = ground arith

pub SameFree-refl : (a : Buddy) → SameFree a a
SameFree-refl a = record { frames = λ q. refl; amount = refl; same_total = refl }

SameFree-trans : (a b c : Buddy) → SameFree a b → SameFree b c → SameFree a c
SameFree-trans a b c f g = record {
  frames = λ q. g.frames q ∙ f.frames q;
  amount = g.amount ∙ f.amount;
  same_total = g.same_total ∙ f.same_total;
}

-- No block of this order or of a larger one.
abbrev pub NoneFrom : ℕ → Buddy → Type 0
NoneFrom order a = (k : ℕ) → order ≤ k → k < 6 → (a.maps k).free_count ≡ 0

-- What breaking a block of `order` gives: the same free frames, and a block of the order below, if
-- any larger block was there.
pub record Broken (order : ℕ) (a b : Buddy) : Type 0 where
  pub valid : IsValid b
  pub same : SameFree a b
  pub found : ((b.maps (order - 1)).free_count ≢ 0) ⊎ NoneFrom order a

pub last_block :
    (order : ℕ) (a : Buddy)
    → order < 6
    → IsValid a
    → (a.maps order).free_count ≢ 0
    → (pn : ℕ) × (last (a.maps order).free_list ≡ some pn)
      × (is_in pn (a.maps order).free_list ≡ true)
last_block order a h v full =
    let xs = (a.maps order).free_list in
    let some_page = last-some xs (omega (arith, v.counted order h)) in
    elim (Option-cases (last xs)) [
      | inl e ↦ absurd (some_page e)
      | inr (pn, e) ↦ (pn, e, last-in xs pn e)
    ]

break_found :
    (order pn : ℕ) (a c : Buddy)
    → order ≢ 0
    → order < 6
    → IsValid c
    → SameFree a c
    → is_in pn (c.maps order).free_list ≡ true
    → Broken order a (split_block (order - 1) order pn c)
break_found order pn a c nz h v same there =
    let half = order - 1 in
    let e : order ≡ half + 1 = omega arith in
    let b = split_block half order pn c in
    record {
      valid = split-IsValid half order pn c e h v there;
      same = SameFree-trans a c b same (split_frames half order pn c e h v there);
      found = inl (split_nonempty half order pn c e h v there);
    }

split_last-Broken :
    (order : ℕ) (a c : Buddy)
    → order ≢ 0
    → order < 6
    → IsValid c
    → SameFree a c
    → ((c.maps order).free_count ≡ 0 → NoneFrom order a)
    → Broken order a (split_last order c)
unfolding split_last
split_last-Broken order a c nz h v same no_block =
    elim (Bool-cases ((c.maps order).free_count == 0)) [
      | inl empty ↦
          rw empty (record { valid = v; same = same; found = inr (no_block (ground arith)) })
      | inr full ↦
          let (pn, l, there) = last_block order c h v (ground arith) in
          rw (full, l) (break_found order pn a c nz h v same there)
    ]

add_sub : (n : ℕ) → n + 1 - 1 ≡ n
add_sub n = omega arith

-- Nothing at any order above, so nothing from this one on.
pub none_from :
    (order : ℕ) (a b : Buddy)
    → (a.maps order).free_count ≡ 0
    → Broken (order + 1) a b
    → (b.maps order).free_count ≡ 0
    → NoneFrom order a
none_from order a b here up empty k low high = elim up.found [
  | inl full ↦ absurd (full (rw (add_sub order) empty))
  | inr above ↦ ground (arith, above k)
]

-- Splitting goes up to the first order with a block, whichever this is.
pub break_page_lem :
    (above order : ℕ) (a : Buddy)
    → order + above ≡ 6
    → order ≢ 0
    → IsValid a
    → Broken order a (break_page above order a)
unfolding break_page
break_page_lem zero order a e nz v = record {
  valid = v;
  same = SameFree-refl a;
  found = inr (λ k low high. absurd (omega arith));
}
break_page_lem (suc above) order a e nz v =
    let b = break_page above (order + 1) a in
    let up = break_page_lem above (order + 1) a (omega arith) (omega arith) v in
    elim (Bool-cases ((a.maps order).free_count == 0)) [
      | inl empty ↦
          let rest = none_from order a b (ground arith) up in
          rw empty (split_last-Broken order a b nz (omega arith) up.valid up.same rest)
      | inr full ↦
          let rest : (a.maps order).free_count ≡ 0 → NoneFrom order a = λ z. ground arith in
          rw full (split_last-Broken order a a nz (omega arith) v (SameFree-refl a) rest)
    ]
