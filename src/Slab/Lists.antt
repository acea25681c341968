-- ===== src/Slab/Lists.antt =====
-- Lists of free objects: in order, on the grid of objects, and within the frame.
use protura.Base.{
  ℕ, zero, suc, ◌+◌, ◌*◌, ◌^◌, ◌≤◌, ◌<◌, ◌==◌, ltb, leb, ◌≡◌, refl, ap, subst, true, false, ◌&&◌,
  Option, none, some, List, [], ◌∷◌, length, arith, Bool-cases, inl, inr,
}
use mathlib.Core.Option
use protura.Base.Members.{is_in}
use native.Mathlib.Nat.{mul-le-mul_right}
use protura.Slab.{align_2, objects, insert}
use protura.Slab.Align.{IsPower, align_2-next}

-- An object of a frame: some objects past the first.
abbrev pub OnGrid : ℕ → ℕ → ℕ → Type 0
OnGrid size first obj = (k : ℕ) × (obj ≡ first + k * size)

-- Free objects between two addresses.
unfoldable pub IsFree : ℕ → ℕ → ℕ → ℕ → List ℕ → Type 0
IsFree size first low high [] = low ≤ high
IsFree size first low high (obj ∷ objs) =
    (low ≤ obj) × OnGrid size first obj × IsFree size first (obj + size) high objs

pub OnGrid-apart :
    (size first x y : ℕ) → OnGrid size first x → OnGrid size first y → x < y → x + size ≤ y
OnGrid-apart size first x y (k, e) (l, e') h = elim (Bool-cases (ltb k l)) [
  | inl less ↦
      let m = mul-le-mul_right {m = suc k} {n = l} size (ground arith) in omega (arith, e, e', m)
  | inr more ↦
      let m = mul-le-mul_right {m = l} {n = k} size (ground arith) in
      absurd (omega (arith, e, e', m))
]

pub IsFree-length :
    (size first low high : ℕ) (objs : List ℕ)
    → IsFree size first low high objs
    → low + length objs * size ≤ high
unfolding IsFree
IsFree-length size first low high [] h = omega arith
IsFree-length size first low high (obj ∷ objs) h =
    omega (arith, h.0, IsFree-length size first (obj + size) high objs h.2)

pub IsFree-lower :
    (size first low low' high : ℕ) (objs : List ℕ)
    → low' ≤ low
    → IsFree size first low high objs
    → IsFree size first low' high objs
unfolding IsFree
IsFree-lower size first low low' high [] l h = omega (arith, l, h)
IsFree-lower size first low low' high (obj ∷ objs) l h = (omega (arith, l, h.0), h.1, h.2)

pub objects-IsFree :
    (size first q k n high : ℕ)
    → 0 < size
    → IsPower size
    → first ≡ q * size
    → high + size ≤ 2 ^ 32
    → first + (k + n) * size ≡ high
    → IsFree size first (first + k * size) high (objects size (first + k * size) n)
unfolding IsFree objects
objects-IsFree size first q k zero high p power e l h = omega (arith, h)
objects-IsFree size first q k (suc n) high p power e l h =
    let here : first + k * size ≡ (q + k) * size = omega (arith, e) in
    let room : (q + k) * size + size + size ≤ 2 ^ 32 = omega (arith, e, h, l) in
    let step : align_2 (first + k * size + size) size ≡ first + k * size + size =
      rw here (align_2-next (q + k) size p power room) in
    let next : first + k * size + size ≡ first + suc k * size = omega arith in
    (
      omega arith,
      (k, refl),
      rw (step, next) (objects-IsFree size first q (suc k) n high p power e l (omega (arith, h))),
    )

pub length-objects : (size obj n : ℕ) → length (objects size obj n) ≡ n
unfolding objects
length-objects size obj zero = refl
length-objects size obj (suc n) = ap suc (length-objects size (align_2 (obj + size) size) n)

-- An object below all free ones goes to the front.
pub insert-below :
    (size first obj high : ℕ) (objs : List ℕ)
    → 0 < size
    → IsFree size first (obj + size) high objs
    → insert size obj objs ≡ some (obj ∷ objs)
unfolding IsFree insert
insert-below size first obj high [] p h = refl
insert-below size first obj high (x ∷ objs) p h =
    let above : leb x obj ≡ false = ground (arith, h.0) in
    let below : leb obj x ≡ true = ground (arith, h.0) in rw (above, below) refl

is_in-low :
    (size first low high x : ℕ) (objs : List ℕ)
    → IsFree size first low high objs
    → is_in x objs ≡ true
    → low ≤ x
unfolding IsFree is_in
is_in-low size first low high x [] h i = absurd cc
is_in-low size first low high x (y ∷ objs) h i = elim (Bool-cases (y == x)) [
  | inl same ↦ ground (arith, h.0)
  | inr other ↦ omega (arith, h.0, is_in-low size first (y + size) high x objs h.2 (rw other at i))
]

-- An address in a free object is refused.
pub insert-inside :
    (size first low high addr x : ℕ) (objs : List ℕ)
    → IsFree size first low high objs
    → is_in x objs ≡ true
    → x ≤ addr
    → addr < x + size
    → insert size addr objs ≡ none
unfolding IsFree insert is_in
insert-inside size first low high addr x [] h i l u = absurd cc
insert-inside size first low high addr x (y ∷ objs) h i l u = elim (Bool-cases (y == x)) [
  | inl same ↦ let e : leb y addr && ltb addr (y + size) ≡ true = ground arith in rw e refl
  | inr other ↦
      let i' : is_in x objs ≡ true = rw other at i in
      let above = is_in-low size first (y + size) high x objs h.2 i' in
      let later = insert-inside size first (y + size) high addr x objs h.2 i' l u in
      let e : leb y addr && ltb addr (y + size) ≡ false = ground arith in
      let e' : leb addr y ≡ false = ground arith in rw (e, e', later) refl
]

-- The object goes further down the list.
insert-later :
    (size first low high y : ℕ) (objs objs' : List ℕ) (r : Option (List ℕ))
    → low ≤ y
    → OnGrid size first y
    → ((later : List ℕ)
        → r ≡ some later
        → IsFree size first (y + size) high later × (length later ≡ suc (length objs)))
    → Option.map (◌∷◌ y) r ≡ some objs'
    → IsFree size first low high objs' × (length objs' ≡ suc (suc (length objs)))
unfolding IsFree
insert-later size first low high y objs objs' none l g rest e = absurd cc
insert-later size first low high y objs objs' (some later) l g rest e =
    let same : y ∷ later ≡ objs' = cc in
    let v = rest later refl in
    subst (λ o. IsFree size first low high o × (length o ≡ suc (suc (length objs)))) same
      ((l, g, v.0), ap suc v.1)

-- An object of the frame that is inserted leaves the list in order.
pub insert-IsFree :
    (size first low high obj : ℕ) (objs objs' : List ℕ)
    → 0 < size
    → IsFree size first low high objs
    → OnGrid size first obj
    → low ≤ obj
    → obj + size ≤ high
    → insert size obj objs ≡ some objs'
    → IsFree size first low high objs' × (length objs' ≡ suc (length objs))
unfolding IsFree insert
insert-IsFree size first low high obj [] objs' p h g l u e =
    let same : obj ∷ [] ≡ objs' = cc in
    subst (λ o. IsFree size first low high o × (length o ≡ 1)) same ((l, g, u), refl)
insert-IsFree size first low high obj (y ∷ objs) objs' p h g l u e =
    elim (Bool-cases (leb y obj && ltb obj (y + size))) [
      | inl within ↦ let e' = rw within at e in absurd cc
      | inr without ↦ elim (Bool-cases (leb obj y)) [
        | inl first' ↦
            let e' = rw (without, first') at e in
            let same : obj ∷ y ∷ objs ≡ objs' = cc in
            let apart = OnGrid-apart size first obj y g h.1 (ground arith) in
            subst (λ o. IsFree size first low high o × (length o ≡ suc (suc (length objs)))) same
              ((l, g, (apart, h.1, h.2)), refl)
        | inr later ↦
            let e' = rw (without, later) at e in
            insert-later size first low high y objs objs' (insert size obj objs) h.0 h.1
              (λ more z.
                insert-IsFree size first (y + size) high obj objs more p h.2 g (ground arith) u z)
              e'
      ]
    ]
