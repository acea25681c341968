-- ===== src/Ext2/Bits.antt =====
-- The search of a bitmap for a zero bit, against the first zero bit there is.
use protura.Base.{
  ℕ, zero, suc, ◌+◌, ◌-◌, ◌*◌, ◌≤◌, ◌<◌, ◌≡◌, refl, Bool, true, false, ltb, ◌==◌, ==_iff, subst,
  sym, Option, none, some, arith, Bool-cases, inl, inr,
}
use protura.Ext2.{
  or_else, find_in_byte, is_none, is_full, find_in_bytes, bit_find_next_zero, bit_find_first_zero,
}

-- The first zero bit from `lo` on and below `hi`, or none if all are set.
pub data FirstZero (bits : ℕ → Bool) (lo hi : ℕ) : Option ℕ → Type 0 where
  all_set : ((j : ℕ) → lo ≤ j → j < hi → bits j ≡ true) → FirstZero bits lo hi none
  first_zero :
      (loc : ℕ)
      → lo ≤ loc
      → loc < hi
      → bits loc ≡ false
      → ((j : ℕ) → lo ≤ j → j < loc → bits j ≡ true)
      → FirstZero bits lo hi (some loc)

-- A search that goes on where the first one ended.
or_else-FirstZero :
    (bits : ℕ → Bool) (lo mid hi : ℕ) (r next : Option ℕ)
    → mid ≤ hi
    → lo ≤ mid
    → FirstZero bits lo mid r
    → FirstZero bits mid hi next
    → FirstZero bits lo hi (or_else r next)
unfolding or_else
or_else-FirstZero bits lo mid hi (some a) next h k (first_zero b l u z below) later =
    first_zero a l (omega arith) z below
or_else-FirstZero bits lo mid hi none none h k (all_set low) (all_set high) = all_set (λ j l u.
    elim (Bool-cases (ltb j mid)) [
      | inl before ↦ low j l (ground arith)
      | inr after ↦ high j (ground arith) u
    ])
or_else-FirstZero bits lo mid hi none (some a) h k (all_set low) (first_zero b l u z below) =
    first_zero a (omega arith) u z (λ j l u. elim (Bool-cases (ltb j mid)) [
      | inl before ↦ low j l (ground arith)
      | inr after ↦ below j (ground arith) u
    ])

-- A set bit before the range changes nothing.
from_next :
    (bits : ℕ → Bool) (lo hi mid top : ℕ) (r : Option ℕ)
    → bits lo ≡ true
    → mid ≡ lo + 1
    → top ≡ hi
    → FirstZero bits mid top r
    → FirstZero bits lo hi r
from_next bits lo hi mid top none e m t (all_set high) = all_set (λ j l u.
    elim (Bool-cases (lo == j)) [
      | inl same ↦ subst (λ (k : ℕ). bits k ≡ true) ((==_iff lo j).0 same) e
      | inr other ↦ high j (ground arith) (omega arith)
    ])
from_next bits lo hi mid top (some a) e m t (first_zero b l u z below) =
    first_zero a (omega arith) (omega arith) z (λ j l u. elim (Bool-cases (lo == j)) [
      | inl same ↦ subst (λ (k : ℕ). bits k ≡ true) ((==_iff lo j).0 same) e
      | inr other ↦ below j (ground arith) u
    ])

full_byte :
    (bits : ℕ → Bool) (lo mid hi : ℕ) (r next : Option ℕ)
    → mid ≤ hi
    → lo ≤ mid
    → is_none r ≡ true
    → FirstZero bits lo mid r
    → FirstZero bits mid hi next
    → FirstZero bits lo hi next
unfolding is_none or_else
full_byte bits lo mid hi (some a) next h k e low high = cc
full_byte bits lo mid hi none next h k e low high =
    or_else-FirstZero bits lo mid hi none next h k low high

FirstZero-at :
    (bits : ℕ → Bool) (lo hi lo' hi' : ℕ) (r : Option ℕ)
    → lo ≡ lo'
    → hi ≡ hi'
    → FirstZero bits lo hi r
    → FirstZero bits lo' hi' r
FirstZero-at bits lo hi lo' hi' r e h f = rw (sym e, sym h) f

find_in_byte-FirstZero :
    (bits : ℕ → Bool) (i k n : ℕ)
    → FirstZero bits (i * 8 + k) (i * 8 + k + n) (find_in_byte bits i k n)
unfolding find_in_byte
find_in_byte-FirstZero bits i k zero = all_set (λ j l u. absurd (omega arith))
find_in_byte-FirstZero bits i k (suc n) = elim (Bool-cases (bits (i * 8 + k))) [
  | inl e ↦
      let rest = find_in_byte-FirstZero bits i (k + 1) n in
      rw e (from_next bits (i * 8 + k) _ _ _ _ e (omega arith) (omega arith) rest)
  | inr e ↦
      rw e (first_zero (i * 8 + k) (omega arith) (omega arith) e (λ j l u. absurd (omega arith)))
]

find_in_bytes-FirstZero :
    (bits : ℕ → Bool) (i n : ℕ) → FirstZero bits (i * 8) ((i + n) * 8) (find_in_bytes bits i 0 n)
unfolding find_in_bytes is_full
find_in_bytes-FirstZero bits i zero = all_set (λ j l u. absurd (omega arith))
find_in_bytes-FirstZero bits i (suc n) =
    let rest = find_in_bytes-FirstZero bits (i + 1) n in
    let byte = find_in_byte-FirstZero bits i 0 8 in
    elim (Bool-cases (is_full bits i)) [
      | inl e ↦ rw e (
          FirstZero-at bits _ _ _ _ _ (omega arith) (omega arith) (
            full_byte bits (i * 8 + 0) (i * 8 + 0 + 8) _ _ _ (omega arith) (omega arith) e byte
              (FirstZero-at bits _ _ _ _ _ (omega arith) refl rest)))
      | inr e ↦ rw e (
          or_else-FirstZero bits (i * 8) ((i + 1) * 8) _ _ _ (omega arith) (omega arith)
            (FirstZero-at bits (i * 8 + 0) (i * 8 + 0 + 8) _ _ _ (omega arith) (omega arith) byte)
            (FirstZero-at bits _ ((i + 1 + n) * 8) _ _ _ refl (omega arith) rest))
    ]

pub bit_find_first_zero-FirstZero :
    (bits : ℕ → Bool) (bytes : ℕ) → FirstZero bits 0 (bytes * 8) (bit_find_first_zero bits bytes)
unfolding bit_find_next_zero bit_find_first_zero
bit_find_first_zero-FirstZero bits bytes =
    FirstZero-at bits _ _ _ _ _ (omega arith) (omega arith)
      (find_in_bytes-FirstZero bits 0 (bytes - 0))
