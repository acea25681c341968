-- ===== src/Tcp/Checksum.antt =====
-- src/net/ipv4/tcp.c: the one's complement checksum over the pseudo header and the segment. Words
-- are read as the x86 target reads them, low byte first; a sum is a `uint32_t`.
use protura.Base.{
  ℕ, zero, suc, ◌+◌, ◌-◌, ◌*◌, ◌/◌, ◌%◌, ◌≤◌, ◌<◌, ◌^◌, ◌≡◌, ◌≢◌, ◌==◌, ap, List, [], ◌∷◌, ◌++◌,
  length, All, arith, if◌then◌else◌,
}
use protura.Base.Word.{u32_mod, add32}

unfoldable pub sum_every_16 : ℕ → List ℕ → ℕ
sum_every_16 sum [] = sum
sum_every_16 sum (b ∷ []) = add32 sum b
sum_every_16 sum (a ∷ b ∷ bytes) = sum_every_16 (add32 sum (a + 256 * b)) bytes

-- `while (sum >> 16) …`: three rounds of fuel are enough for a 32-bit sum.
unfoldable pub fold : ℕ → ℕ → ℕ
fold zero sum = sum
fold (suc fuel) sum =
    let rest = fold fuel (add32 (sum % 2 ^ 16) (sum / 2 ^ 16)) in
    if sum / 2 ^ 16 == 0 then sum else rest

-- `~sum`, cut to 16 bits.
unfoldable pub complement : ℕ → ℕ
complement sum = 2 ^ 16 - 1 - sum % 2 ^ 16

unfoldable pub tcp_checksum : List ℕ → List ℕ → ℕ
tcp_checksum header bytes =
    complement (fold 3 (add32 (sum_every_16 0 header) (sum_every_16 0 bytes)))

-- The bytes' sum without wrapping, as a polynomial in the two byte positions.
abbrev word_sum : List ℕ → ℕ
word_sum [] = 0
word_sum (b ∷ []) = b
word_sum (a ∷ b ∷ bytes) = a + 256 * b + word_sum bytes

abbrev IsBytes : List ℕ → Type 0
IsBytes = All (λ b. b < 256)

-- The loop ends, with a 16-bit number congruent to the sum that is zero only for the sum zero.
fold_lem :
    (sum : ℕ)
    → sum < u32_mod
    → (fold 3 sum < 2 ^ 16) × (fold 3 sum % 65535 ≡ sum % 65535) × (sum ≢ 0 → fold 3 sum ≢ 0)
unfolding fold
fold_lem sum h = (ground arith, ground arith, λ n. ground arith)

sum_every_16_lem :
    (sum : ℕ) (bytes : List ℕ)
    → sum + word_sum bytes < u32_mod
    → sum_every_16 sum bytes ≡ sum + word_sum bytes
unfolding sum_every_16
sum_every_16_lem sum [] h = omega arith
sum_every_16_lem sum (b ∷ []) h = omega arith
sum_every_16_lem sum (a ∷ b ∷ bytes) h =
    omega (arith, sum_every_16_lem (add32 sum (a + 256 * b)) bytes (omega arith))

word_sum-le : (bytes : List ℕ) → IsBytes bytes → word_sum bytes ≤ 65536 * length bytes
word_sum-le [] h = omega arith
word_sum-le (b ∷ []) h = omega arith
word_sum-le (a ∷ b ∷ bytes) h = omega (arith, word_sum-le bytes h.1.1, h.0, h.1.0)

-- An even number of bytes in front shifts no byte of the rest.
word_sum-append :
    (k : ℕ) (xs ys : List ℕ) → length xs ≡ 2 * k → word_sum (xs ++ ys) ≡ word_sum xs + word_sum ys
word_sum-append zero [] ys h = omega arith
word_sum-append zero (x ∷ xs) ys h = absurd (omega arith)
word_sum-append (suc k) [] ys h = absurd (omega arith)
word_sum-append (suc k) (x ∷ []) ys h = absurd (omega arith)
word_sum-append (suc k) (a ∷ b ∷ xs) ys h = omega (arith, word_sum-append k xs ys (omega arith))

verify_sum :
    (total : ℕ)
    → total ≢ 0
    → total + 65535 < u32_mod
    → complement (fold 3 (total + complement (fold 3 total))) ≡ 0
unfolding complement
verify_sum total n h =
    let c = 2 ^ 16 - 1 - fold 3 total % 2 ^ 16 in
    let f = fold_lem total (omega arith) in
    let g = fold_lem (total + c) (omega arith) in
    omega (arith, f.0, f.1, f.2 n, g.0, g.1, g.2 (omega arith))

tcp_checksum_lem :
    (header bytes : List ℕ)
    → word_sum header + word_sum bytes < u32_mod
    → tcp_checksum header bytes ≡ complement (fold 3 (word_sum header + word_sum bytes))
unfolding tcp_checksum
tcp_checksum_lem header bytes h =
    ap (λ k. complement (fold 3 k))
      (omega
        (arith, sum_every_16_lem 0 header (omega arith), sum_every_16_lem 0 bytes (omega arith)))

complement-le : (sum : ℕ) → complement sum ≤ 65535
unfolding complement
complement-le sum = omega arith

-- A segment whose checksum field, at an even offset, holds the checksum that was computed with
-- zeros there sums to zero at the receiver. The bytes of header and segment are not all zero, and
-- at most 32,768 together.
pub tcp_checksum_verifies :
    (k : ℕ) (header before after : List ℕ)
    → length before ≡ 2 * k
    → IsBytes header
    → IsBytes (before ++ (0 ∷ 0 ∷ after))
    → length header + length (before ++ (0 ∷ 0 ∷ after)) ≤ 32768
    → word_sum header + word_sum (before ++ (0 ∷ 0 ∷ after)) ≢ 0
    → let c = tcp_checksum header (before ++ (0 ∷ 0 ∷ after)) in
      tcp_checksum header (before ++ (c % 256 ∷ c / 256 ∷ after)) ≡ 0
tcp_checksum_verifies k header before after even hb ob small nonzero =
    let zeros = before ++ (0 ∷ 0 ∷ after) in
    let total = word_sum header + word_sum zeros in
    let bound : total ≤ 65536 * 32768 =
      omega (arith, word_sum-le header hb, word_sum-le zeros ob) in
    let c = complement (fold 3 total) in
    let filled = before ++ (c % 256 ∷ c / 256 ∷ after) in
    let sum : word_sum header + word_sum filled ≡ total + c = omega (
      arith,
      word_sum-append k before (0 ∷ 0 ∷ after) even,
      word_sum-append k before (c % 256 ∷ c / 256 ∷ after) even,
    ) in
    let wide = complement-le (fold 3 total) in
    rw (tcp_checksum_lem header zeros (omega arith)) (
      rw (tcp_checksum_lem header filled (omega arith), sum)
        (verify_sum total nonzero (omega arith)))
