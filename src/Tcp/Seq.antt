-- ===== src/Tcp/Seq.antt =====
-- src/net/ipv4/tcp.h: comparisons of sequence numbers, and their meaning as distances round the
-- circle of 2 ^ 32 numbers.
use protura.Base.{ℕ, ◌-◌, ◌<◌, ◌^◌, ◌≡◌, ◌↔◌, ◌&&◌, ◌==◌, not, Bool, true, false, arith}
use protura.Base.Word.{u32_mod, add32, sub32, is_negative32}

unfoldable pub seq_before : ℕ → ℕ → Bool
seq_before seq1 seq2 = is_negative32 (sub32 seq1 seq2)

unfoldable pub seq_after : ℕ → ℕ → Bool
seq_after seq1 seq2 = not (is_negative32 (sub32 seq1 seq2)) && not (sub32 seq1 seq2 == 0)

unfoldable pub seq_between : ℕ → ℕ → ℕ → Bool
unfolding seq_before
seq_between seq1 seq2 seq3 = seq_before seq1 seq2 && seq_before seq2 seq3

-- A number is between the one before `a` and the one `w` behind it just if it lies less than `w`
-- ahead of `a`.
pub seq_between_window :
    (a s w : ℕ)
    → a < u32_mod
    → s < u32_mod
    → w < 2 ^ 31
    → (seq_between (sub32 a 1) s (add32 a w) ≡ true) ↔ (sub32 s a < w)
unfolding seq_between
seq_between_window a s w ha hs hw = (λ h. ground arith, λ h. ground arith)

-- A number that is strictly between `a` and the successor of `c` is no further from `c` than `a`.
pub seq_between_distance :
    (a b c : ℕ)
    → a < u32_mod
    → b < u32_mod
    → c < u32_mod
    → sub32 c a < 2 ^ 31 - 1
    → seq_between a b (add32 c 1) ≡ true
    → sub32 c b < sub32 c a
unfolding seq_between
seq_between_distance a b c ha hb hc near h = ground arith

-- Nothing is strictly between a number and itself.
pub not-seq_between_self : (a c : ℕ) → a < u32_mod → seq_between a a c ≡ false
unfolding seq_between
not-seq_between_self a c h = ground arith
