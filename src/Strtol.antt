-- ===== src/Strtol.antt =====
-- src/kernel/str/strtol.c. A string is the list of its characters, and the result that of a `long`
-- of 32 bits, as a word: the sum with an `unsigned int` wraps around.
use protura.Base.{
  ℕ, ◌+◌, ◌-◌, ◌*◌, ◌%◌, ◌==◌, ltb, leb, Bool, ◌&&◌, ◌||◌, List, [], ◌∷◌, if◌then◌else◌,
}
use protura.Base.Word.{u32_mod}

abbrev pub hexdigit : ℕ → Bool
hexdigit d = (leb b'0' d && leb d b'9') || (leb b'a' d && leb d b'z') || (leb b'A' d && leb d b'Z')

abbrev pub digitval : ℕ → ℕ
digitval d =
    if leb b'0' d && leb d b'9'
    then d - b'0'
    else if leb b'a' d && leb d b'z'
    then d - b'a' + 10
    else d - b'A' + 10

-- The loop, with `endp` as what is left.
unfoldable pub strtol_loop : ℕ → ℕ → List ℕ → ℕ × List ℕ
strtol_loop base ret [] = (ret, [])
strtol_loop base ret (d ∷ str) =
    let rest = strtol_loop base ((ret * base + digitval d) % u32_mod) str in
    if hexdigit d && ltb (digitval d) base then rest else (ret, d ∷ str)

-- The prefix of a base that is not given.
unfoldable pub after_zero : List ℕ → ℕ × List ℕ
after_zero [] = (8, [])
after_zero (c ∷ str) = if c == b'x' then (16, str) else (8, c ∷ str)

unfoldable pub find_base : List ℕ → ℕ × List ℕ
find_base [] = (10, [])
find_base (c ∷ str) = if c == b'0' then after_zero str else (10, c ∷ str)

unfoldable pub strtol : List ℕ → ℕ → ℕ × List ℕ
strtol str base =
    if base == 0 then strtol_loop (find_base str).0 0 (find_base str).1 else strtol_loop base 0 str
