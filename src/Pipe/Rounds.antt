-- ===== src/Pipe/Rounds.antt =====
-- The rounds of a write: two are enough.
use native.Mathlib.Nat.{div-add-mod, mod-lt}
use protura.Base.{
  ℕ, suc, ◌+◌, ◌-◌, ◌*◌, ◌/◌, ◌≤◌, ◌<◌, ◌≡◌, ◌≢◌, ◌⊎◌, inl, inr, ◌==◌, ltb, refl, ap, ◌∙◌, sym,
  Bool, true, false, List, [], ◌++◌, append_assoc, length, length-append, length-replicate,
  replicate, arith, Bool-cases, ℕ_discrete, if◌then◌else◌,
}
use protura.Base.Errno.{eagain}
use protura.Pipe.{
  Page, Pipe, Filled, Write, Outcome, failed, done, waits, ends, fill_pages, wanted, write_loop,
  pipe_write, pg_size, pipe_max_pages,
}
use protura.Pipe.Bytes.{contents, IsValid}
use protura.Pipe.Writes.{Fills, fill_pages-Fills}

-- How a write that fills the pipe ends.
abbrev pub full_outcome : Bool → ℕ → ℕ → Outcome
full_outcome nonblock original left =
    if nonblock then (if left == original then failed eagain else done (original - left)) else waits

-- What a write of `size` bytes, of `original` in all, has done at its end.
pub record Wrote (nonblock : Bool) (original size : ℕ) (data' : List ℕ) (pipe : Pipe) (w : Write)
    : Type 0 where
  pub written : List ℕ
  pub rest : List ℕ
  pub parts : data' ≡ written ++ rest
  pub back : contents w.pipe.bufs ≡ contents pipe.bufs ++ written
  pub valid : IsValid w.pipe
  pub no_signal : w.sigpipe ≡ false
  pub result :
      ((length written ≡ size) × (w.outcome ≡ done original))
      ⊎ ((length written < size)
          × (w.pipe.free_pages ≡ [])
          × (w.pipe.total_pages ≡ pipe_max_pages)
          × (w.outcome ≡ full_outcome nonblock original (size - length written)))

module _ (fuel : ℕ) (nonblock : Bool) (fresh : Page) (original size : ℕ) (data' : List ℕ)
    (pipe : Pipe) (v : IsValid pipe) (some' : size ≢ 0) (open' : pipe.readers ≢ 0)
    (enough : size ≤ length data') where
  abbrev f : Filled
  f = fill_pages size data' pipe.bufs pipe.free_pages

  abbrev filled : Pipe
  filled = record pipe { bufs = f.bufs; free_pages = f.free }

  abbrev grown : Pipe
  grown = record filled {
    total_pages = pipe.total_pages + wanted f.left pipe.total_pages;
    free_pages = replicate (wanted f.left pipe.total_pages) fresh ++ f.free;
  }

  fills : Fills size data' pipe.bufs pipe.free_pages f
  fills = fill_pages-Fills size data' pipe.bufs pipe.free_pages enough some' v.filled

  filled-IsValid : IsValid filled
  filled-IsValid = record {
    counted = fills.pages ∙ v.counted;
    bound = v.bound;
    filled = fills.filled;
  }

  grown-IsValid : IsValid grown
  unfolding wanted
  grown-IsValid = record {
    counted = omega (
      arith,
      fills.pages,
      v.counted,
      length-append (replicate (wanted f.left pipe.total_pages) fresh) f.free,
      length-replicate (wanted f.left pipe.total_pages) fresh,
    );
    bound = ground (arith, v.bound);
    filled = fills.filled;
  }

  no_free : f.left ≢ 0 → f.free ≡ []
  no_free z = elim fills.ends [ inl none' ↦ absurd (z none') | inr empty ↦ empty ]

  abbrev loop : Write
  loop = write_loop (suc fuel) nonblock fresh original size data' pipe

  round_done : f.left ≡ 0 → Wrote nonblock original size data' pipe loop
  unfolding write_loop
  round_done z =
      let a : (size == 0) ≡ false = ground arith in
      let b : (pipe.readers == 0) ≡ false = ground arith in
      let c : (f.left == 0) ≡ true = ground arith in
      rw (a, b, fills.no_fault, c)
        (record {
          written = fills.written;
          rest = f.rest;
          parts = fills.parts;
          back = fills.back;
          valid = filled-IsValid;
          no_signal = refl;
          result = inl (omega (arith, fills.amount), refl);
        })

  round_full :
      f.left ≢ 0 → pipe.total_pages ≡ pipe_max_pages → Wrote nonblock original size data' pipe loop
  unfolding write_loop
  round_full z top =
      let a : (size == 0) ≡ false = ground arith in
      let b : (pipe.readers == 0) ≡ false = ground arith in
      let c : (f.left == 0) ≡ false = ground arith in
      let d : ltb pipe.total_pages pipe_max_pages ≡ false = ground arith in
      let out : loop ≡ ends (full_outcome nonblock original f.left) filled =
        elim (Bool-cases nonblock) [
          | inl now ↦ rw (a, b, fills.no_fault, c, d, now) refl
          | inr wait ↦ rw (a, b, fills.no_fault, c, d, wait) refl
        ] in
      let left : size - length fills.written ≡ f.left = omega (arith, fills.amount) in
      rw out (record {
        written = fills.written;
        rest = f.rest;
        parts = fills.parts;
        back = fills.back;
        valid = filled-IsValid;
        no_signal = refl;
        result = inr (omega (arith, fills.amount), no_free z, top, rw left refl);
      })

  round_grow :
      f.left ≢ 0
      → pipe.total_pages < pipe_max_pages
      → Wrote nonblock original f.left f.rest grown
          (write_loop fuel nonblock fresh original f.left f.rest grown)
      → Wrote nonblock original size data' pipe loop
  unfolding write_loop
  round_grow z room t =
      let a : (size == 0) ≡ false = ground arith in
      let b : (pipe.readers == 0) ≡ false = ground arith in
      let c : (f.left == 0) ≡ false = ground arith in
      let d : ltb pipe.total_pages pipe_max_pages ≡ true = ground arith in
      let len = length-append fills.written t.written in
      let left : size - length (fills.written ++ t.written) ≡ f.left - length t.written =
        omega (arith, fills.amount, len) in
      rw (a, b, fills.no_fault, c, d)
        (record {
          written = fills.written ++ t.written;
          rest = t.rest;
          parts =
              fills.parts
              ∙ ap (λ x. fills.written ++ x) t.parts
              ∙ sym (append_assoc fills.written t.written t.rest);
          back =
              t.back
              ∙ ap (λ x. x ++ t.written) fills.back
              ∙ append_assoc (contents pipe.bufs) fills.written t.written;
          valid = t.valid;
          no_signal = t.no_signal;
          result = elim t.result [
            | inl (all, o) ↦ inl (omega (arith, all, len, fills.amount), o)
            | inr (some_left, free, top, o) ↦
                inr (omega (arith, some_left, len, fills.amount), free, top, rw left o)
          ];
        })

  -- The memory behind what was written still holds the rest.
  rest_enough : f.left ≤ length f.rest
  rest_enough =
      let len = ap (λ (x : List ℕ). length x) fills.parts ∙ length-append fills.written f.rest in
      omega (arith, fills.amount, len)

  -- With the pages that a round adds, either the rest fits or the pipe has all of its pages.
  grown_enough :
      f.left ≢ 0
      → pipe.total_pages < pipe_max_pages
      → (f.left ≤ pg_size * length grown.free_pages) ⊎ (grown.total_pages ≡ pipe_max_pages)
  unfolding wanted
  grown_enough z room =
      let len = length-append (replicate (wanted f.left pipe.total_pages) fresh) f.free in
      let n = length-replicate (wanted f.left pipe.total_pages) fresh in
      let q = div-add-mod f.left 4096 in
      let r = mod-lt f.left {m = 4096} (omega arith) in
      elim (Bool-cases (ltb (10 - pipe.total_pages) (f.left / 4096 + 1))) [
        | inl many ↦ inr (ground arith)
        | inr few ↦ inl (ground (arith, len, n, q, r))
      ]

-- A round whose free pages are enough, or whose pipe has all of its pages, is the last one.
last_round :
    (fuel : ℕ) (nonblock : Bool) (fresh : Page) (original size : ℕ) (data' : List ℕ) (pipe : Pipe)
    → IsValid pipe
    → size ≢ 0
    → pipe.readers ≢ 0
    → size ≤ length data'
    → (size ≤ pg_size * length pipe.free_pages) ⊎ (pipe.total_pages ≡ pipe_max_pages)
    → Wrote nonblock original size data' pipe
        (write_loop (suc fuel) nonblock fresh original size data' pipe)
last_round fuel nonblock fresh original size data' pipe v some' open' enough last' =
    let left = (f fuel nonblock fresh original size data' pipe v some' open' enough).left in
    let fills' = fills fuel nonblock fresh original size data' pipe v some' open' enough in
    elim (ℕ_discrete left 0) [
      | yes z ↦ round_done fuel nonblock fresh original size data' pipe v some' open' enough z
      | no z ↦ elim last' [
        | inl fits ↦ absurd (z (omega (arith, fills'.room)))
        | inr top ↦
            round_full fuel nonblock fresh original size data' pipe v some' open' enough z top
      ]
    ]

two_rounds :
    (fuel : ℕ) (nonblock : Bool) (fresh : Page) (original size : ℕ) (data' : List ℕ) (pipe : Pipe)
    → IsValid pipe
    → size ≢ 0
    → pipe.readers ≢ 0
    → size ≤ length data'
    → Wrote nonblock original size data' pipe
        (write_loop (suc (suc fuel)) nonblock fresh original size data' pipe)
two_rounds fuel nonblock fresh original size data' pipe v some' open' enough =
    let f' = f (suc fuel) nonblock fresh original size data' pipe v some' open' enough in
    let grown' = grown (suc fuel) nonblock fresh original size data' pipe v some' open' enough in
    elim (ℕ_discrete pipe.total_pages 10) [
      | yes top ↦
          last_round (suc fuel) nonblock fresh original size data' pipe v some' open' enough
            (inr top)
      | no below ↦ elim (ℕ_discrete f'.left 0) [
        | yes z ↦
            round_done (suc fuel) nonblock fresh original size data' pipe v some' open' enough z
        | no z ↦
            let room : pipe.total_pages < 10 = omega (arith, v.bound) in
            let next =
              last_round fuel nonblock fresh original f'.left f'.rest grown'
                (grown-IsValid (suc fuel) nonblock fresh original size data' pipe v some' open'
                  enough)
                z open'
                (rest_enough (suc fuel) nonblock fresh original size data' pipe v some' open'
                  enough)
                (grown_enough (suc fuel) nonblock fresh original size data' pipe v some' open'
                  enough z room) in
            round_grow (suc fuel) nonblock fresh original size data' pipe v some' open' enough z
              room next
      ]
    ]

-- A write of some readable bytes into a pipe with a reader appends its bytes to the pipe's and
-- returns their count, or appends a part of them, fills ten pages, and then waits; or, if it must not
-- wait, returns the part's length, or fails if the part is empty. It ends in two of its rounds.
pub pipe_write-Wrote :
    (nonblock : Bool) (fresh : Page) (size : ℕ) (data' : List ℕ) (pipe : Pipe)
    → IsValid pipe
    → size ≢ 0
    → pipe.readers ≢ 0
    → size ≤ length data'
    → Wrote nonblock size size data' pipe (pipe_write nonblock fresh size data' pipe)
unfolding pipe_write
pipe_write-Wrote nonblock fresh size data' pipe v some' open' enough =
    two_rounds 1 nonblock fresh size size data' pipe v some' open' enough
