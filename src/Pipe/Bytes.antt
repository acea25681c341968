-- ===== src/Pipe/Bytes.antt =====
-- The bytes in a pipe's pages, and the invariant of its pages.
use protura.Base.{
  ℕ, ◌+◌, ◌-◌, ◌≤◌, ◌<◌, ◌≡◌, refl, ap, ◌∙◌, sym, List, [], ◌∷◌, ◌++◌, append_assoc, length, All,
  arith,
}
use protura.CharBuf.{slice}
use protura.CharBuf.Slices.{slice-append}
use protura.Pipe.{Page, Pipe, pg_size, pipe_max_pages}

unfoldable pub contents : List Page → List ℕ
contents [] = []
contents (p ∷ ps) = slice p.virt p.startb p.lenb ++ contents ps

pub contents-append : (xs ys : List Page) → contents (xs ++ ys) ≡ contents xs ++ contents ys
unfolding contents
contents-append [] ys = refl
contents-append (p ∷ ps) ys =
    ap (λ t. slice p.virt p.startb p.lenb ++ t) (contents-append ps ys)
    ∙ sym (append_assoc (slice p.virt p.startb p.lenb) (contents ps) (contents ys))

-- Every page with bytes has some, and they lie in the page.
abbrev pub HasBytes : Page → Type 0
HasBytes p = (0 < p.lenb) × (p.startb + p.lenb ≤ pg_size)

pub record IsValid (pipe : Pipe) : Type 0 where
  pub counted : length pipe.bufs + length pipe.free_pages ≡ pipe.total_pages
  pub bound : pipe.total_pages ≤ pipe_max_pages
  pub filled : All HasBytes pipe.bufs

-- A window is the bytes that a read takes and the rest.
pub split_window :
    (f : ℕ → ℕ) (s n len : ℕ) → n ≤ len → slice f s len ≡ slice f s n ++ slice f (s + n) (len - n)
split_window f s n len h =
    let e : len ≡ n + (len - n) = omega arith in
    ap (λ (k : ℕ). slice f s k) e ∙ slice-append f s n (len - n)
