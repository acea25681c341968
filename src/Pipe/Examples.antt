-- ===== src/Pipe/Examples.antt =====
-- A pipe with one page of three bytes, and the theorems at it.
use protura.Base.{◌+◌, ◌≡◌, refl, false, [], ◌∷◌, ◌++◌, length, arith, min}
use protura.CharBuf.{slice, copy_to, store}
use protura.Pipe.{
  Page, Pipe, done, pipe_read, read_pages, read_outcome, pipe_write, write_loop, fill_pages, wanted,
}
use protura.Pipe.Bytes.{contents, IsValid}
use protura.Pipe.Reads.{contents-pipe_read, outcome_of}
use protura.Pipe.Rounds.{Wrote, pipe_write-Wrote}

abbrev page : Page
page = record { virt = λ i. 65 + i; startb = 1; lenb = 3 }

abbrev one_page : Pipe
one_page = record { readers = 1; writers = 1; total_pages = 1; free_pages = []; bufs = page ∷ [] }

abbrev no_pages : Pipe
no_pages = record { readers = 1; writers = 1; total_pages = 0; free_pages = []; bufs = [] }

one_page-IsValid : IsValid one_page
one_page-IsValid = record {
  counted = refl;
  bound = omega arith;
  filled = ((omega arith, omega arith), tt);
}

-- Two of the bytes B, C and D.
two_bytes : (pipe_read false 2 9 one_page).0 ≡ done 2
unfolding pipe_read read_pages read_outcome slice
two_bytes = refl

-- A write to the pipe takes three new pages at most, and one here.
new_page : contents (pipe_write false page 2 (7 ∷ 8 ∷ []) no_pages).pipe.bufs ≡ 7 ∷ 8 ∷ []
unfolding pipe_write write_loop fill_pages wanted contents copy_to store slice
new_page = refl

contents-pipe_read_example :
    let (o, bytes, pipe) = pipe_read false 9 9 one_page in
    (contents (page ∷ []) ≡ bytes ++ contents pipe.bufs)
    × (length bytes ≡ min 9 (length (contents (page ∷ []))))
    × (o ≡ outcome_of false 1 (length bytes))
    × IsValid pipe
contents-pipe_read_example =
    contents-pipe_read false 9 9 one_page (omega arith) (λ e. omega arith) one_page-IsValid

pipe_write-Wrote_example :
    Wrote false 2 2 (7 ∷ 8 ∷ []) one_page (pipe_write false page 2 (7 ∷ 8 ∷ []) one_page)
pipe_write-Wrote_example =
    pipe_write-Wrote false page 2 (7 ∷ 8 ∷ []) one_page one_page-IsValid (λ e. omega arith)
      (λ e. omega arith) (omega arith)
