-- ===== src/Pipe/Writes.antt =====
-- A write appends to the pipe's bytes, until all is written or the pipe has all of its pages full.
use protura.Base.{
  ℕ, ◌+◌, ◌-◌, ◌*◌, ◌≤◌, ◌≡◌, ◌≢◌, ◌⊎◌, inl, inr, ◌==◌, ltb, refl, ap, ◌∙◌, sym, true, false, List,
  [], ◌∷◌, ◌++◌, append_assoc, append-nil, length, length-append, length-take, length-drop, take,
  drop, take-append-drop, All, arith, Bool-cases, if◌then◌else◌,
}
use protura.CharBuf.{slice, copy_to}
use protura.CharBuf.Slices.{slice-copy_to}
use protura.Pipe.{Page, Filled, fill_pages, pg_size}
use protura.Pipe.Bytes.{contents, contents-append, HasBytes}

-- What the loop over the free pages does, for memory that holds all that is written.
pub record Fills (size : ℕ) (data' : List ℕ) (bufs free : List Page) (f : Filled) : Type 0 where
  pub no_fault : f.fault ≡ false
  pub written : List ℕ
  pub parts : data' ≡ written ++ f.rest
  pub back : contents f.bufs ≡ contents bufs ++ written
  pub amount : length written + f.left ≡ size
  pub pages : length f.bufs + length f.free ≡ length bufs + length free
  pub filled : All HasBytes f.bufs
  pub ends : (f.left ≡ 0) ⊎ (f.free ≡ [])
  pub room : f.left ≡ size - pg_size * length free

All-append :
    (xs : List Page) (p : Page) → All HasBytes xs → HasBytes p → All HasBytes (xs ++ (p ∷ []))
All-append [] p all h = (h, tt)
All-append (x ∷ xs) p all h = (all.0, All-append xs p all.1 h)

module _ (size : ℕ) (data' : List ℕ) (bufs : List Page) (p : Page) (free : List Page) where
  abbrev n : ℕ
  n = if ltb size pg_size then size else pg_size

  abbrev page : Page
  page = record { virt = copy_to p.virt 0 (take n data'); startb = 0; lenb = n }

  abbrev filled_with : Filled
  filled_with = fill_pages size data' bufs (p ∷ free)

  module _ (enough : size ≤ length data') (some' : size ≢ 0) (all : All HasBytes bufs) where
    took : length (take n data') ≡ n
    took = ground (arith, length-take n data')

    page_bytes : contents (bufs ++ (page ∷ [])) ≡ contents bufs ++ take n data'
    unfolding contents
    page_bytes =
        contents-append bufs (page ∷ [])
        ∙ ap (λ t. contents bufs ++ t)
            (append-nil (slice page.virt 0 n) ∙ rw took at (slice-copy_to p.virt 0 (take n data')))

    page-HasBytes : All HasBytes (bufs ++ (page ∷ []))
    page-HasBytes = All-append bufs page all (ground arith, ground arith)

    last-Fills : size - n ≡ 0 → Fills size data' bufs (p ∷ free) filled_with
    unfolding fill_pages
    last-Fills z =
        let r : ltb (length data') n ≡ false = ground arith in
        let e : (size - n == 0) ≡ true = ground arith in
        rw (r, e)
          (record {
            no_fault = refl;
            written = take n data';
            parts = sym (take-append-drop n data');
            back = page_bytes;
            amount = ground (arith, took);
            pages = omega (arith, length-append bufs (page ∷ []));
            filled = page-HasBytes;
            ends = inl refl;
            room = ground arith;
          })

    more-Fills :
        size - n ≢ 0
        → Fills
            (size - n)
            (drop n data')
            (bufs ++ (page ∷ []))
            free
            (fill_pages (size - n) (drop n data') (bufs ++ (page ∷ [])) free)
        → Fills size data' bufs (p ∷ free) filled_with
    unfolding fill_pages
    more-Fills z t =
        let r : ltb (length data') n ≡ false = ground arith in
        let e : (size - n == 0) ≡ false = ground arith in
        let next = fill_pages (size - n) (drop n data') (bufs ++ (page ∷ [])) free in
        rw (r, e)
          (record {
            no_fault = t.no_fault;
            written = take n data' ++ t.written;
            parts =
                sym (take-append-drop n data')
                ∙ ap (λ x. take n data' ++ x) t.parts
                ∙ sym (append_assoc (take n data') t.written next.rest);
            back =
                t.back
                ∙ ap (λ x. x ++ t.written) page_bytes
                ∙ append_assoc (contents bufs) (take n data') t.written;
            amount = ground (arith, took, t.amount, length-append (take n data') t.written);
            pages = omega (arith, t.pages, length-append bufs (page ∷ []));
            filled = t.filled;
            ends = t.ends;
            room = ground (arith, t.room);
          })

pub fill_pages-Fills :
    (size : ℕ) (data' : List ℕ) (bufs free : List Page)
    → size ≤ length data'
    → size ≢ 0
    → All HasBytes bufs
    → Fills size data' bufs free (fill_pages size data' bufs free)
unfolding fill_pages
fill_pages-Fills size data' bufs [] enough some' all = record {
  no_fault = refl;
  written = [];
  parts = refl;
  back = sym (append-nil (contents bufs));
  amount = omega arith;
  pages = refl;
  filled = all;
  ends = inr refl;
  room = omega arith;
}
fill_pages-Fills size data' bufs (p ∷ free) enough some' all =
    let m = n size data' bufs p free in
    let page' = page size data' bufs p free in
    elim (Bool-cases (size - m == 0)) [
      | inl full ↦ last-Fills size data' bufs p free enough some' all (ground arith)
      | inr more ↦
          let rest = length-drop m data' in
          let next =
            fill_pages-Fills (size - m) (drop m data') (bufs ++ (page' ∷ [])) free
              (omega (arith, rest)) (ground arith)
              (page-HasBytes size data' bufs p free enough some' all) in
          more-Fills size data' bufs p free enough some' all (ground arith) next
    ]
