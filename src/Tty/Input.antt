-- ===== src/Tty/Input.antt =====
-- Every input makes the terminal the editor's steps.
use protura.Base.{
  ℕ, suc, ◌≡◌, inl, inr, ◌==◌, ◌!=◌, ◌&&◌, ◌||◌, not, refl, ap, ◌∙◌, Bool, true, false, Option,
  none, some, List, [], ◌∷◌, length, arith, Bool-cases, Option-cases, if◌then◌else◌,
}
use protura.CharBuf.{CharBuf, char_buf_clear, slice}
use protura.CharBuf.Queue.{IsValid, queue, queue_flat}
use protura.Tty.{
  is_cc, Tty, Termios, echo_char, tty_pgrp_signal, isig_handle, input_preprocess, process_char,
  process_loop, tty_process_input, sigint, sigtstp,
}
use protura.Tty.Steps.{echoed_screen, echoed-Steps}
use protura.Tty.Editor.{Editor, editor_of, edit_char, edit, Fits, Steps}

queue-char_buf_clear : (out : CharBuf) → queue (char_buf_clear out) ≡ []
unfolding char_buf_clear slice
queue-char_buf_clear out = queue_flat (char_buf_clear out) (omega arith)

cleared-IsValid : (out : CharBuf) → IsValid out → IsValid (char_buf_clear out)
unfolding char_buf_clear
cleared-IsValid out v = record { start = omega (arith, v.start); fits = omega arith }

-- A signal goes to a group there is, and flushes what was delivered unless it is told not to.
signal-Steps :
    (termios : Termios) (n sig : ℕ) (tty : Tty)
    → Fits (suc n) tty
    → let e = editor_of tty in
      Steps n tty
        (tty_pgrp_signal termios sig tty)
        (if tty.fg_pgrp != 0 && not termios.noflsh then record e { delivered = [] } else e)
unfolding tty_pgrp_signal char_buf_clear
signal-Steps termios n sig tty f = elim (Bool-cases (tty.fg_pgrp == 0)) [
  | inl no_group ↦ rw no_group (record {
    fits = record { valid = f.valid; room = omega (arith, f.room) };
    same = refl;
    size = refl;
    group = refl;
  })
  | inr group ↦ elim (Bool-cases termios.noflsh) [
    | inl keep ↦
        rw (group, keep)
          (record {
            fits = record { valid = f.valid; room = omega (arith, f.room) };
            same = refl;
            size = refl;
            group = refl;
          })
    | inr flush ↦
        rw (group, flush)
          (record {
            fits = record {
              valid = cleared-IsValid tty.output_buf f.valid;
              room = omega (arith, f.room);
            };
            same = rw (queue-char_buf_clear tty.output_buf) refl;
            size = refl;
            group = refl;
          })
  ]
]

-- The cases of `isig_handle`, on the results of its tests.
process_cases :
    (P : Tty → Editor → Type 0) {t int stop : Tty} {e e' : Editor} (isig vintr vsusp : Bool)
    → P t e
    → P int e'
    → P stop e'
    → P
        (if isig
          then elim (if vintr then some int else if vsusp then some stop else none) [
            | none ↦ t
            | some s ↦ s
          ]
          else t)
        (if isig && (vintr || vsusp) then e' else e)
process_cases P false vintr vsusp plain int stop = plain
process_cases P true true vsusp plain int stop = int
process_cases P true false true plain int stop = stop
process_cases P true false false plain int stop = plain

process_char-Steps :
    (termios : Termios) (n c : ℕ) (tty : Tty)
    → Fits (suc n) tty
    → Steps n tty
        (process_char termios c tty)
        (edit_char termios (tty.fg_pgrp != 0) tty.line_buf_size c (editor_of tty))
unfolding process_char edit_char isig_handle
process_char-Steps termios n c tty f =
    let echoed = if termios.echo then echo_char termios c tty else tty in
    let plain = echoed-Steps termios n c tty echoed f (echoed_screen termios c tty termios.echo) in
    let signal = λ (sig : ℕ). signal-Steps termios n sig tty f in
    process_cases (Steps n tty) termios.isig (is_cc c termios.vintr) (is_cc c termios.vsusp) plain
      (signal sigint) (signal sigtstp)

edit_group :
    (termios : Termios) (n : ℕ) (rest : List ℕ) (tty t : Tty) (e : Editor)
    → Steps n tty t e
    → edit termios (t.fg_pgrp != 0) t.line_buf_size rest (editor_of t)
      ≡ edit termios (tty.fg_pgrp != 0) tty.line_buf_size rest e
edit_group termios n rest tty t e s = rw (s.same, s.size, s.group) refl

module _ (termios : Termios) (c : ℕ) (rest : List ℕ) (o : Option ℕ) where
  process_cons :
      (tty : Tty)
      → input_preprocess termios c ≡ o
      → process_loop termios (c ∷ rest) tty ≡ elim o [
        | none ↦ process_loop termios rest tty
        | some ch ↦ process_loop termios rest (process_char termios ch tty)
      ]
  unfolding process_loop
  process_cons tty h =
      ap
        (λ (x : Option ℕ). elim x as (λ y. Tty) [
          | none ↦ process_loop termios rest tty
          | some ch ↦ process_loop termios rest (process_char termios ch tty)
        ])
        h

  edit_cons :
      (has_group : Bool) (size : ℕ) (e : Editor)
      → input_preprocess termios c ≡ o
      → edit termios has_group size (c ∷ rest) e ≡ elim o [
        | none ↦ edit termios has_group size rest e
        | some ch ↦ edit termios has_group size rest (edit_char termios has_group size ch e)
      ]
  unfolding edit
  edit_cons has_group size e h =
      ap
        (λ (x : Option ℕ). elim x as (λ y. Editor) [
          | none ↦ edit termios has_group size rest e
          | some ch ↦ edit termios has_group size rest (edit_char termios has_group size ch e)
        ])
        h

process_nil :
    (termios : Termios) (tty : Tty)
    → Fits 0 tty
    → let t = process_loop termios [] tty in
      IsValid t.output_buf
      × (editor_of t ≡ edit termios (tty.fg_pgrp != 0) tty.line_buf_size [] (editor_of tty))
unfolding process_loop edit
process_nil termios tty f = (f.valid, refl)

process_loop_lem :
    (termios : Termios) (buf : List ℕ) (tty : Tty)
    → Fits (length buf) tty
    → let t = process_loop termios buf tty in
      IsValid t.output_buf
      × (editor_of t ≡ edit termios (tty.fg_pgrp != 0) tty.line_buf_size buf (editor_of tty))
process_loop_lem termios [] tty f = process_nil termios tty f
process_loop_lem termios (c ∷ rest) tty f = elim (Option-cases (input_preprocess termios c)) [
  | inl skip ↦
      let fits : Fits (length rest) tty = record {
        valid = f.valid;
        room = omega (arith, f.room);
      } in
      let a = process_cons termios c rest none tty skip in
      let b =
        edit_cons termios c rest none (tty.fg_pgrp != 0) tty.line_buf_size (editor_of tty) skip in
      rw (a, b) (process_loop_lem termios rest tty fits)
  | inr (ch, e) ↦
      let t = process_char termios ch tty in
      let step = process_char-Steps termios (length rest) ch tty f in
      let (v, q) = process_loop_lem termios rest t step.fits in
      let next = edit_char termios (tty.fg_pgrp != 0) tty.line_buf_size ch (editor_of tty) in
      let a = process_cons termios c rest (some ch) tty e in
      let b =
        edit_cons termios c rest (some ch) (tty.fg_pgrp != 0) tty.line_buf_size (editor_of tty) e in
      rw (a, b) (v, q ∙ edit_group termios (length rest) rest tty t next step)
]

-- While the reader's ring has room for the line being typed and the whole input, processing it makes
-- the terminal the editor's steps, under all flags: mapped characters are typed, deleted, ended and
-- delivered in order, and signals flush. The ring stays valid.
pub tty_process_input-edit :
    (buf : List ℕ) (tty : Tty)
    → Fits (length buf) tty
    → let t = tty_process_input buf tty in
      IsValid t.output_buf
      × (editor_of t ≡ edit tty.termios (tty.fg_pgrp != 0) tty.line_buf_size buf (editor_of tty))
unfolding tty_process_input
tty_process_input-edit buf tty f = process_loop_lem tty.termios buf tty f
