-- ===== src/Tty/Steps.antt =====
-- What each operation on the line and the reader's ring does to the editor.
use protura.Base.{
  ℕ, suc, ◌+◌, ◌≤◌, ◌≡◌, inl, inr, ◌==◌, ◌&&◌, ltb, refl, ap, sym, ◌∙◌, subst, Bool, true, false,
  Option, none, some, List, [], ◌∷◌, ◌++◌, length, arith, Bool-cases, if◌then◌else◌,
}
use protura.CharBuf.{slice}
use protura.CharBuf.Queue.{queue}
use protura.Tty.{
  is_cc, Tty, Termios, tty_line_buf_drain, tty_line_buf_append, tty_line_buf_remove, erase_loop,
  icanon_char, echo_char, send_input_char, get_char_render_length,
}
use protura.Tty.Editor.{
  Editor, editor_of, type_char, Fits, Steps, erase_loop_screen, echo_char_screen, send_queue,
  drain_loop_lem, append_line, remove_line, drop_last,
}

raw-Steps :
    (n c : ℕ) (tty : Tty)
    → Fits (suc n) tty
    → Steps n tty
        (send_input_char c tty)
        (record (editor_of tty) { delivered = queue tty.output_buf ++ (c ∷ []) })
raw-Steps n c tty f =
    let (v, q, l, b) = send_queue c tty.output_buf f.valid (omega (arith, f.room)) in
    record {
      fits = record { valid = v; room = omega (arith, l, b, f.room) };
      same = rw q refl;
      size = refl;
      group = refl;
    }

eof-Steps :
    (n : ℕ) (tty : Tty)
    → Fits (suc n) tty
    → Steps n tty (record tty { ret0 = true }) (record (editor_of tty) { eof = true })
eof-Steps n tty f = record {
  fits = record { valid = f.valid; room = omega (arith, f.room) };
  same = refl;
  size = refl;
  group = refl;
}

-- What appending to the line leaves alone.
append_rest :
    (c : ℕ) (tty : Tty)
    → let t = tty_line_buf_append c tty in
      (editor_of t ≡ record (editor_of tty) { typed = slice t.line_buf 0 t.line_buf_pos })
      × (t.output_buf ≡ tty.output_buf)
      × (t.line_buf_pos ≤ tty.line_buf_pos + 1)
      × (t.line_buf_size ≡ tty.line_buf_size)
      × (t.fg_pgrp ≡ tty.fg_pgrp)
unfolding tty_line_buf_append
append_rest c tty = elim (Bool-cases (ltb tty.line_buf_pos tty.line_buf_size)) [
  | inl room ↦ rw room (refl, refl, omega arith, refl, refl)
  | inr full ↦ rw full (refl, refl, omega arith, refl, refl)
]

append-Steps :
    (n c : ℕ) (tty : Tty)
    → Fits (suc n) tty
    → let e = editor_of tty in
      let line = if ltb (length e.typed) tty.line_buf_size then e.typed ++ (c ∷ []) else e.typed in
      Steps n tty (tty_line_buf_append c tty) (record e { typed = line })
append-Steps n c tty f =
    let (e, out, pos, size, group) = append_rest c tty in
    record {
      fits = record { valid = rw out f.valid; room = rw out (omega (arith, pos, f.room)) };
      same = e ∙ ap (λ (t : List ℕ). record (editor_of tty) { typed = t }) (append_line c tty);
      size = size;
      group = group;
    }

remove_rest :
    (tty : Tty)
    → let t = (tty_line_buf_remove tty).1 in
      (editor_of t ≡ record (editor_of tty) { typed = slice t.line_buf 0 t.line_buf_pos })
      × (t.output_buf ≡ tty.output_buf)
      × (t.line_buf_pos ≤ tty.line_buf_pos)
      × (t.line_buf_size ≡ tty.line_buf_size)
      × (t.fg_pgrp ≡ tty.fg_pgrp)
unfolding tty_line_buf_remove
remove_rest tty = elim (Bool-cases (ltb 0 tty.line_buf_pos)) [
  | inl some' ↦ rw some' (refl, refl, omega arith, refl, refl)
  | inr empty ↦ rw empty (refl, refl, omega arith, refl, refl)
]

remove-Steps :
    (n : ℕ) (tty : Tty) (s : List ℕ)
    → Fits (suc n) tty
    → Steps n tty
        (record (tty_line_buf_remove tty).1 { screen = s })
        (record (editor_of tty) { typed = drop_last (editor_of tty).typed })
remove-Steps n tty s f =
    let (e, out, pos, size, group) = remove_rest tty in
    record {
      fits = record { valid = rw out f.valid; room = rw out (omega (arith, pos, f.room)) };
      same = e ∙ ap (λ (t : List ℕ). record (editor_of tty) { typed = t }) (remove_line tty);
      size = size;
      group = group;
    }

drain-Steps :
    (n : ℕ) (tty : Tty)
    → Fits n tty
    → let e = editor_of tty in
      Steps n tty
        (tty_line_buf_drain tty)
        (record e { delivered = e.delivered ++ e.typed; typed = [] })
unfolding tty_line_buf_drain slice
drain-Steps n tty f =
    let (same, v, q, l, b) =
      drain_loop_lem tty.line_buf_pos 0 tty f.valid (omega (arith, f.room)) in
    rw same (record {
      fits = record { valid = v; room = omega (arith, l, b, f.room) };
      same = rw q refl;
      size = refl;
      group = refl;
    })

-- The character that ends a line is typed, and the line is delivered.
newline-Steps :
    (n c : ℕ) (tty : Tty)
    → Fits (suc n) tty
    → let e = editor_of tty in
      let line = if ltb (length e.typed) tty.line_buf_size then e.typed ++ (c ∷ []) else e.typed in
      Steps n tty
        (tty_line_buf_drain (tty_line_buf_append c tty))
        (record e { delivered = e.delivered ++ line; typed = [] })
newline-Steps n c tty f =
    let t = tty_line_buf_append c tty in
    let one = append-Steps n c tty f in
    let two = drain-Steps n t one.fits in
    record {
      fits = two.fits;
      same =
          two.same
          ∙ ap (λ (e : Editor). record e { delivered = e.delivered ++ e.typed; typed = [] })
              one.same;
      size = two.size ∙ one.size;
      group = two.group ∙ one.group;
    }

-- What is removed from the screen does not matter to the editor.
erase-Steps :
    (termios : Termios) (n : ℕ) (tty : Tty) (prev : Option ℕ)
    → Fits (suc n) tty
    → let removed = (tty_line_buf_remove tty).1 in
      Steps n tty
        (elim prev [
          | none ↦ removed
          | some p ↦
              if termios.echo && termios.echoe
              then erase_loop termios (get_char_render_length termios p) removed
              else removed
        ])
        (record (editor_of tty) { typed = drop_last (editor_of tty).typed })
erase-Steps termios n tty none f = remove-Steps n tty (tty_line_buf_remove tty).1.screen f
erase-Steps termios n tty (some p) f =
    let removed = (tty_line_buf_remove tty).1 in
    let k = get_char_render_length termios p in
    let e : Editor = record (editor_of tty) { typed = drop_last (editor_of tty).typed } in
    elim (Bool-cases (termios.echo && termios.echoe)) [
      | inr silent ↦ rw silent (remove-Steps n tty removed.screen f)
      | inl echoed ↦ rw echoed (
          subst (λ t. Steps n tty t e) (sym (erase_loop_screen termios k removed))
            (remove-Steps n tty (erase_loop termios k removed).screen f))
    ]

-- A character of the line discipline that is no signal's.
take_char-Steps :
    (termios : Termios) (n c : ℕ) (tty : Tty)
    → Fits (suc n) tty
    → Steps n tty
        (if termios.icanon then icanon_char termios c tty else send_input_char c tty)
        (type_char termios tty.line_buf_size c (editor_of tty))
unfolding icanon_char type_char
take_char-Steps termios n c tty f = elim (Bool-cases termios.icanon) [
  | inr raw ↦ rw raw (raw-Steps n c tty f)
  | inl canonical ↦ elim (Bool-cases (is_cc c termios.veof)) [
    | inl end ↦ rw (canonical, end) (eof-Steps n tty f)
    | inr other ↦ elim (Bool-cases (is_cc c termios.verase)) [
      | inl erase ↦
          rw (canonical, other, erase) (erase-Steps termios n tty (tty_line_buf_remove tty).0 f)
      | inr typed ↦ elim (Bool-cases (c == 10)) [
        | inl newline ↦ rw (canonical, other, typed, newline) (newline-Steps n c tty f)
        | inr plain ↦ rw (canonical, other, typed, plain) (append-Steps n c tty f)
      ]
    ]
  ]
]

pub echoed_screen :
    (termios : Termios) (c : ℕ) (tty : Tty) (echo : Bool)
    → let t = if echo then echo_char termios c tty else tty in t ≡ record tty { screen = t.screen }
echoed_screen termios c tty true = echo_char_screen termios c tty
echoed_screen termios c tty false = refl

-- An echo before it changes the screen only.
pub echoed-Steps :
    (termios : Termios) (n c : ℕ) (tty t : Tty)
    → Fits (suc n) tty
    → t ≡ record tty { screen = t.screen }
    → Steps n tty
        (if termios.icanon then icanon_char termios c t else send_input_char c t)
        (type_char termios tty.line_buf_size c (editor_of tty))
echoed-Steps termios n c tty t f h =
    let take' =
      λ (x : Tty). if termios.icanon then icanon_char termios c x else send_input_char c x in
    let e = type_char termios tty.line_buf_size c (editor_of tty) in
    let shown : Tty = record tty { screen = t.screen } in
    let step = take_char-Steps termios n c shown (record { valid = f.valid; room = f.room }) in
    subst (λ x. Steps n tty (take' x) e) (sym h)
      (record { fits = step.fits; same = step.same; size = step.size; group = step.group })
