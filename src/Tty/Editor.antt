-- ===== src/Tty/Editor.antt =====
-- The line discipline as an editor of lines: what the reader gets, the line being typed, and the
-- mark of an end of file.
use protura.Base.{
  ℕ, zero, suc, ◌+◌, ◌-◌, ◌<◌, ◌≤◌, ◌≡◌, inl, inr, ◌==◌, ◌!=◌, ◌&&◌, ◌||◌, not, ltb, refl, ap, sym,
  ◌∙◌, Bool, true, none, some, List, [], ◌∷◌, ◌++◌, append_assoc, append-nil, length, arith,
  Bool-cases, if◌then◌else◌,
}
use protura.CharBuf.{CharBuf, char_buf_write, slice, copy_to}
use protura.CharBuf.Slices.{slice-append, length-slice}
use protura.CharBuf.Queue.{IsValid, queue, queue-char_buf_write, after_len, append_flat}
use protura.Tty.{
  is_cc, Tty, Termios, drain_loop, tty_line_buf_append, tty_line_buf_remove, erase_loop, echo_char,
  is_control, input_preprocess, output_post_process, send_input_char,
}

pub record Editor : Type 0 where
  pub delivered : List ℕ
  pub typed : List ℕ
  pub eof : Bool

-- A terminal as an editor.
abbrev pub editor_of : Tty → Editor
editor_of tty = record {
  delivered = queue tty.output_buf;
  typed = slice tty.line_buf 0 tty.line_buf_pos;
  eof = tty.ret0;
}

unfoldable pub drop_last : List ℕ → List ℕ
drop_last [] = []
drop_last (x ∷ []) = []
drop_last (x ∷ y ∷ ys) = x ∷ drop_last (y ∷ ys)

-- A character that is no signal's.
unfoldable pub type_char : Termios → ℕ → ℕ → Editor → Editor
type_char termios size c e =
    let line = if ltb (length e.typed) size then e.typed ++ (c ∷ []) else e.typed in
    if not termios.icanon
    then record e { delivered = e.delivered ++ (c ∷ []) }
    else if is_cc c termios.veof
    then record e { eof = true }
    else if is_cc c termios.verase
    then record e { typed = drop_last e.typed }
    else if c == 10
    then record e { delivered = e.delivered ++ line; typed = [] }
    else record e { typed = line }

abbrev pub signals_by : Termios → ℕ → Bool
signals_by termios c = termios.isig && (is_cc c termios.vintr || is_cc c termios.vsusp)

unfoldable pub edit_char : Termios → Bool → ℕ → ℕ → Editor → Editor
edit_char termios has_group size c e =
    if signals_by termios c
    then (if has_group && not termios.noflsh then record e { delivered = [] } else e)
    else type_char termios size c e

unfoldable pub edit : Termios → Bool → ℕ → List ℕ → Editor → Editor
edit termios has_group size [] e = e
edit termios has_group size (c ∷ rest) e = elim (input_preprocess termios c) [
  | none ↦ edit termios has_group size rest e
  | some ch ↦ edit termios has_group size rest (edit_char termios has_group size ch e)
]

drop_last-append : (xs : List ℕ) (c : ℕ) → drop_last (xs ++ (c ∷ [])) ≡ xs
unfolding drop_last
drop_last-append [] c = refl
drop_last-append (x ∷ []) c = refl
drop_last-append (x ∷ y ∷ ys) c = ap (λ t. x ∷ t) (drop_last-append (y ∷ ys) c)

-- There is room for `n` more bytes besides those of the line.
pub record Fits (n : ℕ) (tty : Tty) : Type 0 where
  pub valid : IsValid tty.output_buf
  pub room : tty.output_buf.buf_len + tty.line_buf_pos + n ≤ tty.output_buf.len

-- Output to the screen changes nothing else.
pub erase_loop_screen :
    (termios : Termios) (n : ℕ) (tty : Tty)
    → erase_loop termios n tty ≡ record tty { screen = (erase_loop termios n tty).screen }
unfolding erase_loop
erase_loop_screen termios zero tty = refl
erase_loop_screen termios (suc n) tty =
    let back = output_post_process termios 8 tty in
    let blank = output_post_process termios 32 back in
    erase_loop_screen termios n (output_post_process termios 8 blank)

pub echo_char_screen :
    (termios : Termios) (c : ℕ) (tty : Tty)
    → echo_char termios c tty ≡ record tty { screen = (echo_char termios c tty).screen }
unfolding echo_char
echo_char_screen termios c tty =
    elim (Bool-cases (termios.echoe && termios.icanon && is_cc c termios.verase)) [
      | inl skip ↦ rw skip refl
      | inr show ↦ elim (Bool-cases (termios.echoctl && is_control c && c != 9 && c != 10)) [
        | inl control ↦ rw (show, control) refl
        | inr plain ↦ rw (show, plain) refl
      ]
    ]

-- One byte to the reader.
pub send_queue :
    (c : ℕ) (out : CharBuf)
    → IsValid out
    → out.buf_len < out.len
    → let out' = char_buf_write out (c ∷ []) in
      IsValid out'
      × (queue out' ≡ queue out ++ (c ∷ []))
      × (out'.len ≡ out.len)
      × (out'.buf_len ≡ out.buf_len + 1)
send_queue c out v h =
    let (valid, q) = queue-char_buf_write out (c ∷ []) v (omega arith) in
    let (len, _, n) = after_len out (c ∷ []) v (omega arith) in (valid, q, len, n)

pub drain_loop_lem :
    (n i : ℕ) (tty : Tty)
    → IsValid tty.output_buf
    → tty.output_buf.buf_len + n ≤ tty.output_buf.len
    → let out = (drain_loop n i tty).output_buf in
      (drain_loop n i tty ≡ record tty { output_buf = out })
      × IsValid out
      × (queue out ≡ queue tty.output_buf ++ slice tty.line_buf i n)
      × (out.len ≡ tty.output_buf.len)
      × (out.buf_len ≡ tty.output_buf.buf_len + n)
unfolding drain_loop slice
drain_loop_lem zero i tty v h =
    (refl, v, sym (append-nil (queue tty.output_buf)), refl, omega arith)
drain_loop_lem (suc n) i tty v h =
    let c = tty.line_buf i in
    let next = send_input_char c tty in
    let (v', q', l', b') = send_queue c tty.output_buf v (omega arith) in
    let (same, valid, q, l, b) = drain_loop_lem n (i + 1) next v' (omega (arith, l', b')) in
    (
      same,
      valid,
      q ∙ rw q' (append_assoc (queue tty.output_buf) (c ∷ []) (slice tty.line_buf (i + 1) n)),
      l ∙ l',
      omega (arith, b, b'),
    )

-- The step of one character: the editor's, with room for one less.
pub record Steps (n : ℕ) (tty tty' : Tty) (e : Editor) : Type 0 where
  pub fits : Fits n tty'
  pub same : editor_of tty' ≡ e
  pub size : tty'.line_buf_size ≡ tty.line_buf_size
  pub group : tty'.fg_pgrp ≡ tty.fg_pgrp

pub append_line :
    (c : ℕ) (tty : Tty)
    → slice (tty_line_buf_append c tty).line_buf 0 (tty_line_buf_append c tty).line_buf_pos ≡ (
        if ltb (length (slice tty.line_buf 0 tty.line_buf_pos)) tty.line_buf_size
        then slice tty.line_buf 0 tty.line_buf_pos ++ (c ∷ [])
        else slice tty.line_buf 0 tty.line_buf_pos)
unfolding tty_line_buf_append copy_to
append_line c tty =
    let pos = tty.line_buf_pos in
    let z : 0 + pos ≡ pos = omega arith in
    rw (length-slice tty.line_buf 0 pos) (elim (Bool-cases (ltb pos tty.line_buf_size)) [
      | inl room ↦ rw room (rw z at (append_flat tty.line_buf 0 pos (c ∷ [])))
      | inr full ↦ rw full refl
    ])

pub remove_line :
    (tty : Tty)
    → slice (tty_line_buf_remove tty).1.line_buf 0 (tty_line_buf_remove tty).1.line_buf_pos
      ≡ drop_last (slice tty.line_buf 0 tty.line_buf_pos)
unfolding tty_line_buf_remove drop_last slice
remove_line tty = elim (Bool-cases (ltb 0 tty.line_buf_pos)) [
  | inl some' ↦
      let f = tty.line_buf in
      let e : tty.line_buf_pos ≡ tty.line_buf_pos - 1 + 1 = ground arith in
      let whole : slice f 0 tty.line_buf_pos
          ≡ slice f 0 (tty.line_buf_pos - 1) ++ slice f (0 + (tty.line_buf_pos - 1)) 1 =
        ap (λ (k : ℕ). slice f 0 k) e ∙ slice-append f 0 (tty.line_buf_pos - 1) 1 in
      let front =
        drop_last-append (slice f 0 (tty.line_buf_pos - 1)) (f (0 + (tty.line_buf_pos - 1))) in
      rw some' (sym (ap drop_last whole ∙ front))
  | inr empty ↦ let e : tty.line_buf_pos ≡ 0 = ground arith in rw (empty, e) refl
]
