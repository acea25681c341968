-- ===== src/Tty/Echo.antt =====
-- What the screen shows of a character, and what erasing it takes back.
use protura.Base.{
  ℕ, zero, suc, ◌+◌, ◌-◌, ◌*◌, ◌≡◌, ◌≢◌, ◌!=◌, ◌&&◌, ap, sym, ◌∙◌, Bool, true, false, some, [], ◌∷◌,
  ◌++◌, length, length-append, arith,
}
use protura.CharBuf.{slice}
use protura.CharBuf.Slices.{length-slice}
use protura.CharBuf.Queue.{queue}
use protura.Tty.{
  is_cc, Tty, Termios, post_process, erase_loop, echo_char, is_control, flip_64,
  get_char_render_length, output_post_process, input_preprocess, tty_process_input,
}
use protura.Tty.Editor.{Editor, editor_of, Fits, edit, edit_char, type_char}
use protura.Tty.Input.{tty_process_input-edit}

length-post_process : (termios : Termios) (c : ℕ) → c ≢ 10 → length (post_process termios c) ≡ 1
unfolding post_process
length-post_process termios c h = ground arith

length-erase_loop :
    (termios : Termios) (n : ℕ) (tty : Tty)
    → length (erase_loop termios n tty).screen ≡ length tty.screen + 3 * n
unfolding erase_loop
length-erase_loop termios zero tty = omega arith
length-erase_loop termios (suc n) tty =
    let back = post_process termios 8 in
    let blank = post_process termios 32 in
    let one = output_post_process termios 8 tty in
    let two = output_post_process termios 32 one in
    let three = output_post_process termios 8 two in
    omega (
      arith,
      length-erase_loop termios n three,
      length-append (tty.screen ++ back ++ blank) back,
      length-append (tty.screen ++ back) blank,
      length-append tty.screen back,
      length-post_process termios 8 (λ e. omega arith),
      length-post_process termios 32 (λ e. omega arith),
    )

length-echo_char :
    (termios : Termios) (c : ℕ) (tty : Tty)
    → termios.echo ≡ true
    → c ≢ 9
    → c ≢ 10
    → (termios.echoe && termios.icanon && is_cc c termios.verase) ≡ false
    → length (echo_char termios c tty).screen ≡ length tty.screen + get_char_render_length termios c
unfolding echo_char get_char_render_length is_control flip_64
length-echo_char termios c tty echo tab newline erase = ground (
  arith,
  length-append tty.screen (post_process termios c),
  length-append tty.screen (post_process termios 94),
  length-append (tty.screen ++ post_process termios 94) (post_process termios (flip_64 c)),
  length-post_process termios c,
  length-post_process termios 94,
  length-post_process termios (flip_64 c),
)

-- Erasing a character that was echoed, but for a tab, a newline and the erase character, puts out
-- the three bytes that blank a column for each byte of its echo.
pub erase_loop-echo_char :
    (termios : Termios) (c : ℕ) (tty : Tty)
    → termios.echo ≡ true
    → c ≢ 9
    → c ≢ 10
    → (termios.echoe && termios.icanon && is_cc c termios.verase) ≡ false
    → let shown = echo_char termios c tty in
      let gone = erase_loop termios (get_char_render_length termios c) shown in
      length gone.screen ≡ length shown.screen + 3 * (length shown.screen - length tty.screen)
erase_loop-echo_char termios c tty echo tab newline erase =
    let shown = echo_char termios c tty in
    omega (
      arith,
      length-erase_loop termios (get_char_render_length termios c) shown,
      length-echo_char termios c tty echo tab newline erase,
    )

-- The flags under which a newline is a plain end of line.
abbrev pub PlainNewline : Termios → Type 0
PlainNewline termios =
    (termios.icanon ≡ true)
    × (termios.isig ≡ false)
    × (input_preprocess termios 10 ≡ some 10)
    × (termios.veof ≢ 10)
    × (termios.verase ≢ 10)

edit_full :
    (termios : Termios) (has_group : Bool) (e : Editor)
    → PlainNewline termios
    → (edit termios has_group (length e.typed) (10 ∷ []) e).delivered ≡ e.delivered ++ e.typed
unfolding edit edit_char type_char is_cc
edit_full termios has_group e (canon, isig, pre, eof, erase) = ground arith

-- In a line that has filled its buffer the newline that ends it is dropped: what reaches the reader
-- is the line alone.
pub tty_process_input_full_line :
    (tty : Tty)
    → Fits 1 tty
    → PlainNewline tty.termios
    → tty.line_buf_pos ≡ tty.line_buf_size
    → queue (tty_process_input (10 ∷ []) tty).output_buf
      ≡ queue tty.output_buf ++ slice tty.line_buf 0 tty.line_buf_pos
tty_process_input_full_line tty f plain full =
    let (_, e) = tty_process_input-edit (10 ∷ []) tty f in
    let size : tty.line_buf_size ≡ length (editor_of tty).typed =
      sym full ∙ sym (length-slice tty.line_buf 0 tty.line_buf_pos) in
    ap (λ (x : Editor). x.delivered) e
    ∙ rw size (edit_full tty.termios (tty.fg_pgrp != 0) (editor_of tty) plain)
