-- ===== src/Tty/Examples.antt =====
-- A terminal in its usual mode, and the line discipline's theorems at it.
use protura.Base.{◌≡◌, refl, true, false, some, [], ◌∷◌, arith}
use protura.CharBuf.{CharBuf, char_buf_write, copy_to, store, slice}
use protura.CharBuf.Queue.{IsValid, queue}
use protura.Tty.{
  is_cc, Tty, Termios, tty_process_input, process_loop, process_char, input_preprocess, isig_handle,
  icanon_char, echo_char, tty_line_buf_append, tty_line_buf_remove, tty_line_buf_drain, drain_loop,
  erase_loop, get_char_render_length, is_control, post_process,
}
use protura.Tty.Editor.{editor_of, edit, Fits}
use protura.Tty.Input.{tty_process_input-edit}

abbrev usual : Termios
usual = record {
  icrnl = true;
  igncr = false;
  inlcr = false;
  istrip = false;
  iuclc = false;
  onlcr = true;
  onlret = false;
  ocrnl = false;
  olcuc = false;
  isig = false;
  icanon = true;
  echo = true;
  echoe = true;
  echoctl = true;
  noflsh = false;
  veof = 4;
  verase = 127;
  vintr = 3;
  vsusp = 26;
}

abbrev empty_ring : CharBuf
empty_ring = record { buffer = λ i. 0; len = 16; start_pos = 0; buf_len = 0 }

-- A line of at most three bytes.
abbrev terminal : Tty
terminal = record {
  fg_pgrp = 5;
  termios = usual;
  input_buf = empty_ring;
  output_buf = empty_ring;
  ret0 = false;
  line_buf = λ i. 97;
  line_buf_pos = 0;
  line_buf_size = 3;
  screen = [];
  signals = [];
}

-- The line `aaa` fills the buffer.
abbrev full_line : Tty
full_line = record terminal { line_buf_pos = 3 }

-- `x`, `y`, erase, return: the reader gets `x` and a newline.
typed : queue (tty_process_input (120 ∷ 121 ∷ 127 ∷ 13 ∷ []) terminal).output_buf ≡ 120 ∷ 10 ∷ []
unfolding tty_process_input process_loop process_char input_preprocess isig_handle icanon_char
    echo_char tty_line_buf_append tty_line_buf_remove tty_line_buf_drain drain_loop erase_loop
    get_char_render_length is_cc is_control post_process queue slice char_buf_write copy_to store
typed = refl

terminal-Fits : Fits 4 terminal
terminal-Fits = record {
  valid = record { start = omega arith; fits = omega arith };
  room = omega arith;
}

full_line-Fits : Fits 1 full_line
full_line-Fits = record {
  valid = record { start = omega arith; fits = omega arith };
  room = omega arith;
}

newline_typed : input_preprocess usual 10 ≡ some 10
unfolding input_preprocess
newline_typed = refl

tty_process_input-edit_example :
    let t = tty_process_input (120 ∷ 121 ∷ 127 ∷ 13 ∷ []) terminal in
    IsValid t.output_buf
    × (editor_of t ≡ edit usual true 3 (120 ∷ 121 ∷ 127 ∷ 13 ∷ []) (editor_of terminal))
tty_process_input-edit_example =
    tty_process_input-edit (120 ∷ 121 ∷ 127 ∷ 13 ∷ []) terminal terminal-Fits
