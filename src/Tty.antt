-- ===== src/Tty.antt =====
-- src/drivers/char/tty_termios.c: the line discipline between a terminal's keyboard and screen and
-- its reader. Bytes are numbers below 256. Each step runs under the terminal's mutex.
pub mod Editor
pub mod Steps
pub mod Input
pub mod Echo
mod Examples
use Prim.Native.Nat.{bit_and}
use protura.Base.{
  ℕ, zero, suc, ◌+◌, ◌-◌, ◌%◌, ◌/◌, ◌==◌, ◌!=◌, ◌&&◌, ◌||◌, not, ltb, leb, Bool, true, false,
  Option, none, some, List, [], ◌∷◌, ◌++◌, if◌then◌else◌,
}
use protura.CharBuf.{CharBuf, char_buf_write, char_buf_clear, store}

-- The flags and characters of `struct termios` that the line discipline reads.
pub record Termios : Type 0 where
  pub icrnl : Bool
  pub igncr : Bool
  pub inlcr : Bool
  pub istrip : Bool
  pub iuclc : Bool
  pub onlcr : Bool
  pub onlret : Bool
  pub ocrnl : Bool
  pub olcuc : Bool
  pub isig : Bool
  pub icanon : Bool
  pub echo : Bool
  pub echoe : Bool
  pub echoctl : Bool
  pub noflsh : Bool
  pub veof : ℕ
  pub verase : ℕ
  pub vintr : ℕ
  pub vsusp : ℕ

-- `struct tty`, the bytes that its driver has put out, and the signals sent to process groups.
pub record Tty : Type 0 where
  pub fg_pgrp : ℕ
  pub termios : Termios
  pub input_buf : CharBuf
  pub output_buf : CharBuf
  pub ret0 : Bool
  pub line_buf : ℕ → ℕ
  pub line_buf_pos : ℕ
  pub line_buf_size : ℕ
  pub screen : List ℕ
  pub signals : List (ℕ × ℕ)

abbrev pub sigint : ℕ
sigint = 2

abbrev pub sigtstp : ℕ
sigtstp = 20

-- A `char`, which is signed, compared with a `cc_t`, which is not: bytes from 128 on equal none.
unfoldable pub is_cc : ℕ → ℕ → Bool
is_cc c cc = ltb c 128 && c == cc

unfoldable pub is_control : ℕ → Bool
is_control ch = leb 1 ch && leb ch 31 || ch == 127

-- `c | 0x20` and `c & ~0x20` on letters
unfoldable pub tolower : ℕ → ℕ
tolower c = if leb 65 c && leb c 90 then c + 32 else c

unfoldable pub toupper : ℕ → ℕ
toupper c = if leb 97 c && leb c 122 then c - 32 else c

abbrev pub send_input_char : ℕ → Tty → Tty
send_input_char c tty = record tty { output_buf = char_buf_write tty.output_buf (c ∷ []) }

abbrev pub send_output_char : ℕ → Tty → Tty
send_output_char c tty = record tty { screen = tty.screen ++ (c ∷ []) }

-- The bytes that `output_post_process` sends for one.
unfoldable pub post_process : Termios → ℕ → List ℕ
post_process termios c =
    if c == 10 && termios.onlcr
    then 13 ∷ 10 ∷ []
    else if c == 10 && termios.onlret
    then 13 ∷ []
    else if c == 13 && termios.ocrnl
    then 10 ∷ []
    else if termios.olcuc
    then toupper c ∷ []
    else c ∷ []

abbrev pub output_post_process : Termios → ℕ → Tty → Tty
output_post_process termios c tty = record tty { screen = tty.screen ++ post_process termios c }

-- The loop of `__tty_line_buf_drain`: `n` bytes from position `i` on.
unfoldable pub drain_loop : ℕ → ℕ → Tty → Tty
drain_loop zero i tty = tty
drain_loop (suc n) i tty = drain_loop n (i + 1) (send_input_char (tty.line_buf i) tty)

unfoldable pub tty_line_buf_drain : Tty → Tty
tty_line_buf_drain tty = record (drain_loop tty.line_buf_pos 0 tty) { line_buf_pos = 0 }

unfoldable pub tty_line_buf_append : ℕ → Tty → Tty
tty_line_buf_append c tty =
    if ltb tty.line_buf_pos tty.line_buf_size
    then record tty {
      line_buf = store tty.line_buf tty.line_buf_pos c;
      line_buf_pos = tty.line_buf_pos + 1;
    }
    else tty

unfoldable pub tty_line_buf_remove : Tty → Option ℕ × Tty
tty_line_buf_remove tty =
    if ltb 0 tty.line_buf_pos
    then (
      some (tty.line_buf (tty.line_buf_pos - 1)),
      record tty { line_buf_pos = tty.line_buf_pos - 1 },
    )
    else (none, tty)

unfoldable pub get_char_render_length : Termios → ℕ → ℕ
get_char_render_length termios ch =
    if not termios.echo || not termios.echoctl then 1 else if is_control ch then 2 else 1

unfoldable pub erase_loop : Termios → ℕ → Tty → Tty
erase_loop termios zero tty = tty
erase_loop termios (suc n) tty =
    let back = output_post_process termios 8 tty in
    let blank = output_post_process termios 32 back in
    erase_loop termios n (output_post_process termios 8 blank)

unfoldable pub icanon_char : Termios → ℕ → Tty → Tty
icanon_char termios c tty =
    let (prev, removed) = tty_line_buf_remove tty in
    let appended = tty_line_buf_append c tty in
    if is_cc c termios.veof
    then record tty { ret0 = true }
    else if is_cc c termios.verase
    then elim prev [
      | none ↦ removed
      | some p ↦
          if termios.echo && termios.echoe
          then erase_loop termios (get_char_render_length termios p) removed
          else removed
    ]
    else if c == 10
    then tty_line_buf_drain appended
    else appended

-- `c ^ 0x40`
unfoldable pub flip_64 : ℕ → ℕ
flip_64 c = if c / 64 % 2 == 0 then c + 64 else c - 64

unfoldable pub echo_char : Termios → ℕ → Tty → Tty
echo_char termios c tty =
    if termios.echoe && termios.icanon && is_cc c termios.verase
    then tty
    else if termios.echoctl && is_control c && c != 9 && c != 10
    then output_post_process termios (flip_64 c) (output_post_process termios 94 tty)
    else output_post_process termios c tty

unfoldable pub tty_pgrp_signal : Termios → ℕ → Tty → Tty
tty_pgrp_signal termios sig tty =
    let sent = record tty { signals = tty.signals ++ ((tty.fg_pgrp, sig) ∷ []) } in
    if tty.fg_pgrp == 0 then tty else if termios.noflsh then sent else record sent {
      input_buf = char_buf_clear tty.input_buf;
      output_buf = char_buf_clear tty.output_buf;
    }

-- `none` if the character is no signal's.
unfoldable pub isig_handle : Termios → ℕ → Tty → Option Tty
isig_handle termios c tty =
    if is_cc c termios.vintr
    then some (tty_pgrp_signal termios sigint tty)
    else if is_cc c termios.vsusp
    then some (tty_pgrp_signal termios sigtstp tty)
    else none

-- `none` if the character is skipped.
unfoldable pub input_preprocess : Termios → ℕ → Option ℕ
input_preprocess termios c =
    let mapped =
      if c == 13 && termios.icrnl then 10 else if c == 10 && termios.inlcr then 13 else c in
    let stripped = if termios.istrip then bit_and mapped 127 else mapped in
    if c == 13 && termios.igncr
    then none
    else some (if termios.iuclc then tolower stripped else stripped)

-- One round of `tty_process_input` after `input_preprocess`.
unfoldable pub process_char : Termios → ℕ → Tty → Tty
process_char termios ch tty =
    let echoed = if termios.echo then echo_char termios ch tty else tty in
    let taken =
      if termios.icanon then icanon_char termios ch echoed else send_input_char ch echoed in
    if termios.isig then elim (isig_handle termios ch tty) [ none ↦ taken | some t ↦ t ] else taken

unfoldable pub process_loop : Termios → List ℕ → Tty → Tty
process_loop termios [] tty = tty
process_loop termios (c ∷ rest) tty = elim (input_preprocess termios c) [
  | none ↦ process_loop termios rest tty
  | some ch ↦ process_loop termios rest (process_char termios ch tty)
]

unfoldable pub tty_process_input : List ℕ → Tty → Tty
tty_process_input buf tty = process_loop tty.termios buf tty

-- Output of `buf_len` bytes, of which the user's memory holds `bytes`: false is -EFAULT.
unfoldable pub output_loop : Termios → ℕ → List ℕ → Tty → Bool × Tty
output_loop termios zero bytes tty = (true, tty)
output_loop termios (suc n) [] tty = (false, tty)
output_loop termios (suc n) (ch ∷ bytes) tty =
    output_loop termios n bytes (output_post_process termios ch tty)

unfoldable pub tty_process_output : ℕ → List ℕ → Tty → Bool × Tty
tty_process_output buf_len bytes tty = output_loop tty.termios buf_len bytes tty
