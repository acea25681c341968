-- ===== src/CharBuf/Examples.antt =====
-- A ring of five bytes whose three bytes wrap around its end.
use protura.Base.{◌+◌, ◌≡◌, refl, [], ◌∷◌, ◌++◌, length, arith, false}
use protura.CharBuf.{CharBuf, char_buf_read_user, char_buf_write, slice}
use protura.CharBuf.Queue.{IsValid, queue, queue-char_buf_write}
use protura.CharBuf.Reads.{queue-char_buf_read_user}

abbrev wrapped : CharBuf
wrapped = record { buffer = λ i. 10 + i; len = 5; start_pos = 3; buf_len = 3 }

wrapped-IsValid : IsValid wrapped
wrapped-IsValid = record { start = omega arith; fits = omega arith }

queue_of_wrapped : queue wrapped ≡ 13 ∷ 14 ∷ 10 ∷ []
unfolding queue slice
queue_of_wrapped = refl

-- The fault of the second copy drops the bytes 14 and 10, and the first copy gave 13 and 14.
fault_of_wrapped :
    let (r, b) = char_buf_read_user wrapped 2 3 in (r.bytes ≡ 13 ∷ 14 ∷ []) × (queue b ≡ 13 ∷ [])
unfolding char_buf_read_user queue slice
fault_of_wrapped = (refl, refl)

queue-char_buf_write_example :
    IsValid (char_buf_write wrapped (7 ∷ 8 ∷ []))
    × (queue (char_buf_write wrapped (7 ∷ 8 ∷ [])) ≡ queue wrapped ++ (7 ∷ 8 ∷ []))
queue-char_buf_write_example =
    queue-char_buf_write wrapped (7 ∷ 8 ∷ []) wrapped-IsValid (omega arith)

queue-char_buf_read_user_example :
    let (r, b) = char_buf_read_user wrapped 9 4 in
    (r.error ≡ false)
    × (r.size ≡ 3)
    × (length r.bytes ≡ 3)
    × (queue wrapped ≡ r.bytes ++ queue b)
    × IsValid b
queue-char_buf_read_user_example =
    queue-char_buf_read_user wrapped 9 4 wrapped-IsValid (omega arith)
