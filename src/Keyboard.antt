-- ===== src/Keyboard.antt =====
-- The keyboard buffer of interrupt.c: `struct Key_buffer` and its three operations. An `unsigned int`
-- index stays below KB_BUFFER_SIZE, so its additions do not wrap.
pub mod Queue
use so2_joan_erik.Common.{ℕ, ◌+◌, ◌-◌, ◌%◌, ◌==◌, leb, if◌then◌else◌}

abbrev pub kb_buffer_size_max : ℕ
kb_buffer_size_max = 255

pub record KeyBuffer : Type 0 where
  pub buffer : ℕ → ℕ
  pub head : ℕ
  pub tail : ℕ

unfoldable pub kb_buffer_push : KeyBuffer → ℕ → KeyBuffer
kb_buffer_push b c = record b {
  buffer = λ i. if i == b.head then c else b.buffer i;
  head = (b.head + 1) % kb_buffer_size_max;
}

unfoldable pub kb_buffer_pop : KeyBuffer → ℕ × KeyBuffer
kb_buffer_pop b = (b.buffer b.tail, record b { tail = (b.tail + 1) % kb_buffer_size_max })

unfoldable pub kb_buffer_size : KeyBuffer → ℕ
kb_buffer_size b =
    if leb b.tail b.head then b.head - b.tail else kb_buffer_size_max - b.tail + b.head
