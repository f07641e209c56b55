-- ===== src/Keyboard/Queue.antt =====
-- The keyboard buffer as a queue of characters, oldest first.
use so2_joan_erik.Common.{
  ℕ, zero, suc, ◌+◌, ◌%◌, ◌<◌, ◌≡◌, refl, ◌≢◌, List, [], ◌∷◌, ◌++◌, arith, ◌==◌, if◌then◌else◌, ap,
  length,
}
use so2_joan_erik.Keyboard.{
  KeyBuffer, kb_buffer_size_max, kb_buffer_push, kb_buffer_pop, kb_buffer_size,
}

-- Both indices lie in the array.
pub record IsValid (b : KeyBuffer) : Type 0 where
  pub head_in : b.head < kb_buffer_size_max
  pub tail_in : b.tail < kb_buffer_size_max

-- The `n` characters from index `i` on, going round at the end of the array.
abbrev pub window : (ℕ → ℕ) → ℕ → ℕ → List ℕ
window f i zero = []
window f i (suc n) = f i ∷ window f ((i + 1) % kb_buffer_size_max) n

abbrev pub contents : KeyBuffer → List ℕ
contents b = window b.buffer b.tail (kb_buffer_size b)

pub length-window : (f : ℕ → ℕ) (i n : ℕ) → length (window f i n) ≡ n
length-window f i zero = refl
length-window f i (suc n) = ap suc (length-window f ((i + 1) % kb_buffer_size_max) n)

-- A write just behind a window extends it.
window-push :
    (f : ℕ → ℕ) (c h i n : ℕ)
    → i < kb_buffer_size_max
    → n < kb_buffer_size_max
    → h ≡ (i + n) % kb_buffer_size_max
    → window (λ j. if j == h then c else f j) i (suc n) ≡ window f i n ++ c ∷ []
window-push f c h i zero hi hn e = ground arith
window-push f c h i (suc n) hi hn e =
    ground (arith, window-push f c h ((i + 1) % kb_buffer_size_max) n)

-- The push and the pop keep the indices in the array.
pub push-IsValid : {b : KeyBuffer} (c : ℕ) → IsValid b → IsValid (kb_buffer_push b c)
unfolding kb_buffer_push
push-IsValid c v = ground arith

pub pop-IsValid : {b : KeyBuffer} → IsValid b → IsValid (kb_buffer_pop b).1
unfolding kb_buffer_pop
pop-IsValid v = ground arith

-- The buffer never holds more than one character less than its array.
pub size-lt : {b : KeyBuffer} → IsValid b → kb_buffer_size b < kb_buffer_size_max
unfolding kb_buffer_size
size-lt v = ground arith

-- The head stands `size` places after the tail.
head-eq : {b : KeyBuffer} → IsValid b → b.head ≡ (b.tail + kb_buffer_size b) % kb_buffer_size_max
unfolding kb_buffer_size
head-eq v = ground arith

size-push :
    {b : KeyBuffer} (c : ℕ)
    → IsValid b
    → suc (kb_buffer_size b) < kb_buffer_size_max
    → kb_buffer_size (kb_buffer_push b c) ≡ suc (kb_buffer_size b)
unfolding kb_buffer_size kb_buffer_push
size-push c v h = ground arith

-- With indices in the array and fewer than 254 characters held, a push puts its character behind all of them.
pub push-contents :
    {b : KeyBuffer} (c : ℕ)
    → IsValid b
    → kb_buffer_size b < 254
    → contents (kb_buffer_push b c) ≡ contents b ++ c ∷ []
unfolding kb_buffer_push
push-contents {b} c v h =
    rw (size-push c v (omega arith))
      (window-push b.buffer c b.head b.tail (kb_buffer_size b) v.tail_in (size-lt v) (head-eq v))

size-push_full :
    {b : KeyBuffer} (c : ℕ)
    → IsValid b
    → kb_buffer_size b ≡ 254
    → kb_buffer_size (kb_buffer_push b c) ≡ 0
unfolding kb_buffer_size kb_buffer_push
size-push_full c v h = ground arith

-- With indices in the array, a push at 254 characters makes the buffer look empty: the 254 and the new one are lost.
pub push_full-contents :
    {b : KeyBuffer} (c : ℕ)
    → IsValid b
    → kb_buffer_size b ≡ 254
    → contents (kb_buffer_push b c) ≡ []
push_full-contents c v h = rw (size-push_full c v h) refl

pub size-pop :
    {b : KeyBuffer}
    → IsValid b
    → kb_buffer_size b ≢ 0
    → kb_buffer_size b ≡ suc (kb_buffer_size (kb_buffer_pop b).1)
unfolding kb_buffer_size kb_buffer_pop
size-pop v h = ground arith

-- With indices in the array, a pop of a buffer that is not empty returns the oldest character and leaves the others.
pub pop-contents :
    {b : KeyBuffer}
    → IsValid b
    → kb_buffer_size b ≢ 0
    → contents b ≡ (kb_buffer_pop b).0 ∷ contents (kb_buffer_pop b).1
unfolding kb_buffer_pop
pop-contents {b} v h = rw (size-pop v h) refl
