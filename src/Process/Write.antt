-- ===== src/Process/Write.antt =====
-- sys_write: the chunks make up the whole buffer.
use so2_joan_erik.Common.{
  ℕ, zero, suc, ◌+◌, ◌-◌, ◌<◌, ◌≤◌, ◌≡◌, refl, ◌≢◌, ◌∙◌, sym, ap, true, false, ltb, ◌==◌, arith,
  Bool-cases, inl, inr, ◌⊎◌, ℤ, pos, ◌<ℤ◌, ◌≤ℤ◌, eqb_ℤ, leb_ℤ, pos_part,
}
use so2_joan_erik.Screen.{Screen, printc, write_loop, sys_write_console}
use so2_joan_erik.UserMem.{verify_read, access_ok, copy_from_user}
use so2_joan_erik.UserMem.Copy.{Copied, copies-Copied}
use so2_joan_erik.Process.{
  write_aux_buff_max_size, check_fd, Output, write_chunk, write_chunks, sys_write,
}

write_loop-same :
    (n : ℕ) (f g : ℕ → ℕ) (i k : ℕ) (s : Screen)
    → ((j : ℕ) → j < n → f (i + j) ≡ g (k + j))
    → write_loop n f i s ≡ write_loop n g k s
unfolding write_loop
write_loop-same zero f g i k s h = refl
write_loop-same (suc n) f g i k s h =
    let z : i ≡ i + 0 = omega arith in
    let z' : k + 0 ≡ k = omega arith in
    rw (ap f z ∙ h 0 (omega arith) ∙ ap g z') (
      write_loop-same n f g (i + 1) (k + 1) (printc s (g k)) λ j lt.
        let a : i + 1 + j ≡ i + suc j = omega arith in
        let b : k + suc j ≡ k + 1 + j = omega arith in ap f a ∙ h (suc j) (omega arith) ∙ ap g b)

write_loop-append :
    (m n size : ℕ) (f : ℕ → ℕ) (i : ℕ) (s : Screen)
    → m + n ≡ size
    → write_loop n f (i + m) (write_loop m f i s) ≡ write_loop size f i s
unfolding write_loop
write_loop-append zero n size f i s e =
    let p : n ≡ size = omega arith in let z : i + 0 ≡ i = omega arith in rw (p, z) refl
write_loop-append (suc m) n zero f i s e = absurd (omega arith)
write_loop-append (suc m) n (suc size) f i s e =
    let z : i + suc m ≡ i + 1 + m = omega arith in
    rw z (write_loop-append m n size f (i + 1) (printc s (f i)) (omega arith))

-- The buffer and the auxiliary buffer do not overlap.
abbrev pub Separate : ℕ → ℕ → ℕ → Type 0
Separate aux buffer size = (buffer + size ≤ aux) ⊎ (aux + write_aux_buff_max_size ≤ buffer)

-- What the loop leaves: the number of characters, the screen after them, and the memory but for the
-- auxiliary buffer.
pub record Prints (aux buffer size ret : ℕ) (o : Output) (r : ℕ × Output) : Type 0 where
  pub count : r.0 ≡ ret + size
  pub shown : r.1.screen ≡ (sys_write_console o.screen (λ i. o.mem (buffer + i)) size).1
  pub spared : (a : ℕ) → (a < aux) ⊎ (aux + write_aux_buff_max_size ≤ a) → r.1.mem a ≡ o.mem a

write_chunk-Prints :
    (aux buffer size ret : ℕ) (o : Output)
    → size ≤ write_aux_buff_max_size
    → Separate aux buffer size
    → Prints aux buffer size ret o (write_chunk aux buffer size ret o)
unfolding write_chunk sys_write_console
write_chunk-Prints aux buffer size ret o small sep = record {
  count = refl;
  shown = write_loop-same size _ _ 0 0 o.screen λ j lt.
      let z : aux + (0 + j) ≡ aux + j = omega arith in
      let z' : buffer + j ≡ buffer + (0 + j) = omega arith in
      ap (copy_from_user o.mem buffer aux (pos size)).1 z ∙ c.moved j lt ∙ ap o.mem z';
  spared = λ a h. c.spared a (ground arith);
}
  where
    c : Copied o.mem (copy_from_user o.mem buffer aux (pos size)).1 buffer aux size
    c = (copies-Copied o.mem buffer aux size (ground arith)).1

-- A full chunk and the rest.
chunk_then :
    (aux buffer size ret : ℕ) (o : Output)
    → write_aux_buff_max_size < size
    → Separate aux buffer size
    → (r : ℕ × Output) → Prints aux buffer write_aux_buff_max_size ret o r
    → (r' : ℕ × Output)
    → Prints aux (buffer + write_aux_buff_max_size) (size - write_aux_buff_max_size) r.0 r.1 r'
    → Prints aux buffer size ret o r'
unfolding sys_write_console
chunk_then aux buffer size ret o more sep r p r' p' = record {
  count = omega (arith, p.count, p'.count);
  shown =
      p'.shown
      ∙ write_loop-same (size - 1024) (λ i. r.1.mem (buffer + 1024 + i)) (λ i. o.mem (buffer + i)) 0
          (0 + 1024) r.1.screen
          (λ j lt.
            let a : buffer + 1024 + (0 + j) ≡ buffer + (0 + 1024 + j) = omega arith in
            ap r.1.mem a ∙ p.spared (buffer + (0 + 1024 + j)) (ground (arith, sep)))
      ∙ ap (write_loop (size - 1024) (λ i. o.mem (buffer + i)) (0 + 1024)) p.shown
      ∙ write_loop-append 1024 (size - 1024) size (λ i. o.mem (buffer + i)) 0 o.screen
          (omega arith);
  spared = λ a h. p'.spared a h ∙ p.spared a h;
}

write_chunks-Prints :
    (f aux buffer size ret : ℕ) (o : Output)
    → size ≤ f
    → Separate aux buffer size
    → Prints aux buffer size ret o (write_chunks f aux buffer size ret o)
unfolding write_chunks
write_chunks-Prints zero aux buffer size ret o enough sep =
    write_chunk-Prints aux buffer size ret o (omega arith) sep
write_chunks-Prints (suc f) aux buffer size ret o enough sep =
    elim (Bool-cases (ltb write_aux_buff_max_size size)) [
      | inr last ↦ rw last (write_chunk-Prints aux buffer size ret o (ground arith) sep)
      | inl more ↦ rw more (
          chunk_then aux buffer size ret o (ground (arith, more)) sep _
            (write_chunk-Prints aux buffer write_aux_buff_max_size ret o (omega arith)
              (ground (arith, more, sep)))
            _
            (write_chunks-Prints f aux (buffer + write_aux_buff_max_size)
              (size - write_aux_buff_max_size) _ _ (omega arith) (ground (arith, more, sep))))
    ]

-- For descriptor 1, a buffer that the kernel accepts and a positive size: sys_write returns the size,
-- the screen is as if the whole buffer had been printed at once, and the memory changes in the
-- auxiliary buffer alone. The buffer must not overlap the auxiliary buffer.
pub sys_write-Prints :
    (aux buffer size : ℕ) (o : Output)
    → 1 ≤ buffer
    → 1 ≤ size
    → access_ok verify_read buffer size ≡ true
    → Separate aux buffer size
    → ((sys_write aux (pos 1) buffer (pos size) o).0 ≡ pos size)
      × Prints aux buffer size 0 o (size, (sys_write aux (pos 1) buffer (pos size) o).1)
unfolding sys_write check_fd
sys_write-Prints aux buffer size o buf some_chars ok sep =
    let p = write_chunks-Prints size aux buffer size 0 o (omega arith) sep in
    let not_null : (buffer == 0) ≡ false = ground arith in
    let positive : leb_ℤ (pos size) (pos 0) ≡ false = ground arith in
    let none_before : 0 + size ≡ size = omega arith in
    rw (not_null, positive, ok)
      (
        ap pos (p.count ∙ none_before),
        record { count = sym none_before; shown = p.shown; spared = p.spared },
      )

-- With a descriptor other than 1, a null pointer, a size that is not positive or a buffer that
-- access_ok refuses, sys_write returns a negative number, prints nothing and changes nothing.
pub sys_write_refused :
    (aux buffer : ℕ) (fd size : ℤ) (o : Output)
    → (fd ≢ pos 1)
      ⊎ (buffer ≡ 0)
      ⊎ (size ≤ℤ pos 0)
      ⊎ (access_ok verify_read buffer (pos_part size) ≡ false)
    → ((sys_write aux fd buffer size o).0 <ℤ pos 0) × ((sys_write aux fd buffer size o).1 ≡ o)
unfolding sys_write check_fd
sys_write_refused aux buffer fd size o why = elim (Bool-cases (eqb_ℤ fd (pos 1))) [
  | inr e ↦ rw e (omega arith, refl)
  | inl e ↦ rw e (elim (Bool-cases (buffer == 0)) [
    | inl e' ↦ rw e' (omega arith, refl)
    | inr e' ↦ rw e' (elim (Bool-cases (leb_ℤ size (pos 0))) [
      | inl e'' ↦ rw e'' (omega arith, refl)
      | inr e'' ↦ rw e'' (elim (Bool-cases (access_ok verify_read buffer (pos_part size))) [
        | inr r ↦ rw r (omega arith, refl)
        | inl r ↦ absurd (ground (arith, why, e, e', e'', r))
      ])
    ])
  ])
]
