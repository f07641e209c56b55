-- ===== src/UserMem/Copy.antt =====
-- The copies move their bytes and no others.
use so2_joan_erik.Common.{
  ℕ, zero, suc, ◌+◌, ◌-◌, ◌<◌, ◌≤◌, ◌≡◌, refl, ◌∙◌, ap, arith, ltb, pos, Bool-cases, inl, inr, ◌⊎◌,
}
use so2_joan_erik.UserMem.{
  Mem, store, copy_word, copy_bytes, copy_words, copy_data, copy_from_user, copy_to_user,
}

-- After a copy of `size` bytes from `p` to `q`: the bytes at `q` are those that were at `p`, and all
-- others are as before.
pub record Copied (m m' : Mem) (p q size : ℕ) : Type 0 where
  pub moved : (i : ℕ) → i < size → m' (q + i) ≡ m (p + i)
  pub spared : (a : ℕ) → (a < q) ⊎ (q + size ≤ a) → m' a ≡ m a

-- The regions do not overlap.
abbrev pub Apart : ℕ → ℕ → ℕ → Type 0
Apart p q size = (p + size ≤ q) ⊎ (q + size ≤ p)

-- Two copies in a row, of `k` bytes and of the `n` behind them.
Copied-append :
    {m m1 m2 : Mem} (p q k n size : ℕ)
    → k + n ≡ size
    → Apart p q size
    → Copied m m1 p q k
    → Copied m1 m2 (p + k) (q + k) n
    → Copied m m2 p q size
Copied-append {m} {m1} {m2} p q k n size e apart c d = record {
  moved = λ i h. elim (Bool-cases (ltb i k)) [
    | inl lt ↦ d.spared (q + i) (inl (ground arith)) ∙ c.moved i (ground arith)
    | inr ge ↦
        let to : q + i ≡ q + k + (i - k) = ground arith in
        let from : p + k + (i - k) ≡ p + i = ground arith in
        ap m2 to ∙ d.moved (i - k) (ground arith) ∙ ap m1 from ∙ c.spared (p + i) (ground arith)
  ];
  spared = λ a h. d.spared a (ground arith) ∙ c.spared a (ground arith);
}

store-Copied : (m : Mem) (p q : ℕ) → Copied m (store m q (m p)) p q 1
store-Copied m p q = record {
  moved = λ i h.
      let at : q + i ≡ q = omega arith in
      let from : p ≡ p + i = omega arith in ground (arith, ap m from);
  spared = λ a h. ground arith;
}

copy_word-Copied : (m : Mem) (p q : ℕ) → Copied m (copy_word m p q) p q 4
unfolding copy_word
copy_word-Copied m p q = record {
  moved = λ i h. let from : p + (q + i - q) ≡ p + i = omega arith in ground (arith, ap m from);
  spared = λ a h. ground arith;
}

copy_bytes-Copied : (n : ℕ) (m : Mem) (p q : ℕ) → Apart p q n → Copied m (copy_bytes n m p q) p q n
unfolding copy_bytes
copy_bytes-Copied zero m p q apart = record {
  moved = λ i h. absurd (omega arith);
  spared = λ a h. refl;
}
copy_bytes-Copied (suc n) m p q apart =
    Copied-append p q 1 n (suc n) (omega arith) apart (store-Copied m p q)
      (copy_bytes-Copied n (store m q (m p)) (p + 1) (q + 1) (omega arith))

-- With fuel of the size the word loop copies everything.
copy_words-Copied :
    (f : ℕ) (m : Mem) (p q size : ℕ) → Apart p q size → Copied m (copy_words f m p q size) p q size
unfolding copy_words
copy_words-Copied zero m p q size apart = copy_bytes-Copied size m p q apart
copy_words-Copied (suc f) m p q size apart = elim (Bool-cases (ltb 4 size)) [
  | inl more ↦ rw more (
      Copied-append p q 4 (size - 4) size (ground arith) apart (copy_word-Copied m p q)
        (copy_words-Copied f (copy_word m p q) (p + 4) (q + 4) (size - 4) (ground arith)))
  | inr last ↦ rw last (copy_bytes-Copied size m p q apart)
]

-- Between regions that do not overlap, copy_data, copy_from_user and copy_to_user move exactly the
-- bytes asked for, and change no others; the last two return 0.
pub copies-Copied :
    (m : Mem) (p q size : ℕ)
    → Apart p q size
    → Copied m (copy_data m p q (pos size)) p q size
      × Copied m (copy_from_user m p q (pos size)).1 p q size
      × Copied m (copy_to_user m p q (pos size)).1 p q size
      × ((copy_from_user m p q (pos size)).0 ≡ pos 0)
      × ((copy_to_user m p q (pos size)).0 ≡ pos 0)
unfolding copy_data copy_from_user copy_to_user
copies-Copied m p q size apart =
    let c = copy_words-Copied size m p q size apart in (c, c, c, refl, refl)
