-- ===== src/Malloc/Blocks.antt =====
-- The blocks that tile a part of the heap, and how a block is cut.
use so2_joan_erik.Common.{
  ℕ, ◌+◌, ◌-◌, ◌*◌, ◌<◌, ◌≤◌, ◌≡◌, refl, ◌⊎◌, inl, inr, Bool, true, false, ltb, List, [], ◌∷◌, ◌++◌,
  arith, if◌then◌else◌, sym, ◌∙◌, Bool-cases, subst,
}
use so2_joan_erik.Malloc.{Heap, malloc_header_size, next_block, write_header_footer, split_block}

-- A block by its size and its mark.
pub record Block : Type 0 where
  pub bytes : ℕ
  pub free : Bool

-- Header and footer at `a` tell of the block.
pub record IsBlock {K : Type 0} (h : Heap K) (a : ℕ) (b : Block) : Type 0 where
  pub header_size : h.size a ≡ b.bytes
  pub header_free : h.is_free a ≡ b.free
  pub footer_size : h.size (a + b.bytes - malloc_header_size) ≡ b.bytes
  pub footer_free : h.is_free (a + b.bytes - malloc_header_size) ≡ b.free
  pub large : 2 * malloc_header_size < b.bytes

-- The blocks `bs` lie one behind the other from `a` to `e`.
abbrev pub Tiles : {K : Type 0} → Heap K → ℕ → List Block → ℕ → Type 0
Tiles h a [] e = a ≡ e
Tiles h a (b ∷ bs) e = IsBlock h a b × Tiles h (a + b.bytes) bs e

abbrev pub SameBlock : {K : Type 0} → Heap K → Heap K → ℕ → Type 0
SameBlock h h' x = (h'.size x ≡ h.size x) × (h'.is_free x ≡ h.is_free x)

-- The block of `n` bytes at `a` as malloc cuts it.
abbrev pub cut : ℕ → ℕ → List Block
cut total n =
    if ltb (2 * malloc_header_size) (n - total)
    then record { bytes = total; free = false } ∷ record { bytes = n - total; free = true } ∷ []
    else record { bytes = n; free = false } ∷ []

module _ {K : Type 0} where
  pub Tiles-le : (h : Heap K) (a e : ℕ) (bs : List Block) → Tiles h a bs e → a ≤ e
  Tiles-le h a e [] t = omega (arith, t)
  Tiles-le h a e (b ∷ bs) t = omega (arith, Tiles-le h (a + b.bytes) e bs t.1)

  pub IsBlock-same :
      (h h' : Heap K) (a : ℕ) (b : Block)
      → IsBlock h a b
      → ((x : ℕ) → a ≤ x → x < a + b.bytes → SameBlock h h' x)
      → IsBlock h' a b
  IsBlock-same h h' a b i same =
      let first = same a (omega arith) (omega (arith, i.large)) in
      let last =
        same (a + b.bytes - malloc_header_size) (omega (arith, i.large)) (omega (arith, i.large)) in
      record {
        header_size = first.0 ∙ i.header_size;
        header_free = first.1 ∙ i.header_free;
        footer_size = last.0 ∙ i.footer_size;
        footer_free = last.1 ∙ i.footer_free;
        large = i.large;
      }

  pub Tiles-same :
      (h h' : Heap K) (a e : ℕ) (bs : List Block)
      → Tiles h a bs e
      → ((x : ℕ) → a ≤ x → x < e → SameBlock h h' x)
      → Tiles h' a bs e
  Tiles-same h h' a e [] t same = t
  Tiles-same h h' a e (b ∷ bs) t same =
      let le = Tiles-le h (a + b.bytes) e bs t.1 in
      (
        IsBlock-same h h' a b t.0 (λ x lo hi. same x lo (omega (arith, le, hi))),
        Tiles-same h h' (a + b.bytes) e bs t.1 λ x lo hi. same x (omega (arith, lo)) hi,
      )

  pub Tiles-append :
      (h : Heap K) (a c e : ℕ) (bs cs : List Block)
      → Tiles h a bs c
      → Tiles h c cs e
      → Tiles h a (bs ++ cs) e
  Tiles-append h a c e [] cs t u = subst (λ x. Tiles h x cs e) (sym t) u
  Tiles-append h a c e (b ∷ bs) cs t u = (t.0, Tiles-append h (a + b.bytes) c e bs cs t.1 u)

  pub write_header_footer-IsBlock :
      (h : Heap K) (a n : ℕ) (f : Bool)
      → 2 * malloc_header_size < n
      → IsBlock (write_header_footer h a n f) a (record { bytes = n; free = f })
  unfolding write_header_footer
  write_header_footer-IsBlock h a n f l = record {
    header_size = ground arith;
    header_free = ground arith;
    footer_size = ground arith;
    footer_free = ground arith;
    large = l;
  }

  pub write_header_footer_same :
      (h : Heap K) (a n : ℕ) (f : Bool) (x : ℕ)
      → 2 * malloc_header_size < n
      → (x < a) ⊎ (a + n ≤ x)
      → SameBlock h (write_header_footer h a n f) x
  unfolding write_header_footer
  write_header_footer_same h a n f x l off = (ground arith, ground arith)

  pub write_header_footer_start :
      (h : Heap K) (a n : ℕ) (f : Bool) → (write_header_footer h a n f).heap_start ≡ h.heap_start
  unfolding write_header_footer
  write_header_footer_start h a n f = refl

  pub write_header_footer_end :
      (h : Heap K) (a n : ℕ) (f : Bool) → (write_header_footer h a n f).heap_end ≡ h.heap_end
  unfolding write_header_footer
  write_header_footer_end h a n f = refl

  pub write_header_footer_system :
      (h : Heap K) (a n : ℕ) (f : Bool) → (write_header_footer h a n f).system ≡ h.system
  unfolding write_header_footer
  write_header_footer_system h a n f = refl

  pub split_block_start :
      (total a : ℕ) (h : Heap K) → (split_block total a h).heap_start ≡ h.heap_start
  unfolding split_block write_header_footer
  split_block_start total a h =
      elim (Bool-cases (ltb (2 * malloc_header_size) (h.size a - total))) [
        | inl e ↦ rw e refl
        | inr e ↦ rw e refl
      ]

  pub split_block_end : (total a : ℕ) (h : Heap K) → (split_block total a h).heap_end ≡ h.heap_end
  unfolding split_block write_header_footer
  split_block_end total a h = elim (Bool-cases (ltb (2 * malloc_header_size) (h.size a - total))) [
    | inl e ↦ rw e refl
    | inr e ↦ rw e refl
  ]

  pub split_block_system : (total a : ℕ) (h : Heap K) → (split_block total a h).system ≡ h.system
  unfolding split_block write_header_footer
  split_block_system total a h =
      elim (Bool-cases (ltb (2 * malloc_header_size) (h.size a - total))) [
        | inl e ↦ rw e refl
        | inr e ↦ rw e refl
      ]

  module _ (total a n : ℕ) (h : Heap K) (size : h.size a ≡ n) (fits : total ≤ n)
      (large : 2 * malloc_header_size < total) where
    pub split_block-Tiles : Tiles (split_block total a h) a (cut total n) (a + n)
    unfolding split_block next_block
    split_block-Tiles = elim (Bool-cases (ltb (2 * malloc_header_size) (n - total))) [
      | inl e ↦
          let one = write_header_footer-IsBlock h a total false large in
          let rem : 2 * malloc_header_size < n - total = ground (arith, e) in
          rw (size, e, one.header_size)
            (
              IsBlock-same _ _ a _ one (λ x lo hi.
                  write_header_footer_same _ (a + total) (n - total) true x rem (inl hi)),
              (write_header_footer-IsBlock _ (a + total) (n - total) true rem, omega (arith, fits)),
            )
      | inr e ↦
          rw (size, e) (write_header_footer-IsBlock h a n false (omega (arith, fits, large)), refl)
    ]

    pub split_block_same : (x : ℕ) → (x < a) ⊎ (a + n ≤ x) → SameBlock h (split_block total a h) x
    unfolding split_block next_block
    split_block_same x off = elim (Bool-cases (ltb (2 * malloc_header_size) (n - total))) [
      | inl e ↦
          let one = write_header_footer-IsBlock h a total false large in
          let rem : 2 * malloc_header_size < n - total = ground (arith, e) in
          let s1 = write_header_footer_same h a total false x large (omega (arith, off, fits)) in
          let s2 =
            write_header_footer_same (write_header_footer h a total false) (a + total) (n - total)
              true x rem (omega (arith, off, fits)) in
          rw (size, e, one.header_size) (s2.0 ∙ s1.0, s2.1 ∙ s1.1)
      | inr e ↦
          rw (size, e) (write_header_footer_same h a n false x (omega (arith, fits, large)) off)
    ]
