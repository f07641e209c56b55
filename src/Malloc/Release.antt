-- ===== src/Malloc/Release.antt =====
-- free on the list of blocks: a block joins the free blocks on both sides, and whole pages at the end go
-- back.
use so2_joan_erik.Common.{
  ℤ, ℕ, ◌+◌, ◌-◌, ◌*◌, ◌<◌, ◌≤◌, ◌≡◌, refl, true, false, ltb, List, [], ◌∷◌, ◌++◌, arith,
  if◌then◌else◌, sym, ◌∙◌, Bool-cases, subst, ap, inl, inr,
}
use so2_joan_erik.Malloc.{
  Heap, malloc_header_size, next_block, prev_block, write_header_footer, join_next, join_prev,
}
use so2_joan_erik.Malloc.Blocks.{
  Block, Tiles, Tiles-le, Tiles-same, SameBlock, write_header_footer-IsBlock,
  write_header_footer_same, IsBlock-same,
}

-- Two neighbours as one free block.
abbrev pub merged : Block → Block → Block
merged b c = record { bytes = b.bytes + c.bytes; free = true }

-- The specification: a free block, with the free block behind it if there is one.
abbrev pub with_next : Block → List Block → List Block
with_next b [] = b ∷ []
with_next b (c ∷ cs) = if c.free then merged b c ∷ cs else b ∷ c ∷ cs

-- The same as the block and the others.
abbrev pub join_behind : Block → List Block → Block × List Block
join_behind b [] = (b, [])
join_behind b (c ∷ cs) = if c.free then (merged b c, cs) else (b, c ∷ cs)

pub with_next-join_behind :
    (b : Block) (cs : List Block) → with_next b cs ≡ (join_behind b cs).0 ∷ (join_behind b cs).1
with_next-join_behind b [] = refl
with_next-join_behind b (c ∷ cs) = elim (Bool-cases c.free) [
  | inl e ↦ rw e refl
  | inr e ↦ rw e refl
]

-- And with the last of the blocks before it, if that is free.
abbrev pub with_prev : List Block → Block → List Block → List Block
with_prev [] b rest = b ∷ rest
with_prev (c ∷ []) b rest = if c.free then merged c b ∷ rest else c ∷ b ∷ rest
with_prev (c ∷ d ∷ ds) b rest = c ∷ with_prev (d ∷ ds) b rest

-- The bytes of all blocks.
abbrev pub total_bytes : List Block → ℕ
total_bytes [] = 0
total_bytes (b ∷ bs) = b.bytes + total_bytes bs

module _ {K : Type 0} where
  pub Tiles-cut :
      (h : Heap K) (a e : ℕ) (bs cs : List Block)
      → Tiles h a (bs ++ cs) e
      → Tiles h a bs (a + total_bytes bs) × Tiles h (a + total_bytes bs) cs e
  Tiles-cut h a e [] cs t =
      (omega arith, subst (λ x. Tiles h x cs e) {x = a} {y = a + 0} (omega arith) t)
  Tiles-cut h a e (b ∷ bs) cs t =
      let r = Tiles-cut h (a + b.bytes) e bs cs t.1 in
      let s : a + b.bytes + total_bytes bs ≡ a + (b.bytes + total_bytes bs) = omega arith in
      ((t.0, subst (Tiles h (a + b.bytes) bs) s r.0), subst (λ x. Tiles h x cs e) s r.1)

  -- One header and footer for two neighbours.
  merge-Tiles :
      (h : Heap K) (a e : ℕ) (b c : Block) (cs : List Block)
      → Tiles h a (b ∷ c ∷ cs) e
      → Tiles (write_header_footer h a (b.bytes + c.bytes) true) a (merged b c ∷ cs) e
  merge-Tiles h a e b c cs t =
      let large : 2 * malloc_header_size < b.bytes + c.bytes = omega (arith, t.0.large) in
      (
        write_header_footer-IsBlock h a (b.bytes + c.bytes) true large,
        subst (λ x. Tiles (write_header_footer h a (b.bytes + c.bytes) true) x cs e)
            {x = a + b.bytes + c.bytes} {y = a + (b.bytes + c.bytes)} (omega arith)
            (Tiles-same h _ (a + b.bytes + c.bytes) e cs t.1.1 λ x lo hi.
              write_header_footer_same h a (b.bytes + c.bytes) true x large
                (inr (omega (arith, lo)))),
      )

  -- A step on the block at `a` keeps what lies before it, and the rest of the heap's state.
  pub record Keeps (a : ℕ) (h h' : Heap K) : Type 0 where
    pub before : (x : ℕ) → x < a → SameBlock h h' x
    pub start : h'.heap_start ≡ h.heap_start
    pub end : h'.heap_end ≡ h.heap_end
    pub system : h'.system ≡ h.system

  pub write-Keeps :
      (h : Heap K) (a n : ℕ)
      → 2 * malloc_header_size < n
      → Keeps a h (write_header_footer h a n true)
  unfolding write_header_footer
  write-Keeps h a n large = record {
    before = λ x lo. write_header_footer_same h a n true x large (inl lo);
    start = refl;
    end = refl;
    system = refl;
  }

  pub Keeps-same : (a : ℕ) (h : Heap K) → Keeps a h h
  Keeps-same a h = record { before = λ x lo. (refl, refl); start = refl; end = refl; system = refl }

  module _ (dyn_mem : ℤ → K → ℕ × K) where
    -- The block behind.
    pub join_next-Tiles :
        (h : Heap K) (a : ℕ) (b : Block) (cs : List Block)
        → Tiles h a (b ∷ cs) h.heap_end
        → Tiles (join_next dyn_mem a h) a (with_next b cs) h.heap_end
          × Keeps a h (join_next dyn_mem a h)
    unfolding join_next next_block
    join_next-Tiles h a b [] t =
        let last : ltb (a + h.size a) h.heap_end ≡ false = ground (arith, t.0.header_size, t.1) in
        rw last (t, Keeps-same a h)
    join_next-Tiles h a b (c ∷ cs) t =
        let le = Tiles-le h (a + b.bytes + c.bytes) h.heap_end cs t.1.1 in
        let inner : ltb (a + b.bytes) h.heap_end ≡ true = ground (arith, le, t.1.0.large) in
        let large : 2 * malloc_header_size < b.bytes + c.bytes = omega (arith, t.0.large) in
        let one : Heap K = write_header_footer h a (b.bytes + c.bytes) true in
        let eq : join_next dyn_mem a h ≡ (if c.free then one else h) =
          rw (t.0.header_size, inner, t.1.0.header_free, t.1.0.header_size) refl in
        subst (λ h'. Tiles h' a (with_next b (c ∷ cs)) h.heap_end × Keeps a h h') (sym eq)
          (elim c.free
            as (λ f.
              Tiles (if f then one else h) a (if f then merged b c ∷ cs else b ∷ c ∷ cs) h.heap_end
              × Keeps a h (if f then one else h)) [
                | true ↦
                    (merge-Tiles h a h.heap_end b c cs t, write-Keeps h a (b.bytes + c.bytes) large)
                | false ↦ (t, Keeps-same a h)
              ])

    -- The block before, which is the last of `c ∷ bs`.
    pub join_prev-Tiles :
        (h : Heap K) (a : ℕ) (c : Block) (bs : List Block) (b : Block) (cs : List Block)
        → h.heap_start ≤ a
        → Tiles h a (c ∷ (bs ++ b ∷ cs)) h.heap_end
        → Tiles
            (join_prev dyn_mem (a + (c.bytes + total_bytes bs)) h)
            a
            (with_prev (c ∷ bs) b cs)
            h.heap_end
          × Keeps a h (join_prev dyn_mem (a + (c.bytes + total_bytes bs)) h)
    unfolding join_prev prev_block
    join_prev-Tiles h a c [] b cs lo t =
        let large : 2 * malloc_header_size < c.bytes + b.bytes = omega (arith, t.0.large) in
        let one : Heap K = write_header_footer h a (c.bytes + b.bytes) true in
        let inner : ltb h.heap_start (a + c.bytes) ≡ true = ground (arith, lo, t.0.large) in
        let back : a + c.bytes - c.bytes ≡ a = omega arith in
        let sum : b.bytes + c.bytes ≡ c.bytes + b.bytes = omega arith in
        let eq : join_prev dyn_mem (a + c.bytes) h ≡ (if c.free then one else h) =
          rw
            (t.0.footer_size, inner, back, t.0.header_free, t.0.header_size, t.1.0.header_size, sum)
            refl in
        let here : join_prev dyn_mem (a + (c.bytes + 0)) h ≡ (if c.free then one else h) =
          ap (λ x. join_prev dyn_mem x h) {x = a + (c.bytes + 0)} {y = a + c.bytes} (omega arith)
          ∙ eq in
        subst (λ h'. Tiles h' a (with_prev (c ∷ []) b cs) h.heap_end × Keeps a h h') (sym here)
          (elim c.free
            as (λ f.
              Tiles (if f then one else h) a (if f then merged c b ∷ cs else c ∷ b ∷ cs) h.heap_end
              × Keeps a h (if f then one else h)) [
                | true ↦
                    (merge-Tiles h a h.heap_end c b cs t, write-Keeps h a (c.bytes + b.bytes) large)
                | false ↦ (t, Keeps-same a h)
              ])
    join_prev-Tiles h a c (d ∷ ds) b cs lo t =
        let r = join_prev-Tiles h (a + c.bytes) d ds b cs (omega (arith, lo)) t.1 in
        let h' : Heap K = join_prev dyn_mem (a + c.bytes + (d.bytes + total_bytes ds)) h in
        let same : a + c.bytes + (d.bytes + total_bytes ds)
            ≡ a + (c.bytes + (d.bytes + total_bytes ds)) =
          omega arith in
        subst
          (λ x.
            Tiles (join_prev dyn_mem x h) a (c ∷ with_prev (d ∷ ds) b cs) h.heap_end
            × Keeps a h (join_prev dyn_mem x h))
          same
          (
            (IsBlock-same h h' a c t.0 (λ x lo hi. r.1.before x hi), r.0),
            record {
              before = λ x l. r.1.before x (omega (arith, l));
              start = r.1.start;
              end = r.1.end;
              system = r.1.system;
            },
          )
