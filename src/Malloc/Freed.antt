-- ===== src/Malloc/Freed.antt =====
-- free gives a block back: the blocks tile the heap again, and the others in use still are.
use so2_joan_erik.Common.{
  ℤ, ℕ, ◌+◌, ◌-◌, ◌*◌, ◌/◌, ◌%◌, ◌<◌, ◌≤◌, ◌≡◌, ◌≢◌, refl, true, false, ◌&&◌, ◌||◌, ltb, leb, ◌==◌,
  List, [], ◌∷◌, ◌++◌, arith, if◌then◌else◌, sym, ◌∙◌, Bool-cases, subst, ap, inl, inr, pos, negsuc,
}
use so2_joan_erik.Malloc.{
  Heap, malloc_header_size, page_size, prev_block, write_header_footer, join_next, join_prev,
  shrink_heap, free,
}
use so2_joan_erik.Malloc.Blocks.{
  Block, IsBlock, IsBlock-same, Tiles, Tiles-le, Tiles-same, Tiles-append, SameBlock,
  write_header_footer-IsBlock, write_header_footer_same,
}
use so2_joan_erik.Malloc.Release.{
  join_behind, with_next-join_behind, with_prev, total_bytes, Tiles-cut, Keeps, Keeps-same,
  write-Keeps, join_next-Tiles, join_prev-Tiles,
}

-- The last block goes if it is free and has a page at least.
abbrev pub trimmed : List Block → List Block
trimmed [] = []
trimmed (b ∷ []) = if b.free && leb page_size b.bytes then [] else b ∷ []
trimmed (b ∷ c ∷ cs) = b ∷ trimmed (c ∷ cs)

-- If the last block is free and has a page at least, it is whole pages.
abbrev pub WholePages : List Block → Type 0
WholePages [] = Unit {0}
WholePages (b ∷ []) = b.free ≡ true → page_size ≤ b.bytes → b.bytes % page_size ≡ 0
WholePages (b ∷ c ∷ cs) = WholePages (c ∷ cs)

abbrev pub freed : Block → Block
freed b = record { bytes = b.bytes; free = true }

-- What the call of dyn_mem for the last block leaves of the rest of the system, if it goes: its whole
-- pages are given back (the argument is their number, negated).
abbrev pub given_back : {K : Type 0} → (ℤ → K → ℕ × K) → List Block → K → K
given_back dyn_mem [] s = s
given_back dyn_mem (b ∷ []) s =
    if b.free && leb page_size b.bytes then (dyn_mem (negsuc (b.bytes / page_size - 1)) s).1 else s
given_back dyn_mem (b ∷ c ∷ cs) s = given_back dyn_mem (c ∷ cs) s

-- The blocks when `b` has been freed, before pages go back.
abbrev pub joined : List Block → Block → List Block → List Block
joined bs b cs = let r = join_behind (freed b) cs in with_prev bs r.0 r.1

module _ {K : Type 0} (dyn_mem : ℤ → K → ℕ × K) where
  record Shrinks (a : ℕ) (bs : List Block) (s : K) (h h' : Heap K) : Type 0 where
    tiles : Tiles h' a bs h'.heap_end
    system : h'.system ≡ s
    before : (x : ℕ) → x < a → SameBlock h h' x
    start : h'.heap_start ≡ h.heap_start

  shrink_heap-Shrinks :
      (h : Heap K) (a : ℕ) (b : Block) (bs : List Block)
      → Tiles h a (b ∷ bs) h.heap_end
      → WholePages (b ∷ bs)
      → Shrinks a
          (trimmed (b ∷ bs))
          (given_back dyn_mem (b ∷ bs) h.system)
          h
          (shrink_heap dyn_mem h)
  unfolding shrink_heap prev_block
  shrink_heap-Shrinks h a b [] t whole =
      let footer : h.size (h.heap_end - malloc_header_size) ≡ b.bytes =
        ap (λ x. h.size (x - malloc_header_size)) (sym t.1) ∙ t.0.footer_size in
      let last : h.heap_end - b.bytes ≡ a = omega (arith, t.1) in
      let span : h.heap_end - a ≡ b.bytes = omega (arith, t.1) in
      let pages : ℕ = b.bytes / page_size in
      let shrunk : Heap K = record h {
        heap_end = h.heap_end - pages * page_size;
        size = λ x. if x == a then b.bytes - pages * page_size else h.size x;
        system = (dyn_mem (negsuc (pages - 1)) h.system).1;
      } in
      let test : (b.free && (ltb 0 pages && (a + b.bytes == h.heap_end)))
          ≡ (b.free && leb page_size b.bytes) =
        ground (arith, t.1) in
      let eq : shrink_heap dyn_mem h ≡ (if b.free && leb page_size b.bytes then shrunk else h) =
        rw (footer, last, span, t.0.header_free, t.0.header_size, test) refl in
      subst (Shrinks a (trimmed (b ∷ [])) (given_back dyn_mem (b ∷ []) h.system) h) (sym eq)
        (elim (Bool-cases (b.free && leb page_size b.bytes)) [
          | inl e ↦
              let rest : b.bytes % page_size ≡ 0 = whole (ground (arith, e)) (ground (arith, e)) in
              rw e (record {
                tiles = omega (arith, t.1, rest);
                system = refl;
                before = λ x lo. (ground (arith, lo), refl);
                start = refl;
              })
          | inr e ↦
              rw e
                (record { tiles = t; system = refl; before = λ x lo. (refl, refl); start = refl })
        ])
  shrink_heap-Shrinks h a b (c ∷ cs) t whole =
      let r = shrink_heap-Shrinks h (a + b.bytes) c cs t.1 whole in
      record {
        tiles = (IsBlock-same h _ a b t.0 (λ x lo hi. r.before x hi), r.tiles);
        system = r.system;
        before = λ x lo. r.before x (omega (arith, lo));
        start = r.start;
      }

  with_prev-ne : (bs : List Block) (b : Block) (cs : List Block) → with_prev bs b cs ≢ []
  with_prev-ne [] b cs e = ground (arith, e)
  with_prev-ne (c ∷ []) b cs e = ground (arith, e)
  with_prev-ne (c ∷ d ∷ ds) b cs e = ground (arith, e)

  shrink_any :
      (h : Heap K) (a : ℕ) (bs : List Block)
      → bs ≢ []
      → Tiles h a bs h.heap_end
      → WholePages bs
      → Shrinks a (trimmed bs) (given_back dyn_mem bs h.system) h (shrink_heap dyn_mem h)
  shrink_any h a [] ne t whole = absurd (ne refl)
  shrink_any h a (b ∷ bs) ne t whole = shrink_heap-Shrinks h a b bs t whole

  -- The three joins of free on the block `b`, behind `bs`.
  module _ (h : Heap K) (bs : List Block) (b : Block) (cs : List Block)
      (t : Tiles h h.heap_start (bs ++ b ∷ cs) h.heap_end) where
    at : ℕ
    at = h.heap_start + total_bytes bs

    marked : Heap K
    marked = write_header_footer h at b.bytes true

    large : 2 * malloc_header_size < b.bytes
    large = (Tiles-cut h h.heap_start h.heap_end bs (b ∷ cs) t).1.0.large

    marked-Keeps : Keeps at h marked
    unfolding marked
    marked-Keeps = write-Keeps h at b.bytes large

    marked-Tiles : Tiles marked at (freed b ∷ cs) marked.heap_end
    unfolding marked at
    marked-Tiles =
        let here = (Tiles-cut h h.heap_start h.heap_end bs (b ∷ cs) t).1 in
        subst (Tiles marked at (freed b ∷ cs)) (sym marked-Keeps.end) (
          write_header_footer-IsBlock h at b.bytes true large,
          Tiles-same h marked (at + b.bytes) h.heap_end cs here.1
              λ x lo hi. write_header_footer_same h at b.bytes true x large (inr lo),
        )

    behind : Heap K
    behind = join_next dyn_mem at marked

    behind-Keeps : Keeps at marked behind
    unfolding behind
    behind-Keeps = (join_next-Tiles dyn_mem marked at (freed b) cs marked-Tiles).1

    abbrev tail : Block × List Block
    tail = join_behind (freed b) cs

    behind-Tiles : Tiles behind behind.heap_start (bs ++ tail.0 ∷ tail.1) behind.heap_end
    unfolding behind at
    behind-Tiles =
        let start : behind.heap_start ≡ h.heap_start = behind-Keeps.start ∙ marked-Keeps.start in
        let front : Tiles behind h.heap_start bs at =
          Tiles-same h behind h.heap_start at bs
            (Tiles-cut h h.heap_start h.heap_end bs (b ∷ cs) t).0
            λ x lo hi.
              let p = marked-Keeps.before x hi in
              let q = behind-Keeps.before x hi in (q.0 ∙ p.0, q.1 ∙ p.1) in
        let back : Tiles behind at (tail.0 ∷ tail.1) behind.heap_end =
          subst (Tiles behind at (tail.0 ∷ tail.1)) (sym behind-Keeps.end) (
            subst (λ l. Tiles behind at l marked.heap_end) (with_next-join_behind (freed b) cs)
              (join_next-Tiles dyn_mem marked at (freed b) cs marked-Tiles).0) in
        subst (λ x. Tiles behind x (bs ++ tail.0 ∷ tail.1) behind.heap_end) (sym start)
          (Tiles-append behind h.heap_start at behind.heap_end bs (tail.0 ∷ tail.1) front back)

    joined_all : Heap K
    joined_all = join_prev dyn_mem at behind

    before-Tiles :
        (ds : List Block)
        → Tiles behind behind.heap_start (ds ++ tail.0 ∷ tail.1) behind.heap_end
        → let h' = join_prev dyn_mem (behind.heap_start + total_bytes ds) behind in
          Tiles h' behind.heap_start (with_prev ds tail.0 tail.1) behind.heap_end
          × Keeps behind.heap_start behind h'
    unfolding join_prev
    before-Tiles [] u =
        let first : ltb behind.heap_start (behind.heap_start + 0) ≡ false = ground arith in
        let eq : join_prev dyn_mem (behind.heap_start + 0) behind ≡ behind = rw first refl in
        subst
          (λ h'.
            Tiles h' behind.heap_start (tail.0 ∷ tail.1) behind.heap_end
            × Keeps behind.heap_start behind h')
          (sym eq) (u, Keeps-same behind.heap_start behind)
    before-Tiles (d ∷ ds) u =
        join_prev-Tiles dyn_mem behind behind.heap_start d ds tail.0 tail.1 (omega arith) u

    joined_all-Tiles :
        Tiles joined_all joined_all.heap_start (joined bs b cs) joined_all.heap_end
        × (joined_all.heap_start ≡ h.heap_start)
        × (joined_all.system ≡ h.system)
    unfolding joined_all at
    joined_all-Tiles =
        let start : behind.heap_start ≡ h.heap_start = behind-Keeps.start ∙ marked-Keeps.start in
        let place : behind.heap_start + total_bytes bs ≡ at = ap (λ x. x + total_bytes bs) start in
        let r =
          subst
            (λ x.
              Tiles (join_prev dyn_mem x behind) behind.heap_start (joined bs b cs) behind.heap_end
              × Keeps behind.heap_start behind (join_prev dyn_mem x behind))
            place (before-Tiles bs behind-Tiles) in
        (
          subst (λ x. Tiles joined_all x (joined bs b cs) joined_all.heap_end) (sym r.1.start)
              (subst (Tiles joined_all behind.heap_start (joined bs b cs)) (sym r.1.end) r.0),
          r.1.start ∙ start,
          r.1.system ∙ behind-Keeps.system ∙ marked-Keeps.system,
        )

    at_inside :
        (ltb (at + malloc_header_size) (h.heap_start + malloc_header_size)
          || leb h.heap_end (at + malloc_header_size))
        ≡ false
    unfolding at
    at_inside =
        let c = (Tiles-cut h h.heap_start h.heap_end bs (b ∷ cs) t).1 in
        ground (arith, Tiles-le h (at + b.bytes) h.heap_end cs c.1, large)

    free-eq :
        h.heap_start ≢ 0
        → b.free ≡ false
        → free dyn_mem (at + malloc_header_size) h ≡ (pos 0, shrink_heap dyn_mem joined_all)
    unfolding free joined_all behind marked at
    free-eq opened used =
        let here : IsBlock h at b = (Tiles-cut h h.heap_start h.heap_end bs (b ∷ cs) t).1.0 in
        let le =
          Tiles-le h (at + b.bytes) h.heap_end cs
            (Tiles-cut h h.heap_start h.heap_end bs (b ∷ cs) t).1.1 in
        let block : at + malloc_header_size - malloc_header_size ≡ at = omega arith in
        let c1 : ((at + malloc_header_size == 0) || (h.heap_start == 0)) ≡ false =
          ground (arith, opened) in
        let c2 : (ltb (at + malloc_header_size) (h.heap_start + malloc_header_size)
              || leb h.heap_end (at + malloc_header_size))
            ≡ false =
          at_inside in
        rw (block, c1, c2, here.header_free, used, here.header_size) refl

    -- free of that block: it returns 0, the heap begins where it did, the blocks tile it, and dyn_mem
    -- has been called for the pages that go.
    pub free-Tiles :
        h.heap_start ≢ 0
        → b.free ≡ false
        → WholePages (joined bs b cs)
        → let r = free dyn_mem (h.heap_start + total_bytes bs + malloc_header_size) h in
          (r.0 ≡ pos 0)
          × (r.1.heap_start ≡ h.heap_start)
          × Tiles r.1 r.1.heap_start (trimmed (joined bs b cs)) r.1.heap_end
          × (r.1.system ≡ given_back dyn_mem (joined bs b cs) h.system)
    unfolding at
    free-Tiles opened used whole =
        let s =
          shrink_any joined_all joined_all.heap_start (joined bs b cs)
            (with_prev-ne bs tail.0 tail.1) joined_all-Tiles.0 whole in
        let h' : Heap K = shrink_heap dyn_mem joined_all in
        subst
          (λ r.
            (r.0 ≡ pos 0)
            × (r.1.heap_start ≡ h.heap_start)
            × Tiles r.1 r.1.heap_start (trimmed (joined bs b cs)) r.1.heap_end
            × (r.1.system ≡ given_back dyn_mem (joined bs b cs) h.system))
          (sym (free-eq opened used))
          (
            refl,
            s.start ∙ joined_all-Tiles.1,
            subst (λ x. Tiles h' x (trimmed (joined bs b cs)) h'.heap_end) (sym s.start) s.tiles,
            s.system ∙ ap (given_back dyn_mem (joined bs b cs)) joined_all-Tiles.2,
          )
