-- ===== src/Malloc/FirstFit.antt =====
-- malloc as a whole, on a heap that blocks tile.
use so2_joan_erik.Common.{
  ℕ, ◌+◌, ◌-◌, ◌*◌, ◌/◌, ◌<◌, ◌≤◌, ◌≡◌, ◌≢◌, refl, inl, Bool, false, ◌&&◌, not, leb, ◌==◌, ne→==,
  List, [], ◌∷◌, ◌++◌, length, arith, if◌then◌else◌, subst, sym, ap, Option, none, some, ℤ, pos,
  leb_ℤ,
}
use so2_joan_erik.Malloc.{
  Heap, Search, malloc_header_size, page_size, write_header_footer, split_block, open_heap,
  grow_heap, give_block, malloc,
}
use so2_joan_erik.Malloc.Blocks.{
  Block, Tiles, Tiles-le, Tiles-same, Tiles-append, write_header_footer-IsBlock,
  write_header_footer_same, write_header_footer_start, write_header_footer_end,
  write_header_footer_system, split_block_start, split_block_end, split_block_system,
}
use so2_joan_erik.Malloc.Walk.{first_fit, Found, find_block-Found}

-- Whether a block in use of at least `n` bytes lies at the offset `o`.
abbrev pub used_at : ℕ → ℕ → List Block → Bool
used_at o n [] = false
used_at o n (b ∷ bs) =
    if o == 0 then not b.free && leb n b.bytes else leb b.bytes o && used_at (o - b.bytes) n bs

-- The specification of malloc: first fit, or a block of whole pages at the end.
abbrev pub pages_for : ℕ → Block
pages_for total = record { bytes = (total + page_size - 1) / page_size * page_size; free = false }

abbrev pub or_grow : ℕ → ℕ → List Block → Option (ℕ × List Block) → ℕ × List Block
or_grow total len bs none = (len, bs ++ pages_for total ∷ [])
or_grow total len bs (some r) = r

abbrev pub allocated : ℕ → ℕ → List Block → ℕ × List Block
allocated total len bs = or_grow total len bs (first_fit total bs)

-- The pages that malloc asks for if no block fits, and what this call leaves of the rest of the system.
abbrev pub pages_asked : ℕ → ℕ
pages_asked total = (total + page_size - 1) / page_size

abbrev pub system_after : {K : Type 0} → (ℤ → K → ℕ × K) → ℕ → K → Option (ℕ × List Block) → K
system_after dyn_mem total s none = (dyn_mem (pos (pages_asked total)) s).1
system_after dyn_mem total s (some r) = s

-- The pointer is behind the header of the block at the offset `o`, the blocks `bs` tile the heap, and
-- the rest of the system is `s`.
pub record Given {K : Type 0} (h : Heap K) (o : ℕ) (bs : List Block) (s : K)
    (r : Option (ℕ × Heap K)) : Type 0 where
  pub heap : Heap K
  pub result : r ≡ some (h.heap_start + o + malloc_header_size, heap)
  pub start : heap.heap_start ≡ h.heap_start
  pub tiles : Tiles heap h.heap_start bs heap.heap_end
  pub system : heap.system ≡ s

pub Tiles-length :
    {K : Type 0} (h : Heap K) (a e : ℕ) (bs : List Block) → Tiles h a bs e → a + length bs ≤ e
Tiles-length h a e [] t = omega (arith, t)
Tiles-length h a e (b ∷ bs) t = omega (arith, Tiles-length h (a + b.bytes) e bs t.1, t.0.large)

module _ {K : Type 0} (dyn_mem : ℤ → K → ℕ × K) (h : Heap K) (bs : List Block)
    (t : Tiles h h.heap_start bs h.heap_end) (total : ℕ)
    (large : 2 * malloc_header_size < total) where
  grow_heap-Given :
      (dyn_mem (pos (pages_asked total)) h.system).0 ≡ h.heap_end
      → Given h
          (h.heap_end - h.heap_start)
          (bs ++ pages_for total ∷ [])
          (system_after dyn_mem total h.system none)
          (some (grow_heap dyn_mem total h))
  unfolding grow_heap
  grow_heap-Given grows = rw grows (record {
    heap = write_header_footer grown h.heap_end (pages_for total).bytes false;
    result =
        ap
          (λ p. some (
            p + malloc_header_size,
            write_header_footer grown h.heap_end (pages_for total).bytes false,
          ))
          (omega (arith, Tiles-le h h.heap_start h.heap_end bs t));
    start = write_header_footer_start grown h.heap_end (pages_for total).bytes false;
    tiles =
        subst (Tiles _ h.heap_start (bs ++ pages_for total ∷ []))
          (sym (write_header_footer_end grown h.heap_end (pages_for total).bytes false))
          (Tiles-append _ h.heap_start h.heap_end (h.heap_end + (pages_for total).bytes) bs
            (pages_for total ∷ [])
            (Tiles-same h _ h.heap_start h.heap_end bs t λ x lo hi.
              write_header_footer_same grown h.heap_end (pages_for total).bytes false x room
                (inl hi))
            (
              write_header_footer-IsBlock grown h.heap_end (pages_for total).bytes false room,
              refl,
            ));
    system = write_header_footer_system grown h.heap_end (pages_for total).bytes false;
  })
    where
      room : 2 * malloc_header_size < (pages_for total).bytes
      room = omega (arith, large)

      grown : Heap K
      grown = record h {
        heap_end = h.heap_end + (pages_for total).bytes;
        system = (dyn_mem (pos (pages_asked total)) h.system).1;
      }

  give_block-Given :
      (o : Option (ℕ × List Block)) (r : Search)
      → (o ≡ none → (dyn_mem (pos (pages_asked total)) h.system).0 ≡ h.heap_end)
      → Found h total h.heap_start h.heap_end o r
      → Given h
          (or_grow total (h.heap_end - h.heap_start) bs o).0
          (or_grow total (h.heap_end - h.heap_start) bs o).1
          (system_after dyn_mem total h.system o)
          (give_block dyn_mem total r h)
  give_block-Given none r grows f = rw f (grow_heap-Given (grows refl))
  give_block-Given (some (o, cs)) r grows f = rw f.0 (record {
    heap = split_block total (h.heap_start + o) h;
    result = refl;
    start = split_block_start total (h.heap_start + o) h;
    tiles = subst (Tiles _ h.heap_start cs) (sym (split_block_end total (h.heap_start + o) h)) f.1;
    system = split_block_system total (h.heap_start + o) h;
  })

-- The pointer and the blocks are those of the specification.
pub malloc-Given :
    {K : Type 0} (dyn_mem : ℤ → K → ℕ × K) (h : Heap K) (bs : List Block) (fuel n : ℕ)
    → h.heap_start ≢ 0
    → Tiles h h.heap_start bs h.heap_end
    → h.heap_end - h.heap_start < fuel
    → 0 < n
    → let total = n + 2 * malloc_header_size in
      (first_fit total bs ≡ none → (dyn_mem (pos (pages_asked total)) h.system).0 ≡ h.heap_end)
      → let a = allocated total (h.heap_end - h.heap_start) bs in
        Given h a.0 a.1
          (system_after dyn_mem total h.system (first_fit total bs))
          (malloc dyn_mem fuel (pos n) h)
unfolding malloc open_heap
malloc-Given dyn_mem h bs fuel n opened t enough positive grows =
    let total = n + 2 * malloc_header_size in
    let large : 2 * malloc_header_size < total = omega (arith, positive) in
    let bytes : leb_ℤ (pos n) (pos 0) ≡ false = ground (arith, positive) in
    rw (ne→== opened, bytes)
      (give_block-Given dyn_mem h bs t total large (first_fit total bs) _ grows (
        find_block-Found total large fuel h h.heap_start bs t
          (omega (arith, enough, Tiles-length h h.heap_start h.heap_end bs t))))
