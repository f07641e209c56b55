-- ===== src/Malloc/Walk.antt =====
-- The walk of malloc finds the first free block that is large enough: first fit, on the list of blocks.
use so2_joan_erik.Common.{
  ℕ, zero, suc, ◌+◌, ◌*◌, ◌<◌, ◌≤◌, ◌≡◌, refl, inl, inr, true, false, ◌&&◌, ltb, leb, List, [], ◌∷◌,
  ◌++◌, length, arith, if◌then◌else◌, Bool-cases, subst, Option, none, some,
}
use so2_joan_erik.Malloc.{
  Heap, Search, found, at_end, malloc_header_size, next_block, find_block, split_block,
}
use so2_joan_erik.Malloc.Blocks.{
  Block, IsBlock, IsBlock-same, Tiles, Tiles-le, Tiles-append, SameBlock, Tiles-same, cut,
  split_block-Tiles, split_block_same,
}

abbrev pub behind : Block → Option (ℕ × List Block) → Option (ℕ × List Block)
behind b none = none
behind b (some (o, bs)) = some (b.bytes + o, b ∷ bs)

-- The specification: where the first free block of at least `total` bytes lies, and the blocks when it
-- is given.
abbrev pub first_fit : ℕ → List Block → Option (ℕ × List Block)
first_fit total [] = none
first_fit total (b ∷ bs) =
    if b.free && leb total b.bytes
    then some (0, cut total b.bytes ++ bs)
    else behind b (first_fit total bs)

-- The walk stops as first fit says, from the blocks at `a`.
abbrev pub Found : {K : Type 0} → Heap K → ℕ → ℕ → ℕ → Option (ℕ × List Block) → Search → Type 0
Found h total a e none r = r ≡ at_end
Found h total a e (some (o, bs)) r =
    (r ≡ found (a + o))
    × Tiles (split_block total (a + o) h) a bs e
    × ((x : ℕ) → x < a → SameBlock h (split_block total (a + o) h) x)

module _ {K : Type 0} (total : ℕ) (large : 2 * malloc_header_size < total) where
  Found-behind :
      (h : Heap K) (a e : ℕ) (b : Block) (o : Option (ℕ × List Block)) (r : Search)
      → IsBlock h a b
      → Found h total (a + b.bytes) e o r
      → Found h total a e (behind b o) r
  Found-behind h a e b none r i f = f
  Found-behind h a e b (some (o, bs)) r i f =
      let same : a + b.bytes + o ≡ a + (b.bytes + o) = omega arith in
      subst
        (λ c.
          (r ≡ found c)
          × (IsBlock (split_block total c h) a b × Tiles (split_block total c h) (a + b.bytes) bs e)
          × ((x : ℕ) → x < a → SameBlock h (split_block total c h) x))
        same
        (
          f.0,
          (IsBlock-same h _ a b i (λ x lo hi. f.2 x hi), f.1),
          λ x lo. f.2 x (omega (arith, lo, i.large)),
        )

  found_here :
      (h : Heap K) (a e : ℕ) (b : Block) (bs : List Block)
      → IsBlock h a b
      → total ≤ b.bytes
      → Tiles h (a + b.bytes) bs e
      → Found h total a e (some (0, cut total b.bytes ++ bs)) (found a)
  found_here h a e b bs i fits t =
      let same : a ≡ a + 0 = omega arith in
      subst
        (λ c.
          (found a ≡ found c)
          × Tiles (split_block total c h) a (cut total b.bytes ++ bs) e
          × ((x : ℕ) → x < a → SameBlock h (split_block total c h) x))
        same
        (
          refl,
          Tiles-append _ a (a + b.bytes) e (cut total b.bytes) bs
              (split_block-Tiles total a b.bytes h i.header_size fits large)
              (Tiles-same h _ (a + b.bytes) e bs t
                λ x lo hi. split_block_same total a b.bytes h i.header_size fits large x (inr lo)),
          λ x lo. split_block_same total a b.bytes h i.header_size fits large x (inl lo),
        )

  -- With as much fuel as there are blocks and one more, the walk does as first fit.
  pub find_block-Found :
      (fuel : ℕ) (h : Heap K) (a : ℕ) (bs : List Block)
      → Tiles h a bs h.heap_end
      → length bs < fuel
      → Found h total a h.heap_end (first_fit total bs) (find_block fuel total a h)
  unfolding find_block next_block
  find_block-Found zero h a bs t enough = absurd (omega (arith, enough))
  find_block-Found (suc fuel) h a [] t enough =
      let out : ltb a h.heap_end ≡ false = ground (arith, t) in rw out refl
  find_block-Found (suc fuel) h a (b ∷ bs) t enough =
      let i = t.0 in
      let le = Tiles-le h (a + b.bytes) h.heap_end bs t.1 in
      let inside : ltb a h.heap_end ≡ true = ground (arith, le, i.large) in
      let rest = find_block-Found fuel h (a + b.bytes) bs t.1 (omega (arith, enough)) in
      elim (Bool-cases (b.free && leb total b.bytes)) [
        | inl e ↦
            rw (inside, i.header_free, i.header_size, e)
              (found_here h a h.heap_end b bs i (ground (arith, e)) t.1)
        | inr e ↦
            rw (inside, i.header_free, i.header_size, e)
              (Found-behind h a h.heap_end b (first_fit total bs)
                (find_block fuel total (a + b.bytes) h) i rest)
      ]
