-- ===== src/Malloc/Used.antt =====
-- The blocks in use stay in use, and none of them is given again.
use so2_joan_erik.Common.{
  ℕ, ◌+◌, ◌-◌, ◌*◌, ◌<◌, ◌≤◌, ◌≡◌, refl, inl, inr, true, false, ◌&&◌, ltb, leb, List, [], ◌∷◌, ◌++◌,
  arith, Bool-cases, subst, ◌≢◌, ℤ, pos, Option, none, some,
}
use so2_joan_erik.Malloc.{Heap, malloc_header_size, malloc}
use so2_joan_erik.Malloc.Blocks.{Block, Tiles, Tiles-le, cut}
use so2_joan_erik.Malloc.Walk.{behind, first_fit}
use so2_joan_erik.Malloc.FirstFit.{
  Given, malloc-Given, used_at, pages_asked, system_after, pages_for, or_grow, allocated,
}

-- The block at `o` in `cs` is in use and has `total` bytes; it was not in use in `bs`; what was still is.
pub record Room (total : ℕ) (bs : List Block) (o : ℕ) (cs : List Block) : Type 0 where
  pub given : used_at o total cs ≡ true
  pub fresh : used_at o 0 bs ≡ false
  pub kept : (p n : ℕ) → used_at p n bs ≡ true → used_at p n cs ≡ true

abbrev AnyRoom : ℕ → List Block → Option (ℕ × List Block) → Type 0
AnyRoom total bs none = Unit {0}
AnyRoom total bs (some (o, cs)) = Room total bs o cs

module _ (total : ℕ) (large : 0 < total) where
  cut-Room :
      (b : Block) (bs : List Block)
      → b.free ≡ true
      → total ≤ b.bytes
      → Room total (b ∷ bs) 0 (cut total b.bytes ++ bs)
  cut-Room b bs f fits = elim (Bool-cases (ltb (2 * malloc_header_size) (b.bytes - total))) [
    | inl e ↦ rw e (record {
      given = ground (arith, fits, large);
      fresh = ground (arith, f);
      kept = λ p n h.
          (let same : p - total - (b.bytes - total) ≡ p - b.bytes = omega (arith, fits) in
            rw same (ground (arith, h, f, fits, large, e)));
    })
    | inr e ↦ rw e (record {
      given = ground (arith, fits, large);
      fresh = ground (arith, f);
      kept = λ p n h. ground (arith, h, f);
    })
  ]

  behind-Room :
      (b : Block) (bs : List Block) (r : Option (ℕ × List Block))
      → 0 < b.bytes
      → AnyRoom total bs r
      → AnyRoom total (b ∷ bs) (behind b r)
  behind-Room b bs none lo r = tt
  behind-Room b bs (some (o, cs)) lo r = record {
    given = let e : b.bytes + o - b.bytes ≡ o = omega arith in rw e (ground (arith, lo, r.given));
    fresh = let e : b.bytes + o - b.bytes ≡ o = omega arith in rw e (ground (arith, lo, r.fresh));
    kept = λ p n h. ground (arith, h, r.kept (p - b.bytes) n);
  }

  first_fit-AnyRoom :
      {K : Type 0} (h : Heap K) (a e : ℕ) (bs : List Block)
      → Tiles h a bs e
      → AnyRoom total bs (first_fit total bs)
  first_fit-AnyRoom h a e [] t = tt
  first_fit-AnyRoom h a e (b ∷ bs) t =
      let rest =
        behind-Room b bs (first_fit total bs) (omega (arith, t.0.large))
          (first_fit-AnyRoom h (a + b.bytes) e bs t.1) in
      elim (Bool-cases (b.free && leb total b.bytes)) [
        | inl x ↦ rw x (cut-Room b bs (ground (arith, x)) (ground (arith, x)))
        | inr x ↦ rw x rest
      ]

  -- A block of whole pages at the end.
  grown-Room :
      {K : Type 0} (h : Heap K) (a e : ℕ) (bs : List Block)
      → Tiles h a bs e
      → Room total bs (e - a) (bs ++ pages_for total ∷ [])
  grown-Room h a e [] t =
      let z : e - a ≡ 0 = omega (arith, t) in
      rw z
        (record { given = ground (arith, large); fresh = refl; kept = λ p n x. ground (arith, x) })
  grown-Room h a e (b ∷ bs) t =
      let le = Tiles-le h (a + b.bytes) e bs t.1 in
      let o : b.bytes + (e - (a + b.bytes)) ≡ e - a = omega (arith, le) in
      subst (λ x. Room total (b ∷ bs) x (b ∷ (bs ++ pages_for total ∷ []))) o
        (behind-Room b bs (some (e - (a + b.bytes), bs ++ pages_for total ∷ []))
          (omega (arith, t.0.large)) (grown-Room h (a + b.bytes) e bs t.1))

  allocated-Room :
      {K : Type 0} (h : Heap K) (a e : ℕ) (bs : List Block)
      → Tiles h a bs e
      → Room total bs (allocated total (e - a) bs).0 (allocated total (e - a) bs).1
  allocated-Room h a e bs t = go (first_fit total bs) (first_fit-AnyRoom h a e bs t)
    where
      go :
          (r : Option (ℕ × List Block))
          → AnyRoom total bs r
          → Room total bs (or_grow total (e - a) bs r).0 (or_grow total (e - a) bs r).1
      go none x = grown-Room h a e bs t
      go (some (o, cs)) x = x

-- On a heap that has been opened and that the blocks `bs` tile, malloc of a positive number of bytes
-- comes to an end within as many rounds as the heap has bytes, and one more, provided that, if no block
-- is free and large enough, dyn_mem of the pages that malloc then asks for gives them at the end of the
-- heap. It gives the block that first fit chooses and does not call dyn_mem; or, if there is none, it
-- gives the pages of that one call. Blocks tile the heap again; the block given has room for the bytes
-- and both headers, it was not in use, and every block that was in use still is.
pub malloc-Room :
    {K : Type 0} (dyn_mem : ℤ → K → ℕ × K) (h : Heap K) (bs : List Block) (fuel n : ℕ)
    → h.heap_start ≢ 0
    → Tiles h h.heap_start bs h.heap_end
    → h.heap_end - h.heap_start < fuel
    → 0 < n
    → let total = n + 2 * malloc_header_size in
      (first_fit total bs ≡ none → (dyn_mem (pos (pages_asked total)) h.system).0 ≡ h.heap_end)
      → let a = allocated total (h.heap_end - h.heap_start) bs in
        Given h a.0 a.1
          (system_after dyn_mem total h.system (first_fit total bs))
          (malloc dyn_mem fuel (pos n) h)
        × Room total bs a.0 a.1
malloc-Room dyn_mem h bs fuel n opened t enough positive grows = (
  malloc-Given dyn_mem h bs fuel n opened t enough positive grows,
  allocated-Room (n + 2 * malloc_header_size) (omega arith) h h.heap_start h.heap_end bs t,
)
