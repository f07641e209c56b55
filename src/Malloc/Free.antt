-- ===== src/Malloc/Free.antt =====
-- What free means to the program: the blocks in use are those that were, but the one given back.
use so2_joan_erik.Common.{
  ℤ, ℕ, ◌+◌, ◌-◌, ◌<◌, ◌≡◌, ◌≢◌, refl, Bool, true, false, ◌==◌, List, [], ◌∷◌, ◌++◌, arith,
  if◌then◌else◌, ◌∙◌, Bool-cases, ap, inl, inr, pos,
}
use so2_joan_erik.Malloc.{Heap, malloc_header_size, free}
use so2_joan_erik.Malloc.Blocks.{Block, Tiles}
use so2_joan_erik.Malloc.FirstFit.{used_at}
use so2_joan_erik.Malloc.Release.{merged, join_behind, with_prev, total_bytes}
use so2_joan_erik.Malloc.Freed.{trimmed, WholePages, given_back, freed, joined, free-Tiles}

-- No block is empty.
abbrev NotEmpty : List Block → Type 0
NotEmpty [] = Unit {0}
NotEmpty (b ∷ bs) = (0 < b.bytes) × NotEmpty bs

Tiles-NotEmpty :
    {K : Type 0} (h : Heap K) (a e : ℕ) (bs : List Block) → Tiles h a bs e → NotEmpty bs
Tiles-NotEmpty h a e [] t = tt
Tiles-NotEmpty h a e (b ∷ bs) t =
    (omega (arith, t.0.large), Tiles-NotEmpty h (a + b.bytes) e bs t.1)

used_at-trimmed : (p n : ℕ) (bs : List Block) → used_at p n (trimmed bs) ≡ used_at p n bs
used_at-trimmed p n [] = refl
used_at-trimmed p n (b ∷ []) = ground arith
used_at-trimmed p n (b ∷ c ∷ cs) = ground (arith, used_at-trimmed (p - b.bytes) n (c ∷ cs))

used_at-merged :
    (p n : ℕ) (b c : Block) (cs : List Block)
    → b.free ≡ true
    → c.free ≡ true
    → 0 < b.bytes
    → 0 < c.bytes
    → used_at p n (merged b c ∷ cs) ≡ used_at p n (b ∷ c ∷ cs)
used_at-merged p n b c cs f g x y =
    let e : p - b.bytes - c.bytes ≡ p - (b.bytes + c.bytes) = omega arith in
    rw (f, g, e) (ground (arith, x, y))

used_at-with_prev :
    (p n : ℕ) (bs : List Block) (b : Block) (cs : List Block)
    → b.free ≡ true
    → 0 < b.bytes
    → NotEmpty bs
    → used_at p n (with_prev bs b cs) ≡ used_at p n (bs ++ b ∷ cs)
used_at-with_prev p n [] b cs f x m = refl
used_at-with_prev p n (c ∷ []) b cs f x m = elim (Bool-cases c.free) [
  | inl e ↦
      ap (λ g. used_at p n (if g then merged c b ∷ cs else c ∷ b ∷ cs)) e
      ∙ used_at-merged p n c b cs e f m.0 x
  | inr e ↦ ap (λ g. used_at p n (if g then merged c b ∷ cs else c ∷ b ∷ cs)) e
]
used_at-with_prev p n (c ∷ d ∷ ds) b cs f x m =
    ground (arith, used_at-with_prev (p - c.bytes) n (d ∷ ds) b cs f x m.1)

-- The block with the free one behind it is free, and says the same of the blocks in use.
used_at-join_behind :
    (p n : ℕ) (b : Block) (cs : List Block)
    → b.free ≡ true
    → 0 < b.bytes
    → NotEmpty cs
    → (used_at p n ((join_behind b cs).0 ∷ (join_behind b cs).1) ≡ used_at p n (b ∷ cs))
      × ((join_behind b cs).0.free ≡ true)
      × (0 < (join_behind b cs).0.bytes)
used_at-join_behind p n b [] f x m = (refl, f, x)
used_at-join_behind p n b (c ∷ cs) f x m = pick c.free refl
  where
    pick :
        (g : Bool)
        → c.free ≡ g
        → let r : Block × List Block = if g then (merged b c, cs) else (b, c ∷ cs) in
          (used_at p n (r.0 ∷ r.1) ≡ used_at p n (b ∷ c ∷ cs)) × (r.0.free ≡ true) × (0 < r.0.bytes)
    pick true g = (used_at-merged p n b c cs f g x m.0, refl, omega (arith, x))
    pick false g = (refl, f, x)

used_at-append :
    (p n : ℕ) (bs cs ds : List Block)
    → ((k : ℕ) → used_at k n cs ≡ used_at k n ds)
    → used_at p n (bs ++ cs) ≡ used_at p n (bs ++ ds)
used_at-append p n [] cs ds same = same p
used_at-append p n (b ∷ bs) cs ds same =
    ground (arith, used_at-append (p - b.bytes) n bs cs ds same)

used_at-replaced :
    (p n : ℕ) (bs : List Block) (b : Block) (cs : List Block)
    → NotEmpty (bs ++ b ∷ cs)
    → used_at p n (bs ++ freed b ∷ cs)
      ≡ (if p == total_bytes bs then false else used_at p n (bs ++ b ∷ cs))
used_at-replaced p n [] b cs m = ground arith
used_at-replaced p n (c ∷ bs) b cs m =
    ground (arith, m.0, used_at-replaced (p - c.bytes) n bs b cs m.1)

NotEmpty-split :
    (bs : List Block) (b : Block) (cs : List Block)
    → NotEmpty (bs ++ b ∷ cs)
    → NotEmpty bs × (0 < b.bytes) × NotEmpty cs
NotEmpty-split [] b cs m = (tt, m.0, m.1)
NotEmpty-split (c ∷ bs) b cs m = let r = NotEmpty-split bs b cs m.1 in ((m.0, r.0), r.1, r.2)

used_at-joined :
    (p n : ℕ) (bs : List Block) (b : Block) (cs : List Block)
    → NotEmpty (bs ++ b ∷ cs)
    → used_at p n (trimmed (joined bs b cs))
      ≡ (if p == total_bytes bs then false else used_at p n (bs ++ b ∷ cs))
used_at-joined p n bs b cs m =
    let s = NotEmpty-split bs b cs m in
    let r : Block × List Block = join_behind (freed b) cs in
    let at = λ (k : ℕ). used_at-join_behind k n (freed b) cs refl s.1 s.2 in
    used_at-trimmed p n (joined bs b cs)
    ∙ used_at-with_prev p n bs r.0 r.1 (at 0).1 (at 0).2 s.0
    ∙ used_at-append p n bs (r.0 ∷ r.1) (freed b ∷ cs) (λ k. (at k).0)
    ∙ used_at-replaced p n bs b cs m

-- What free leaves of the blocks `bs ++ b ∷ cs`.
pub record Freed {K : Type 0} (dyn_mem : ℤ → K → ℕ × K) (h : Heap K) (bs : List Block) (b : Block)
    (cs : List Block) (r : ℤ × Heap K) : Type 0 where
  pub result : r.0 ≡ pos 0
  pub start : r.1.heap_start ≡ h.heap_start
  -- Blocks tile the heap: the block has joined its free neighbours, and pages at the end are gone.
  pub tiles : Tiles r.1 r.1.heap_start (trimmed (joined bs b cs)) r.1.heap_end
  -- dyn_mem has been called for the pages that are gone, and for nothing else.
  pub system : r.1.system ≡ given_back dyn_mem (joined bs b cs) h.system
  -- At an offset there is a block in use of `n` bytes at least if there was, and it is not this one.
  pub used :
      (p n : ℕ)
      → used_at p n (trimmed (joined bs b cs))
        ≡ (if p == total_bytes bs then false else used_at p n (bs ++ b ∷ cs))

-- On a heap that has been opened and that blocks tile, free of a block in use returns 0, if the free
-- block that is then at the end, when it has a page at least, is whole pages: the block joins its free
-- neighbours; if the block then at the end is free and has a page at least, the heap ends before it and
-- one call of dyn_mem gives its pages back, else dyn_mem is not called; blocks tile the heap again, and
-- those in use are those that were, but the one given back.
pub free-Freed :
    {K : Type 0} (dyn_mem : ℤ → K → ℕ × K) (h : Heap K) (bs : List Block) (b : Block)
    (cs : List Block)
    → h.heap_start ≢ 0
    → Tiles h h.heap_start (bs ++ b ∷ cs) h.heap_end
    → b.free ≡ false
    → WholePages (joined bs b cs)
    → Freed dyn_mem h bs b cs (free dyn_mem (h.heap_start + total_bytes bs + malloc_header_size) h)
free-Freed dyn_mem h bs b cs opened t used whole =
    let r = free-Tiles dyn_mem h bs b cs t opened used whole in
    record {
      result = r.0;
      start = r.1;
      tiles = r.2;
      system = r.3;
      used = λ p n.
          used_at-joined p n bs b cs (Tiles-NotEmpty h h.heap_start h.heap_end (bs ++ b ∷ cs) t);
    }
