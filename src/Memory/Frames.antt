-- ===== src/Memory/Frames.antt =====
-- The allocator of frames.
use so2_joan_erik.Common.{
  ℕ, subst, zero, suc, ◌+◌, ◌*◌, ◌%◌, ◌<◌, ◌≤◌, ◌≡◌, refl, ◌≢◌, ◌∙◌, ap, ◌&&◌, arith, ◌==◌,
  if◌then◌else◌, ltb, leb, ℤ, pos, negsuc, Bool-cases, inl, inr,
}
use so2_joan_erik.Memory.{
  PhysMem, total_pages, num_pag_kernel, free_mark, used_mark, mark, mark_from, init_frames,
  alloc_loop, alloc_frame, free_frame,
}

-- A frame that the allocator looks at: of the user part, and even.
pub record Allocable (i : ℕ) : Type 0 where
  pub low : num_pag_kernel ≤ i
  pub high : i < total_pages
  pub even : i % 2 ≡ 0

-- The frame `i` was free and is the first such; it is used now, and no other mark changed.
pub record Allocated (m : PhysMem) (from i : ℕ) (m' : PhysMem) : Type 0 where
  pub range : Allocable i
  pub was_free : m i ≡ free_mark
  pub first : (j : ℕ) → Allocable j → from ≤ j → j < i → m j ≢ free_mark
  pub is_used : m' i ≡ used_mark
  pub spared : (j : ℕ) → j ≢ i → m' j ≡ m j

-- Nothing is free, and nothing changed.
pub record Exhausted (m : PhysMem) (from : ℕ) (m' : PhysMem) : Type 0 where
  pub none_free : (j : ℕ) → Allocable j → from ≤ j → m j ≢ free_mark
  pub same : m' ≡ m

-- What the allocator returns, and when.
abbrev pub Outcome : PhysMem → ℕ → ℤ × PhysMem → Type 0
Outcome m from (pos i, m') = Allocated m from i m'
Outcome m from (negsuc n, m') = (n ≡ 0) × Exhausted m from m'

Outcome-later :
    (m : PhysMem) (i : ℕ) (r : ℤ × PhysMem)
    → i % 2 ≡ 0
    → m i ≢ free_mark
    → Outcome m (i + 2) r
    → Outcome m i r
Outcome-later m i (pos k, m') even used o = record {
  range = o.range;
  was_free = o.was_free;
  first = λ j a from lt. elim (Bool-cases (j == i)) [
    | inl e ↦ λ free. used (ap m (ground arith) ∙ free)
    | inr e ↦ o.first j a (ground (arith, a)) lt
  ];
  is_used = o.is_used;
  spared = o.spared;
}
Outcome-later m i (negsuc n, m') even used (e, o) = (
  e,
  record {
    none_free = λ j a from. elim (Bool-cases (j == i)) [
      | inl e ↦ λ free. used (ap m (ground arith) ∙ free)
      | inr e ↦ o.none_free j a (ground (arith, a))
    ];
    same = o.same;
  },
)

alloc_loop-Outcome :
    (f i : ℕ) (m : PhysMem)
    → num_pag_kernel ≤ i
    → i % 2 ≡ 0
    → total_pages < i + 2 * f
    → Outcome m i (alloc_loop f i m)
unfolding alloc_loop
alloc_loop-Outcome zero i m lo even fuel =
    (refl, record { none_free = λ j a from. absurd (omega arith); same = refl })
alloc_loop-Outcome (suc f) i m lo even fuel = elim (Bool-cases (ltb i total_pages)) [
  | inr out ↦
      rw out (refl, record { none_free = λ j a from. absurd (ground (arith, a)); same = refl })
  | inl inside ↦ rw inside (elim (Bool-cases (m i == free_mark)) [
    | inl free ↦ rw free (record {
      range = record { low = lo; high = ground arith; even = even };
      was_free = ground arith;
      first = λ j a from lt. absurd (omega arith);
      is_used = ground arith;
      spared = λ j ne. ground arith;
    })
    | inr used ↦ rw used (
        Outcome-later m i (alloc_loop f (i + 2) m) even (ground arith)
          (alloc_loop-Outcome f (i + 2) m (omega arith) (omega arith) (omega arith)))
  ])
]

-- alloc_frame returns the lowest free frame of those it looks at, the even ones from 256 on, marks
-- it used and changes no other; it returns -1, and changes nothing, exactly if none of them is free.
pub alloc_frame-Outcome : (m : PhysMem) → Outcome m num_pag_kernel (alloc_frame m)
unfolding alloc_frame
alloc_frame-Outcome m = alloc_loop-Outcome 385 num_pag_kernel m (omega arith) refl (omega arith)

-- free_frame of the frame that alloc_frame has just given restores every mark, unless the frame is 256.
pub free_frame-alloc_frame :
    (m : PhysMem) (i : ℕ) {m' : PhysMem}
    → alloc_frame m ≡ (pos i, m')
    → i ≢ num_pag_kernel
    → (j : ℕ) → free_frame m' i j ≡ m j
unfolding free_frame
free_frame-alloc_frame m i {m'} e ne j =
    let a : Allocated m num_pag_kernel i m' =
      subst (Outcome m num_pag_kernel) e (alloc_frame-Outcome m) in
    ground (arith, a.range, a.was_free, a.spared j)

-- Frame 256, the first that alloc_frame gives out, is never freed: freeing it changes nothing.
pub free_frame_256 : (m : PhysMem) (j : ℕ) → free_frame m num_pag_kernel j ≡ m j
unfolding free_frame
free_frame_256 m j = refl

mark_from_lem :
    (n i v : ℕ) (m : PhysMem) (j : ℕ)
    → mark_from n i v m j ≡ (if leb i j && ltb j (i + n) then v else m j)
unfolding mark_from
mark_from_lem zero i v m j = ground arith
mark_from_lem (suc n) i v m j = ground (arith, mark_from_lem n (i + 1) v (mark m i v) j)

-- After init_frames the kernel's frames are used and all others free.
pub init_frames_lem :
    (m : PhysMem) (j : ℕ)
    → init_frames m j
      ≡ (if ltb j num_pag_kernel then used_mark else if ltb j total_pages then free_mark else m j)
unfolding init_frames
init_frames_lem m j =
    mark_from_lem num_pag_kernel 0 used_mark (mark_from total_pages 0 free_mark m) j
    ∙ rw (mark_from_lem total_pages 0 free_mark m j) (ground arith)
