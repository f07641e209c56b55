-- ===== src/Fork/Frames.antt =====
-- The frames of a child: all of them, or none.
use so2_joan_erik.Common.{
  ℕ, zero, suc, ◌+◌, ◌≡◌, refl, ◌≢◌, true, false, ◌&&◌, ltb, List, [], ◌∷◌, ◌++◌, length,
  length-append, arith, has, has-append, Distinct, Distinct-snoc, sym, subst, ◌∙◌, Option, none,
  some, ℤ, pos, negsuc, if◌then◌else◌, Bool-cases, inl, inr, is_neg, pos_part, ◌⊎◌,
}
use so2_joan_erik.Memory.{
  PhysMem, alloc_frame, free_frame, free_mark, used_mark, num_pag_kernel, total_pages,
}
use so2_joan_erik.Memory.Frames.{Allocable, Allocated, Outcome, alloc_frame-Outcome}
use so2_joan_erik.Fork.{free_frames, alloc_frames}

-- The frames `fs` were free and are used; they are different, and no other mark changed.
pub record Taken (m : PhysMem) (fs : List ℕ) (m' : PhysMem) : Type 0 where
  pub distinct : Distinct fs
  pub range : (j : ℕ) → has j fs ≡ true → Allocable j
  pub was_free : (j : ℕ) → has j fs ≡ true → m j ≡ free_mark
  pub is_used : (j : ℕ) → has j fs ≡ true → m' j ≡ used_mark
  pub spared : (j : ℕ) → has j fs ≡ false → m' j ≡ m j

-- `n` frames are taken; or every mark is as it was, but perhaps that of frame 256.
abbrev pub FramesOutcome : ℕ → PhysMem → Option (List ℕ) × PhysMem → Type 0
FramesOutcome n m (some fs, m') = (length fs ≡ n) × Taken m fs m'
FramesOutcome n m (none, m') = (j : ℕ) → j ≢ num_pag_kernel → m' j ≡ m j

pub free_frames_lem :
    (fs : List ℕ) (m : PhysMem) (j : ℕ)
    → free_frames fs m j
      ≡ (if (has j fs && ltb num_pag_kernel j) && ltb j total_pages then free_mark else m j)
unfolding free_frames free_frame
free_frames_lem [] m j = refl
free_frames_lem (f ∷ fs) m j = ground (arith, free_frames_lem fs (free_frame m f) j)

pub none-Taken : (m : PhysMem) → Taken m [] m
none-Taken m = record {
  distinct = tt;
  range = λ j h. ground (arith, h);
  was_free = λ j h. ground (arith, h);
  is_used = λ j h. ground (arith, h);
  spared = λ j h. refl;
}

module _ {m m' : PhysMem} {fs : List ℕ} (t : Taken m fs m') where
  fresh_frame : (i : ℕ) (m'' : PhysMem) → Allocated m' num_pag_kernel i m'' → has i fs ≡ false
  fresh_frame i m'' a = ground (arith, a.was_free, λ (h : has i fs ≡ true). t.is_used i h)

  pub more-Taken :
      (i : ℕ) (m'' : PhysMem) → Allocated m' num_pag_kernel i m'' → Taken m (fs ++ i ∷ []) m''
  more-Taken i m'' a = record {
    distinct = Distinct-snoc fs i t.distinct out;
    range =
        λ j h. elim (either j h) [ inl x ↦ t.range j x | inr e ↦ subst Allocable (sym e) a.range ];
    was_free = λ j h. elim (either j h) [
      | inl x ↦ t.was_free j x
      | inr e ↦ rw e (sym (t.spared i out) ∙ a.was_free)
    ];
    is_used = λ j h. elim (either j h) [
      | inl x ↦ a.spared j (λ e. cc (subst (λ y. has y fs ≡ true) e x, out)) ∙ t.is_used j x
      | inr e ↦ rw e a.is_used
    ];
    spared = λ j h.
        let o = has-append j fs (i ∷ []) in
        a.spared j (ground (arith, h, o)) ∙ t.spared j (ground (arith, h, o));
  }
    where
      out : has i fs ≡ false
      out = fresh_frame i m'' a

      either : (j : ℕ) → has j (fs ++ i ∷ []) ≡ true → (has j fs ≡ true) ⊎ (j ≡ i)
      either j h = elim (Bool-cases (has j fs)) [
        | inl x ↦ inl x
        | inr x ↦ inr (ground (arith, h, x, has-append j fs (i ∷ [])))
      ]

  pub free_frames-restores : (j : ℕ) → j ≢ num_pag_kernel → free_frames fs m' j ≡ m j
  free_frames-restores j ne = free_frames_lem fs m' j ∙ elim (Bool-cases (has j fs)) [
    | inl h ↦ ground (arith, ne, h, t.range j h, t.was_free j h)
    | inr h ↦ rw h (t.spared j h)
  ]

alloc_frames-from :
    (n k : ℕ) (m m' : PhysMem) (fs : List ℕ)
    → Taken m fs m'
    → length fs + n ≡ k
    → FramesOutcome k m (alloc_frames n fs m')
unfolding alloc_frames
alloc_frames-from zero k m m' fs t e = (omega (arith, e), t)
alloc_frames-from (suc n) k m m' fs t e =
    go (alloc_frame m') (alloc_frame-Outcome m') (alloc_frames-from n k m)
  where
    go :
        (r : ℤ × PhysMem)
        → Outcome m' num_pag_kernel r
        → ((m'' : PhysMem) (gs : List ℕ)
            → Taken m gs m''
            → length gs + n ≡ k
            → FramesOutcome k m (alloc_frames n gs m''))
        → FramesOutcome k m (
            if is_neg r.0
            then (none, free_frames fs r.1)
            else alloc_frames n (fs ++ pos_part r.0 ∷ []) r.1)
    go (pos i, m'') a rest =
        rest m'' (fs ++ i ∷ []) (more-Taken t i m'' a) (omega (arith, e, length-append fs (i ∷ [])))
    go (negsuc x, m'') a rest = λ j ne. rw a.1.same (free_frames-restores t j ne)

-- The loop of sys_fork takes as many different free frames as it is to, and no other mark changes; or it
-- frees them all again, and each mark is as it was before, but perhaps that of frame 256.
pub alloc_frames-FramesOutcome : (n : ℕ) (m : PhysMem) → FramesOutcome n m (alloc_frames n [] m)
alloc_frames-FramesOutcome n m = alloc_frames-from n n m m [] (none-Taken m) (omega arith)
