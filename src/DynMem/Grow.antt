-- ===== src/DynMem/Grow.antt =====
-- The heap grows by all the pages or by none.
use so2_joan_erik.Common.{
  ℕ, zero, suc, ◌+◌, ◌≡◌, refl, ap, inl, inr, Bool, true, false, List, [], ◌∷◌, ◌++◌, length,
  length-append, arith, if◌then◌else◌, subst, sym, ℤ, pos, negsuc, is_neg, pos_part, ◌⊎◌,
}
use so2_joan_erik.Memory.{PhysMem, alloc_frame, num_pag_kernel}
use so2_joan_erik.Memory.Frames.{Outcome, alloc_frame-Outcome}
use so2_joan_erik.Machine.{Machine, get_pt}
use so2_joan_erik.Fork.{heap_of, map_page}
use so2_joan_erik.Fork.Frames.{none-Taken, more-Taken}
use so2_joan_erik.Directories.{enomem}
use so2_joan_erik.Paging.{pag_log_init_heap}
use so2_joan_erik.DynMem.{
  heap_pages, heap_addr, set_heap, grow_pages, undo_pages, grow_end, grow_heap, sys_dyn_mem,
}
use so2_joan_erik.DynMem.Mapped.{Mapped, Undone, more-Mapped, undo_pages-Undone}

-- `n` pages more, or none.
abbrev pub GrowOutcome : ℕ → Machine → ℕ → Bool × Machine → Type 0
GrowOutcome n m first (true, m') = (fs : List ℕ) × (length fs ≡ n) × Mapped m first fs m'
GrowOutcome n m first (false, m') = Undone m first m'

grow_pages-from :
    (n k : ℕ) (m m' : Machine) (first : ℕ) (fs : List ℕ)
    → Mapped m first fs m'
    → length fs + n ≡ k
    → GrowOutcome k m first (grow_pages n (length fs) first fs m')
unfolding grow_pages
grow_pages-from zero k m m' first fs x e = (fs, omega (arith, e), x)
grow_pages-from (suc n) k m m' first fs x e =
    go (alloc_frame m'.phys_mem) (alloc_frame-Outcome m'.phys_mem) (grow_pages-from n k m)
  where
    go :
        (r : ℤ × PhysMem)
        → Outcome m'.phys_mem num_pag_kernel r
        → ((m'' : Machine) (a : ℕ) (gs : List ℕ)
            → Mapped m a gs m''
            → length gs + n ≡ k
            → GrowOutcome k m a (grow_pages n (length gs) a gs m''))
        → GrowOutcome k m first (
            if is_neg r.0
            then (false, undo_pages first fs (record m' { phys_mem = r.1 }))
            else grow_pages n (length fs + 1) first (fs ++ pos_part r.0 ∷ []) (
                map_page
                  (get_pt m' m'.kernel.sched.current)
                  (first + length fs)
                  (pos_part r.0)
                  (record m' { phys_mem = r.1 })))
    go (pos i, marks) a rest =
        let one : length (fs ++ i ∷ []) ≡ length fs + 1 =
          omega (arith, length-append fs (i ∷ [])) in
        subst
          (λ z. GrowOutcome k m first (
            grow_pages n z first (fs ++ i ∷ []) (
              map_page (get_pt m' m'.kernel.sched.current) (first + length fs) i
                (record m' { phys_mem = marks }))))
          one
          (rest _ first (fs ++ i ∷ [])
            (more-Mapped m m' first fs i marks x (more-Taken x.frames i marks a))
            (omega (arith, e, one)))
    go (negsuc i, marks) a rest =
        undo_pages-Undone m _ first fs
          (subst (λ y. Mapped m first fs (record m' { phys_mem = y })) (sym a.1.same) x)

-- Either the heap has grown: the result is its old end, `n` pages more are mapped there to frames that
-- were free, and its size is written; ...
pub record Grown (n : ℕ) (m : Machine) (r : ℤ × Machine) : Type 0 where
  pub mapped : Machine
  pub frames : List ℕ
  pub enough : length frames ≡ n
  pub pages : Mapped m (pag_log_init_heap + heap_pages m) frames mapped
  pub result : r.0 ≡ heap_addr (heap_pages m)
  pub after : r.1 ≡ set_heap (pos (heap_pages m + n)) mapped

-- ... or there were not frames enough.
pub record NotGrown (m : Machine) (r : ℤ × Machine) : Type 0 where
  pub result : r.0 ≡ enomem
  pub undone : Undone m (pag_log_init_heap + heap_pages m) r.1

heap_pages-Mapped :
    (m m' : Machine) (first : ℕ) (fs : List ℕ) → Mapped m first fs m' → heap_pages m' ≡ heap_pages m
unfolding heap_of
heap_pages-Mapped m m' first fs x = rw (x.kernel, x.dirs) refl

-- sys_dyn_mem with a positive number of pages grows the heap by all of them, or leaves every frame that it
-- took free again, frame 256 perhaps excepted, and the size of the heap as it was.
pub sys_dyn_mem_grows :
    (n : ℕ) (m : Machine)
    → Grown (suc n) m (sys_dyn_mem (pos (suc n)) m) ⊎ NotGrown m (sys_dyn_mem (pos (suc n)) m)
unfolding sys_dyn_mem grow_heap grow_end
sys_dyn_mem_grows n m =
    go (grow_pages (suc n) 0 first [] m)
      (grow_pages-from (suc n) (suc n) m m first [] start (omega arith))
  where
    first : ℕ
    first = pag_log_init_heap + heap_pages m

    start : Mapped m first [] m
    start = record {
      frames = none-Taken m.phys_mem;
      kernel = refl;
      dirs = refl;
      dir_entries = refl;
      pages = λ i lt. absurd (omega (arith, lt));
      before = λ p lt. refl;
      behind = λ p le. refl;
    }

    go :
        (r : Bool × Machine)
        → GrowOutcome (suc n) m first r
        → Grown (suc n) m (grow_end (suc n) r) ⊎ NotGrown m (grow_end (suc n) r)
    go (true, m') (fs, len, x) =
        let same = heap_pages-Mapped m m' first fs x in
        inl (record {
          mapped = m';
          frames = fs;
          enough = len;
          pages = x;
          result = ap heap_addr same;
          after = ap (λ h. set_heap (pos (h + suc n)) m') same;
        })
    go (false, m') u = inr (record { result = refl; undone = u })
