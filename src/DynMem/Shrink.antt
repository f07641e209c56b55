-- ===== src/DynMem/Shrink.antt =====
-- A heap that shrinks gives back what it has grown by.
use so2_joan_erik.Common.{
  ℕ, zero, suc, ◌+◌, ◌-◌, ◌/◌, ◌<◌, ◌≡◌, ◌≢◌, refl, ◌∙◌, ap, sym, subst, inl, inr, arith, true,
  false, ◌&&◌, ltb, leb, ◌==◌, ==_refl, Bool-cases, for_up, if◌then◌else◌, List, [], ◌∷◌, length,
  get_or, has, ℤ, pos, negsuc, is_neg,
}
use so2_joan_erik.Memory.{Entry, empty_entry, free_frame, get_frame, num_pag_kernel}
use so2_joan_erik.Directories.{heap_zones_base}
use so2_joan_erik.Machine.{Machine, get_pt}
use so2_joan_erik.Paging.{pag_log_init_heap}
use so2_joan_erik.Fork.{heap_of, free_frames}
use so2_joan_erik.Fork.Frames.{free_frames-restores}
use so2_joan_erik.DynMem.{heap_pages, heap_addr, set_heap, drop_page, shrink_heap, sys_dyn_mem}
use so2_joan_erik.DynMem.Mapped.{table_of, Mapped, table_of-unmap_page}
use so2_joan_erik.DynMem.Grow.{Grown, sys_dyn_mem_grows}

table_of-drop_page :
    (m : Machine) (page p : ℕ)
    → table_of (drop_page page m) p ≡ (if p == page then empty_entry else table_of m p)
unfolding drop_page get_pt
table_of-drop_page m page p =
    let freed = record m { phys_mem = free_frame m.phys_mem (get_frame (table_of m) page) } in
    table_of-unmap_page freed page p

drop_pages-table_of :
    (n page : ℕ) (m : Machine) (p : ℕ)
    → table_of (for_up n page drop_page m) p
      ≡ (if leb page p && ltb p (page + n) then empty_entry else table_of m p)
unfolding for_up
drop_pages-table_of zero page m p = ground arith
drop_pages-table_of (suc n) page m p =
    drop_pages-table_of n (page + 1) (drop_page page m) p
    ∙ rw (table_of-drop_page m page p) (ground arith)

-- The frames of the pages are freed in order.
drop_pages-phys_mem :
    (fs : List ℕ) (page : ℕ) (m : Machine)
    → ((i : ℕ) → i < length fs → (table_of m (page + i)).pbase_addr ≡ get_or fs i 0)
    → (for_up (length fs) page drop_page m).phys_mem ≡ free_frames fs m.phys_mem
unfolding for_up free_frames drop_page get_frame get_pt
drop_pages-phys_mem [] page m h = refl
drop_pages-phys_mem (f ∷ fs) page m h =
    drop_pages-phys_mem fs (page + 1) (drop_page page m) later
    ∙ ap (λ mem. free_frames fs mem) first
  where
    later :
        (i : ℕ)
        → i < length fs
        → (table_of (drop_page page m) (page + 1 + i)).pbase_addr ≡ get_or fs i 0
    later i lt =
        let other : (page + 1 + i == page) ≡ false = ground arith in
        let place : page + suc i ≡ page + 1 + i = omega arith in
        rw (table_of-drop_page m page (page + 1 + i), other)
          (ap (λ x. (table_of m x).pbase_addr) (sym place) ∙ h (suc i) (omega (arith, lt)))

    first : (drop_page page m).phys_mem ≡ free_frame m.phys_mem f
    first =
        ap (free_frame m.phys_mem)
          (ap (λ x. (table_of m x).pbase_addr) (omega arith) ∙ h 0 (omega arith))

get_or-has : (fs : List ℕ) (i : ℕ) → i < length fs → has (get_or fs i 0) fs ≡ true
get_or-has [] i h = absurd (omega (arith, h))
get_or-has (f ∷ fs) zero h = rw (==_refl f) refl
get_or-has (f ∷ fs) (suc i) h = ground (arith, get_or-has fs i (omega (arith, h)))

-- The heap ends where it did, and is as large; each mark is as it was, but perhaps that of frame 256;
-- the `n` pages behind the end are empty, and every other page is as it was.
pub record Shrunk (n : ℕ) (m : Machine) (r : ℤ × Machine) : Type 0 where
  pub result : r.0 ≡ heap_addr (heap_pages m)
  pub size : heap_pages r.1 ≡ heap_pages m
  pub marks : (j : ℕ) → j ≢ num_pag_kernel → r.1.phys_mem j ≡ m.phys_mem j
  pub pages :
      (p : ℕ)
      → table_of r.1 p ≡ (
          if leb (pag_log_init_heap + heap_pages m) p
            && ltb p (pag_log_init_heap + heap_pages m + n)
          then empty_entry
          else table_of m p)

heap_pages-set_heap : (n : ℕ) (m : Machine) → heap_pages (set_heap (pos n) m) ≡ n
unfolding heap_of set_heap
heap_pages-set_heap n m =
    rw (==_refl (((m.kernel.sched.tasks m.kernel.sched.current).my_heap - heap_zones_base) / 4))
      refl

module _ (m mapped : Machine) (fs : List ℕ)
    (x : Mapped m (pag_log_init_heap + heap_pages m) fs mapped) where
  abbrev grown : Machine
  grown = set_heap (pos (heap_pages m + length fs)) mapped

  grown_frames :
      (i : ℕ)
      → i < length fs
      → (table_of grown (pag_log_init_heap + heap_pages m + i)).pbase_addr ≡ get_or fs i 0
  unfolding set_heap get_pt
  grown_frames i lt =
      ap (λ (e : Entry). e.pbase_addr) (x.pages i lt)
      ∙ (let r = x.frames.range (get_or fs i 0) (get_or-has fs i lt) in omega (arith, r.high))

  abbrev dropped : Machine
  dropped = for_up (length fs) (pag_log_init_heap + heap_pages m) drop_page grown

  dropped_marks : (j : ℕ) → j ≢ num_pag_kernel → dropped.phys_mem j ≡ m.phys_mem j
  unfolding set_heap
  dropped_marks j ne =
      ap (λ mem. mem j)
        (drop_pages-phys_mem fs (pag_log_init_heap + heap_pages m) grown grown_frames)
      ∙ free_frames-restores x.frames j ne

  dropped_pages :
      (p : ℕ)
      → table_of dropped p ≡ (
          if leb (pag_log_init_heap + heap_pages m) p
            && ltb p (pag_log_init_heap + heap_pages m + length fs)
          then empty_entry
          else table_of m p)
  unfolding set_heap get_pt
  dropped_pages p =
      drop_pages-table_of (length fs) (pag_log_init_heap + heap_pages m) grown p
      ∙ elim (Bool-cases (leb (pag_log_init_heap + heap_pages m) p)) [
        | inl lo ↦ elim (Bool-cases (ltb p (pag_log_init_heap + heap_pages m + length fs))) [
          | inl hi ↦ rw (lo, hi) refl
          | inr hi ↦ rw (lo, hi) (x.behind p (ground (arith, hi)))
        ]
        | inr lo ↦ rw lo (x.before p (ground (arith, lo)))
      ]

  shrink_heap-Shrunk : Shrunk (length fs) m (shrink_heap (length fs) grown)
  unfolding shrink_heap set_heap heap_of get_pt
  shrink_heap-Shrunk =
      let h = heap_pages-set_heap (heap_pages m + length fs) mapped in
      let fine : ltb (heap_pages m + length fs) (length fs) ≡ false = ground arith in
      let back : heap_pages m + length fs - length fs ≡ heap_pages m = omega arith in
      let place : pag_log_init_heap + (heap_pages m + length fs) - length fs
          ≡ pag_log_init_heap + heap_pages m =
        omega arith in
      rw (h, fine, back, place)
        (record {
          result = refl;
          size = heap_pages-set_heap (heap_pages m) dropped;
          marks = dropped_marks;
          pages = dropped_pages;
        })

shrinks :
    (n : ℕ) (m : Machine) (r : ℤ × Machine)
    → Grown (suc n) m r
    → Shrunk (suc n) m (sys_dyn_mem (negsuc n) r.1)
unfolding sys_dyn_mem
shrinks n m r g =
    subst (λ y. Shrunk (suc n) m (shrink_heap (suc n) y)) (sym g.after)
      (subst (λ k. Shrunk k m (shrink_heap k (set_heap (pos (heap_pages m + k)) g.mapped))) g.enough
        (shrink_heap-Shrunk m g.mapped g.frames g.pages))

-- What sys_dyn_mem has given, it takes back: after a call for more pages that has not failed, a call for
-- as many pages less leaves the heap as `Shrunk` says.
pub sys_dyn_mem_shrinks :
    (n : ℕ) (m : Machine)
    → is_neg (sys_dyn_mem (pos (suc n)) m).0 ≡ false
    → Shrunk (suc n) m (sys_dyn_mem (negsuc n) (sys_dyn_mem (pos (suc n)) m).1)
sys_dyn_mem_shrinks n m ok = elim (sys_dyn_mem_grows n m) [
  | inl g ↦ shrinks n m (sys_dyn_mem (pos (suc n)) m) g
  | inr u ↦ absurd (cc (ap is_neg u.result, ok))
]
