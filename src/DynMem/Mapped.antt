-- ===== src/DynMem/Mapped.antt =====
-- The pages that the heap grows by, and what there is when they are undone.
use so2_joan_erik.Common.{
  ℕ, ◌+◌, ◌%◌, ◌^◌, ◌<◌, ◌≤◌, ◌≡◌, ◌≢◌, refl, ◌∙◌, ap, inl, inr, true, false, ◌&&◌, ltb, leb, ◌==◌,
  List, [], ◌∷◌, ◌++◌, length, length-append, get_or, get_or-append, get_or-append_end, arith,
  if◌then◌else◌, Bool-cases, ==_refl, ==→eq,
}
use so2_joan_erik.Memory.{
  PhysMem, Entry, PageTable, empty_entry, free_frame, num_pag_kernel, set_ss_pag, del_ss_pag,
}
use so2_joan_erik.Machine.{Machine, get_pt}
use so2_joan_erik.Fork.{free_frames, map_page, unmap_page}
use so2_joan_erik.Fork.Frames.{Taken, free_frames-restores}
use so2_joan_erik.DynMem.{undo_pages}

-- The page table of the running process.
abbrev pub table_of : Machine → PageTable
table_of m = m.page_tables (get_pt m m.kernel.sched.current)

abbrev pub user_entry : ℕ → Entry
user_entry frame = record {
  present = true;
  rw_bit = true;
  user = true;
  other = 0;
  pbase_addr = frame % 2 ^ 20;
}

-- The pages from `first` on have the frames `fs`, which were free; nothing else changed.
pub record Mapped (m : Machine) (first : ℕ) (fs : List ℕ) (m' : Machine) : Type 0 where
  pub frames : Taken m.phys_mem fs m'.phys_mem
  pub kernel : m'.kernel ≡ m.kernel
  pub dirs : m'.dirs ≡ m.dirs
  pub dir_entries : m'.dir_entries ≡ m.dir_entries
  pub pages : (i : ℕ) → i < length fs → table_of m' (first + i) ≡ user_entry (get_or fs i 0)
  pub before : (p : ℕ) → p < first → table_of m' p ≡ table_of m p
  pub behind : (p : ℕ) → first + length fs ≤ p → table_of m' p ≡ table_of m p

-- Each mark is as it was, but perhaps that of frame 256, and some pages from `first` on are empty.
pub record Undone (m : Machine) (first : ℕ) (m' : Machine) : Type 0 where
  pub marks : (j : ℕ) → j ≢ num_pag_kernel → m'.phys_mem j ≡ m.phys_mem j
  pub kernel : m'.kernel ≡ m.kernel
  pub dirs : m'.dirs ≡ m.dirs
  pub tried : ℕ
  pub pages :
      (p : ℕ)
      → table_of m' p ≡ (if leb first p && ltb p (first + tried) then empty_entry else table_of m p)

table_of-map_page :
    (m : Machine) (page f p : ℕ)
    → table_of (map_page (get_pt m m.kernel.sched.current) page f m) p
      ≡ (if p == page then user_entry f else table_of m p)
unfolding get_pt set_ss_pag
table_of-map_page m page f p = rw (==_refl (get_pt m m.kernel.sched.current)) refl

pub table_of-unmap_page :
    (m : Machine) (page p : ℕ)
    → table_of (unmap_page (get_pt m m.kernel.sched.current) page m) p
      ≡ (if p == page then empty_entry else table_of m p)
unfolding get_pt del_ss_pag
table_of-unmap_page m page p = rw (==_refl (get_pt m m.kernel.sched.current)) refl

undo_pages-kernel :
    (page : ℕ) (fs : List ℕ) (m : Machine) → (undo_pages page fs m).kernel ≡ m.kernel
unfolding undo_pages
undo_pages-kernel page [] m = refl
undo_pages-kernel page (f ∷ fs) m = undo_pages-kernel (page + 1) fs _

undo_pages-dirs : (page : ℕ) (fs : List ℕ) (m : Machine) → (undo_pages page fs m).dirs ≡ m.dirs
unfolding undo_pages
undo_pages-dirs page [] m = refl
undo_pages-dirs page (f ∷ fs) m = undo_pages-dirs (page + 1) fs _

undo_pages-phys_mem :
    (page : ℕ) (fs : List ℕ) (m : Machine)
    → (undo_pages page fs m).phys_mem ≡ free_frames fs m.phys_mem
unfolding undo_pages free_frames
undo_pages-phys_mem page [] m = refl
undo_pages-phys_mem page (f ∷ fs) m = undo_pages-phys_mem (page + 1) fs _

undo_pages-table_of :
    (page : ℕ) (fs : List ℕ) (m : Machine) (p : ℕ)
    → table_of (undo_pages page fs m) p
      ≡ (if leb page p && ltb p (page + length fs) then empty_entry else table_of m p)
unfolding undo_pages get_pt
undo_pages-table_of page [] m p = ground arith
undo_pages-table_of page (f ∷ fs) m p =
    let freed = record m { phys_mem = free_frame m.phys_mem f } in
    undo_pages-table_of (page + 1) fs (unmap_page (get_pt m m.kernel.sched.current) page freed) p
    ∙ rw (table_of-unmap_page freed page p) (ground arith)

pub more-Mapped :
    (m m' : Machine) (first : ℕ) (fs : List ℕ) (f : ℕ) (marks : PhysMem)
    → Mapped m first fs m'
    → Taken m.phys_mem (fs ++ f ∷ []) marks
    → Mapped m first (fs ++ f ∷ []) (
        map_page
          (get_pt m' m'.kernel.sched.current)
          (first + length fs)
          f
          (record m' { phys_mem = marks }))
unfolding get_pt
more-Mapped m m' first fs f marks x t = record {
  frames = t;
  kernel = x.kernel;
  dirs = x.dirs;
  dir_entries = x.dir_entries;
  pages = λ i lt. at (first + i) ∙ elim (Bool-cases (i == length fs)) [
    | inl e ↦
        let j : i ≡ length fs = ==→eq i (length fs) e in
        rw (j, ==_refl (first + length fs), get_or-append_end fs f 0) refl
    | inr e ↦
        let inside : i < length fs = ground (arith, lt, e, length-append fs (f ∷ [])) in
        let other : (first + i == first + length fs) ≡ false = ground (arith, inside) in
        rw (other, get_or-append fs (f ∷ []) i 0 inside) (x.pages i inside)
  ];
  before = λ p lt.
      at p
      ∙ (let other : (p == first + length fs) ≡ false = ground (arith, lt) in
          rw other (x.before p lt));
  behind = λ p le.
      at p
      ∙ (let other : (p == first + length fs) ≡ false =
            ground (arith, le, length-append fs (f ∷ [])) in
          rw other (x.behind p (omega (arith, le, length-append fs (f ∷ [])))));
}
  where
    at :
        (p : ℕ)
        → table_of
            (map_page
              (get_pt m' m'.kernel.sched.current)
              (first + length fs)
              f
              (record m' { phys_mem = marks }))
            p
          ≡ (if p == first + length fs then user_entry f else table_of m' p)
    at p = table_of-map_page (record m' { phys_mem = marks }) (first + length fs) f p

pub undo_pages-Undone :
    (m m' : Machine) (first : ℕ) (fs : List ℕ)
    → Mapped m first fs m'
    → Undone m first (undo_pages first fs m')
undo_pages-Undone m m' first fs x = record {
  marks = λ j ne.
      ap (λ mem. mem j) (undo_pages-phys_mem first fs m') ∙ free_frames-restores x.frames j ne;
  kernel = undo_pages-kernel first fs m' ∙ x.kernel;
  dirs = undo_pages-dirs first fs m' ∙ x.dirs;
  tried = length fs;
  pages = λ p.
      undo_pages-table_of first fs m' p
      ∙ ground
          (arith, λ (lt : p < first). x.before p lt, λ (le : first + length fs ≤ p). x.behind p le);
}
