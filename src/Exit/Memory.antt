-- ===== src/Exit/Memory.antt =====
-- The last process of a directory frees the frames of its data and its heap.
use so2_joan_erik.Common.{
  ℕ, zero, suc, ◌+◌, ◌<◌, ◌≤◌, ◌≡◌, ◌≢◌, refl, Bool, true, false, ◌&&◌, ◌||◌, leb, ltb, ◌==◌,
  ==_refl, ==→eq, ne→==, arith, ap, sym, subst, ◌∙◌, fun_ext, for_up, for_up-keeps, Bool-cases, inl,
  inr, pos, pos_part, leb_ℤ, if◌then◌else◌,
}
use so2_joan_erik.Memory.{
  PhysMem, Entry, empty_entry, free_mark, free_frame, get_frame, del_ss_pag, num_pag_kernel,
  total_pages,
}
use so2_joan_erik.Directories.{sub_dir_ref}
use so2_joan_erik.Machine.{Machine}
use so2_joan_erik.Paging.{pag_log_init_data, pag_log_init_heap, num_pag_data}
use so2_joan_erik.Fork.{heap_of}
use so2_joan_erik.Exit.{free_page, release_memory}

-- `n` pages from `first` on.
abbrev pub within : ℕ → ℕ → ℕ → Bool
within first n p = leb first p && ltb p (first + n)

-- The frame of a page.
abbrev pub frame_at : ℕ → Machine → ℕ → ℕ
frame_at pt m p = (m.page_tables pt p).pbase_addr

-- The pages of `chosen` are empty, and their frames above frame 256 are free; the marks of the frames
-- up to 256 and of all others, and the rest, have not changed.
pub record FreedPages (pt : ℕ) (chosen : ℕ → Bool) (m m' : Machine) : Type 0 where
  pub kernel : m'.kernel ≡ m.kernel
  pub dirs : m'.dirs ≡ m.dirs
  pub ram : m'.ram ≡ m.ram
  pub pages : (p : ℕ) → m'.page_tables pt p ≡ (if chosen p then empty_entry else m.page_tables pt p)
  pub tables : (a : ℕ) → a ≢ pt → m'.page_tables a ≡ m.page_tables a
  pub free :
      (p : ℕ)
      → chosen p ≡ true
      → num_pag_kernel < frame_at pt m p
      → frame_at pt m p < total_pages
      → m'.phys_mem (frame_at pt m p) ≡ free_mark
  pub marks :
      (j : ℕ) → ((p : ℕ) → chosen p ≡ true → frame_at pt m p ≢ j) → m'.phys_mem j ≡ m.phys_mem j
  pub held : (j : ℕ) → j ≤ num_pag_kernel → m'.phys_mem j ≡ m.phys_mem j
  -- A frame that was free stays so.
  pub stays : (j : ℕ) → m.phys_mem j ≡ free_mark → m'.phys_mem j ≡ free_mark

pub FreedPages-none :
    (pt : ℕ) (chosen : ℕ → Bool) (m : Machine)
    → ((p : ℕ) → chosen p ≡ false)
    → FreedPages pt chosen m m
FreedPages-none pt chosen m h = record {
  kernel = refl;
  dirs = refl;
  ram = refl;
  pages = λ p. rw (h p) refl;
  tables = λ a ne. refl;
  free = λ p c. absurd (cc (h p, c));
  marks = λ j n. refl;
  held = λ j l. refl;
  stays = λ j e. e;
}

FreedPages-kept :
    {pt : ℕ} {chosen : ℕ → Bool} {m m' : Machine} (p : ℕ)
    → FreedPages pt chosen m m'
    → chosen p ≡ false
    → frame_at pt m' p ≡ frame_at pt m p
FreedPages-kept {pt} {chosen} {m} {m'} p a e =
    let q : m'.page_tables pt p ≡ m.page_tables pt p = a.pages p ∙ rw e refl in
    ap (λ (x : Entry). x.pbase_addr) q

-- Different pages, one after the other.
FreedPages-both :
    {pt : ℕ} {c1 c2 : ℕ → Bool} {m m' m'' : Machine}
    → FreedPages pt c1 m m'
    → FreedPages pt c2 m' m''
    → ((p : ℕ) → c1 p ≡ true → c2 p ≡ false)
    → FreedPages pt (λ p. c1 p || c2 p) m m''
FreedPages-both {pt} {c1} {c2} {m} {m'} {m''} a b apart = record {
  kernel = b.kernel ∙ a.kernel;
  dirs = b.dirs ∙ a.dirs;
  ram = b.ram ∙ a.ram;
  pages = λ p.
      b.pages p
      ∙ rw (a.pages p)
          (elim (Bool-cases (c1 p)) [ inl e ↦ rw (e, apart p e) refl | inr e ↦ rw e refl ]);
  tables = λ x ne. b.tables x ne ∙ a.tables x ne;
  free = λ p c lo hi. elim (Bool-cases (c1 p)) [
    | inl e ↦ b.stays (frame_at pt m p) (a.free p e lo hi)
    | inr e ↦
        let q : frame_at pt m' p ≡ frame_at pt m p = FreedPages-kept p a e in
        let d : c2 p ≡ true = ground (arith, c, e) in
        subst (λ f. m''.phys_mem f ≡ free_mark) q
          (b.free p d (omega (arith, q, lo)) (omega (arith, q, hi)))
  ];
  marks = λ j n.
      b.marks j (λ p d e.
        let not_first : c1 p ≡ false = ground (arith, d, apart p) in
        n p (ground (arith, d)) (sym (FreedPages-kept p a not_first) ∙ e))
      ∙ a.marks j (λ p d. n p (ground (arith, d)));
  held = λ j l. b.held j l ∙ a.held j l;
  stays = λ j e. b.stays j (a.stays j e);
}

free_frame_marks :
    (mem : PhysMem) (f j : ℕ)
    → (j ≢ f → free_frame mem f j ≡ mem j) × (mem j ≡ free_mark → free_frame mem f j ≡ free_mark)
unfolding free_frame
free_frame_marks mem f j = (λ h. ground (arith, h), λ e. ground (arith, e))

free_frame_held : (mem : PhysMem) (f j : ℕ) → j ≤ num_pag_kernel → free_frame mem f j ≡ mem j
unfolding free_frame
free_frame_held mem f j h = ground (arith, h)

free_frame_free :
    (mem : PhysMem) (f : ℕ) → num_pag_kernel < f → f < total_pages → free_frame mem f f ≡ free_mark
unfolding free_frame
free_frame_free mem f lo hi = ground arith

free_page-FreedPages : (pt i : ℕ) (m : Machine) → FreedPages pt (λ p. p == i) m (free_page pt i m)
unfolding free_page get_frame del_ss_pag
free_page-FreedPages pt i m = record {
  kernel = refl;
  dirs = refl;
  ram = refl;
  pages = λ p. rw (==_refl pt) refl;
  tables = λ a ne. rw (ne→== ne) refl;
  free = λ p c lo hi.
      let e : p ≡ i = ==→eq p i c in
      subst (λ x. free_frame m.phys_mem (frame_at pt m i) (frame_at pt m x) ≡ free_mark) (sym e)
        (free_frame_free m.phys_mem (frame_at pt m i)
          (subst (λ x. num_pag_kernel < frame_at pt m x) e lo)
          (subst (λ x. frame_at pt m x < total_pages) e hi));
  marks = λ j n. (free_frame_marks m.phys_mem (frame_at pt m i) j).0 (λ e. n i (==_refl i) (sym e));
  held = λ j l. free_frame_held m.phys_mem (frame_at pt m i) j l;
  stays = λ j e. (free_frame_marks m.phys_mem (frame_at pt m i) j).1 e;
}

free_pages-FreedPages :
    (n first pt : ℕ) (m : Machine)
    → FreedPages pt (within first n) m (for_up n first (free_page pt) m)
unfolding for_up
free_pages-FreedPages zero first pt m = FreedPages-none pt (within first 0) m (λ p. ground arith)
free_pages-FreedPages (suc n) first pt m =
    subst (λ c. FreedPages pt c m (for_up n (first + 1) (free_page pt) (free_page pt first m)))
      (fun_ext {f = λ p. (p == first) || within (first + 1) n p} {g = within first (suc n)}
        (λ p. ground arith))
      (FreedPages-both (free_page-FreedPages pt first m)
        (free_pages-FreedPages n (first + 1) pt (free_page pt first m)) (λ p e. ground (arith, e)))

-- The pages that a process does not share with its parent: `heap` pages of heap, and the data.
abbrev pub is_private : ℕ → ℕ → Bool
is_private heap p = within pag_log_init_data num_pag_data p || within pag_log_init_heap heap p

-- One user of the directory is left out. If none remains, the private pages have been freed; else no
-- page and no frame has changed.
pub record Released (pt ct : ℕ) (m m' : Machine) : Type 0 where
  pub count : m'.dirs ≡ (sub_dir_ref m.dirs (m.kernel.sched.tasks ct)).1
  pub shared :
      leb_ℤ (sub_dir_ref m.dirs (m.kernel.sched.tasks ct)).0 (pos 0) ≡ false
      → (m'.page_tables ≡ m.page_tables) × (m'.phys_mem ≡ m.phys_mem)
  pub last :
      leb_ℤ (sub_dir_ref m.dirs (m.kernel.sched.tasks ct)).0 (pos 0) ≡ true
      → FreedPages pt
          (is_private (pos_part (heap_of m ct)))
          (record m { dirs = (sub_dir_ref m.dirs (m.kernel.sched.tasks ct)).1 })
          m'

pub release_memory-Released : (pt ct : ℕ) (m : Machine) → Released pt ct m (release_memory pt ct m)
unfolding release_memory heap_of sub_dir_ref
release_memory-Released pt ct m =
    let r = sub_dir_ref m.dirs (m.kernel.sched.tasks ct) in
    let m' : Machine = record m { dirs = r.1 } in
    elim (Bool-cases (leb_ℤ r.0 (pos 0))) [
      | inl e ↦
          let f : FreedPages pt (is_private (pos_part (heap_of m ct))) m' (
              for_up (pos_part (heap_of m ct)) pag_log_init_heap (free_page pt)
                (for_up num_pag_data pag_log_init_data (free_page pt) m')) =
            FreedPages-both (free_pages-FreedPages num_pag_data pag_log_init_data pt m')
              (free_pages-FreedPages (pos_part (heap_of m ct)) pag_log_init_heap pt _)
              (λ p h. ground (arith, h)) in
          rw e (record { count = f.dirs; shared = λ h. absurd (cc (e, h)); last = λ h. f })
      | inr e ↦
          rw e (record { count = refl; shared = λ h. (refl, refl); last = λ h. absurd (cc (e, h)) })
    ]

-- The release of the memory leaves the kernel's state.
pub release_memory_kernel : (pt ct : ℕ) (m : Machine) → (release_memory pt ct m).kernel ≡ m.kernel
unfolding release_memory free_page
release_memory_kernel pt ct m =
    let r = sub_dir_ref m.dirs (m.kernel.sched.tasks ct) in
    elim (Bool-cases (leb_ℤ r.0 (pos 0))) [
      | inl e ↦ rw e (
          for_up-keeps (λ (x : Machine). x.kernel) (free_page pt) (λ i x. refl) _ pag_log_init_heap
            _
          ∙ for_up-keeps (λ (x : Machine). x.kernel) (free_page pt) (λ i x. refl) num_pag_data
              pag_log_init_data _)
      | inr e ↦ rw e refl
    ]
