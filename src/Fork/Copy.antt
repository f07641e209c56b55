-- ===== src/Fork/Copy.antt =====
-- The two loops of sys_fork that copy pages.
use so2_joan_erik.Common.{
  ℕ, zero, suc, ◌+◌, ◌*◌, ◌/◌, ◌%◌, ◌^◌, ◌<◌, ◌≤◌, ◌≡◌, ◌≢◌, refl, ◌∙◌, ap, sym, ◌⊎◌, inl, inr,
  arith, false, ◌==◌, ==→eq, ==_refl, ne→==, Bool-cases, for_up, pos,
}
use so2_joan_erik.Memory.{Entry, get_frame, set_ss_pag, del_ss_pag}
use so2_joan_erik.UserMem.{copy_data}
use so2_joan_erik.UserMem.Copy.{Copied, copies-Copied}
use so2_joan_erik.Machine.{Machine}
use so2_joan_erik.Fork.{copy_page, copy_out}

-- The frame of a page, by the page table at `pt`.
abbrev pub frame_of : Machine → ℕ → ℕ → ℕ
frame_of m pt page = (m.page_tables pt page).pbase_addr

-- The `n` pages from `first` on may be copied: two tables; room for the page that is mapped meanwhile;
-- frames of the child that fit an entry, differ, and are none of the parent's.
pub record Copyable (m : Machine) (child parent n first offset : ℕ) : Type 0 where
  pub tables : child ≢ parent
  pub room : n ≤ offset
  pub fits : (j : ℕ) → first ≤ j → j < first + n → frame_of m child j < 2 ^ 20
  pub apart :
      (i j : ℕ)
      → first ≤ i
      → i < first + n
      → first ≤ j
      → j < first + n
      → frame_of m child i ≢ frame_of m parent j
  pub distinct :
      (i j : ℕ)
      → first ≤ i
      → i < first + n
      → first ≤ j
      → j < first + n
      → i ≢ j
      → frame_of m child i ≢ frame_of m child j

-- The child's pages hold the bytes of the parent's; no other byte has changed, nor has a table but at
-- the pages that were mapped meanwhile, which are in the parent's.
pub record PagesCopied (m m' : Machine) (child parent n first offset : ℕ) : Type 0 where
  pub bytes :
      (j o : ℕ)
      → first ≤ j
      → j < first + n
      → o < 4096
      → m'.ram (frame_of m child j * 4096 + o) ≡ m.ram (frame_of m parent j * 4096 + o)
  pub spared :
      (a : ℕ)
      → ((j : ℕ) → first ≤ j → j < first + n → frame_of m child j ≢ a / 4096)
      → m'.ram a ≡ m.ram a
  pub others : (pt p : ℕ) → pt ≢ parent → m'.page_tables pt p ≡ m.page_tables pt p
  pub pages :
      (p : ℕ)
      → (p < first + offset) ⊎ (first + n + offset ≤ p)
      → m'.page_tables parent p ≡ m.page_tables parent p

module _ (m : Machine) (child parent offset i : ℕ) (some : 1 ≤ offset) where
  round-ram :
      frame_of m child i < 2 ^ 20
      → (copy_out child parent offset i m).ram
        ≡ copy_data m.ram (frame_of m parent i * 4096) (frame_of m child i * 4096) (pos 4096)
  unfolding copy_out copy_page set_ss_pag get_frame
  round-ram fits =
      let other : (i == i + offset) ≡ false = ground (arith, some) in
      let small : frame_of m child i % 2 ^ 20 ≡ frame_of m child i = omega (arith, fits) in
      rw (==_refl parent, get_frame, set_ss_pag, other, ==_refl (i + offset), small) refl

  round_others :
      (pt p : ℕ)
      → pt ≢ parent
      → (copy_out child parent offset i m).page_tables pt p ≡ m.page_tables pt p
  unfolding copy_out copy_page
  round_others pt p ne = rw (ne→== ne) refl

  round_pages :
      (p : ℕ)
      → p ≢ i + offset
      → (copy_out child parent offset i m).page_tables parent p ≡ m.page_tables parent p
  unfolding copy_out copy_page set_ss_pag del_ss_pag
  round_pages p ne = rw (==_refl parent, ne→== ne) refl

  round-Copied :
      frame_of m child i < 2 ^ 20
      → frame_of m child i ≢ frame_of m parent i
      → Copied m.ram
          (copy_out child parent offset i m).ram
          (frame_of m parent i * 4096)
          (frame_of m child i * 4096)
          4096
  round-Copied fits ne = rw (round-ram fits) (
      (copies-Copied m.ram (frame_of m parent i * 4096) (frame_of m child i * 4096) 4096
        (omega (arith, ne))).0)

-- One round, and the rest of the loop.
module _ (n first : ℕ) (m : Machine) (child parent offset : ℕ)
    (c : Copyable m child parent (suc n) first offset) where
  some : 1 ≤ offset
  some = omega (arith, c.room)

  abbrev after_round : Machine
  after_round = copy_out child parent offset first m

  one :
      Copied m.ram after_round.ram
        (frame_of m parent first * 4096)
        (frame_of m child first * 4096)
        4096
  one =
      round-Copied m child parent offset first some (c.fits first (omega arith) (omega arith))
        (c.apart first first (omega arith) (omega arith) (omega arith) (omega arith))

  child_same : (j : ℕ) → frame_of after_round child j ≡ frame_of m child j
  child_same j =
      ap (λ (e : Entry). e.pbase_addr)
        (round_others m child parent offset first some child j c.tables)

  parent_same : (j : ℕ) → j < first + suc n → frame_of after_round parent j ≡ frame_of m parent j
  parent_same j hi =
      ap (λ (e : Entry). e.pbase_addr)
        (round_pages m child parent offset first some j (omega (arith, hi, c.room)))

  next-Copyable : Copyable after_round child parent n (first + 1) offset
  next-Copyable = record {
    tables = c.tables;
    room = omega (arith, c.room);
    fits = λ j lo hi. rw (child_same j) (c.fits j (omega (arith, lo)) (omega (arith, hi)));
    apart = λ i j li hi lj hj.
        rw (child_same i, parent_same j (omega (arith, hj)))
          (c.apart i j (omega (arith, li)) (omega (arith, hi)) (omega (arith, lj))
            (omega (arith, hj)));
    distinct = λ i j li hi lj hj ne.
        rw (child_same i, child_same j)
          (c.distinct i j (omega (arith, li)) (omega (arith, hi)) (omega (arith, lj))
            (omega (arith, hj)) ne);
  }

  frame_part : (f o : ℕ) → o < 4096 → (f * 4096 + o) / 4096 ≡ f
  frame_part f o b = omega (arith, b)

  outside :
      (f g o : ℕ) → f ≢ g → o < 4096 → (f * 4096 + o < g * 4096) ⊎ (g * 4096 + 4096 ≤ f * 4096 + o)
  outside f g o ne b = omega (arith, ne, b)

  module _ (m' : Machine)
      (rest : PagesCopied after_round m' child parent n (first + 1) offset) where
    first_bytes :
        (o : ℕ)
        → o < 4096
        → m'.ram (frame_of m child first * 4096 + o) ≡ m.ram (frame_of m parent first * 4096 + o)
    first_bytes o b =
        rest.spared (frame_of m child first * 4096 + o) (λ j lo hi e.
          c.distinct j first (omega (arith, lo)) (omega (arith, hi)) (omega arith) (omega arith)
            (omega (arith, lo)) (sym (child_same j) ∙ e ∙ frame_part (frame_of m child first) o b))
        ∙ one.moved o b

    later_bytes :
        (j o : ℕ)
        → first + 1 ≤ j
        → j < first + suc n
        → o < 4096
        → m'.ram (frame_of m child j * 4096 + o) ≡ m.ram (frame_of m parent j * 4096 + o)
    later_bytes j o lo hi b =
        ap (λ f. m'.ram (f * 4096 + o)) (sym (child_same j))
        ∙ rest.bytes j o lo (omega (arith, hi)) b
        ∙ ap (λ f. after_round.ram (f * 4096 + o)) (parent_same j hi)
        ∙ one.spared (frame_of m parent j * 4096 + o) (
            outside (frame_of m parent j) (frame_of m child first) o
              (λ e. c.apart first j (omega arith) (omega arith) (omega (arith, lo)) hi (sym e)) b)

    step-PagesCopied : PagesCopied m m' child parent (suc n) first offset
    step-PagesCopied = record {
      bytes = λ j o lo hi b. elim (Bool-cases (j == first)) [
        | inl e ↦ let same : j ≡ first = ==→eq j first e in rw same (first_bytes o b)
        | inr e ↦ later_bytes j o (ground (arith, lo, e)) hi b
      ];
      spared = λ a h.
          rest.spared a
            (λ j lo hi e. h j (omega (arith, lo)) (omega (arith, hi)) (sym (child_same j) ∙ e))
          ∙ one.spared a (omega (arith, h first (omega arith) (omega arith)));
      others =
          λ pt p ne. rest.others pt p ne ∙ round_others m child parent offset first some pt p ne;
      pages = λ p h.
          rest.pages p (omega (arith, h))
          ∙ round_pages m child parent offset first some p (omega (arith, h));
    }

-- The loop, from pages that may be copied.
pub copy_out-PagesCopied :
    (n first : ℕ) (m : Machine) (child parent offset : ℕ)
    → Copyable m child parent n first offset
    → PagesCopied m (for_up n first (copy_out child parent offset) m) child parent n first offset
unfolding for_up
copy_out-PagesCopied zero first m child parent offset c = record {
  bytes = λ j o lo hi. absurd (omega (arith, lo, hi));
  spared = λ a h. refl;
  others = λ pt p ne. refl;
  pages = λ p h. refl;
}
copy_out-PagesCopied (suc n) first m child parent offset c =
    step-PagesCopied n first m child parent offset c _ (
      copy_out-PagesCopied n (first + 1) (copy_out child parent offset first m) child parent offset
        (next-Copyable n first m child parent offset c))
