-- ===== src/Malloc.antt =====
-- malloc and free of libc.c.
--
-- The system call dyn_mem is a parameter, a function on the state `K` of the rest of the system; a
-- pointer is a number. A `block_header` is known by its address, and the sizes are such that headers
-- and footers do not overlap. What the user writes into its blocks is not part of the state, nor is
-- the overflow of an `int`. The walk over the blocks runs on fuel.
pub mod Blocks
pub mod Walk
pub mod FirstFit
pub mod Used
pub mod Release
pub mod Freed
pub mod Free
use so2_joan_erik.Common.{
  ℕ, zero, suc, ◌+◌, ◌-◌, ◌*◌, ◌/◌, ◌^◌, Bool, true, false, ◌&&◌, ◌||◌, not, ltb, leb, ◌==◌,
  if◌then◌else◌, ℤ, pos, negsuc, pos_part, leb_ℤ, Option, some, none,
}

abbrev pub malloc_header_size : ℕ
malloc_header_size = 8

abbrev pub page_size : ℕ
page_size = 4096

-- The two globals, and the fields of the headers and footers.
pub record Heap (K : Type 0) : Type 0 where
  pub heap_start : ℕ
  pub heap_end : ℕ
  pub size : ℕ → ℕ
  pub is_free : ℕ → Bool
  pub system : K

-- The block found, or the end of the heap; or the fuel is used up.
pub data Search : Type 0 where
  found : ℕ → Search
  at_end : Search
  out_of_fuel : Search

module _ {K : Type 0} where
  unfoldable pub next_block : Heap K → ℕ → ℕ
  next_block h block = block + h.size block

  unfoldable pub prev_block : Heap K → ℕ → ℕ
  prev_block h block = block - h.size (block - malloc_header_size)

  abbrev pub put_block : Heap K → ℕ → ℕ → Bool → Heap K
  put_block h a n f = record h {
    size = λ b. if b == a then n else h.size b;
    is_free = λ b. if b == a then f else h.is_free b;
  }

  unfoldable pub write_header_footer : Heap K → ℕ → ℕ → Bool → Heap K
  write_header_footer h block n f =
      put_block (put_block h block n f) (block + n - malloc_header_size) n f

  -- The walk of malloc.
  unfoldable pub find_block : ℕ → ℕ → ℕ → Heap K → Search
  unfolding next_block
  find_block zero total current h = out_of_fuel
  find_block (suc fuel) total current h =
      let rest = find_block fuel total (next_block h current) h in
      if ltb current h.heap_end
      then if h.is_free current && leb total (h.size current) then found current else rest
      else at_end

  -- The block is given, and what is left of it stays free if it is large enough.
  unfoldable pub split_block : ℕ → ℕ → Heap K → Heap K
  split_block total current h =
      let rem = h.size current - total in
      let cut = write_header_footer h current total false in
      if ltb (2 * malloc_header_size) rem
      then write_header_footer cut (next_block cut current) rem true
      else write_header_footer h current (h.size current) false

  module _ (dyn_mem : ℤ → K → ℕ × K) where
    -- `heap_start = dyn_mem(1); …`, the first time.
    unfoldable pub open_heap : Heap K → Heap K
    open_heap h =
        let r = dyn_mem (pos 1) h.system in
        let opened = record h { heap_start = r.0; heap_end = r.0 + page_size; system = r.1 } in
        if h.heap_start == 0 then write_header_footer opened r.0 page_size true else h

    -- New pages for a block of their own.
    unfoldable pub grow_heap : ℕ → Heap K → ℕ × Heap K
    grow_heap total h =
        let pages_needed = (total + page_size - 1) / page_size in
        let r = dyn_mem (pos pages_needed) h.system in
        let grown = record h { heap_end = r.0 + pages_needed * page_size; system = r.1 } in
        (
          h.heap_end + malloc_header_size,
          write_header_footer grown h.heap_end (pages_needed * page_size) false,
        )

    abbrev pub give_block : ℕ → Search → Heap K → Option (ℕ × Heap K)
    give_block total (found current) h =
        some (current + malloc_header_size, split_block total current h)
    give_block total at_end h = some (grow_heap total h)
    give_block total out_of_fuel h = none

    -- `(char *)-1` is the pointer 2 ^ 32 - 1.
    unfoldable pub malloc : ℕ → ℤ → Heap K → Option (ℕ × Heap K)
    malloc fuel num_bytes h =
        let total_size = pos_part num_bytes + 2 * malloc_header_size in
        let opened = open_heap h in
        let given =
          give_block total_size (find_block fuel total_size opened.heap_start opened) opened in
        if leb_ℤ num_bytes (pos 0) then some (2 ^ 32 - 1, h) else given

    -- A free block joins the free one behind it, ...
    unfoldable pub join_next : ℕ → Heap K → Heap K
    join_next block h =
        let next = next_block h block in
        if ltb next h.heap_end && h.is_free next
        then write_header_footer h block (h.size block + h.size next) true
        else h

    -- ... and the free one before it.
    unfoldable pub join_prev : ℕ → Heap K → Heap K
    join_prev block h =
        let prev = prev_block h block in
        if ltb h.heap_start block && h.is_free prev
        then write_header_footer h prev (h.size block + h.size prev) true
        else h

    -- The pages of a free last block go back: its header gets the new size, its footer does not.
    unfoldable pub shrink_heap : Heap K → Heap K
    shrink_heap h =
        let last = prev_block h h.heap_end in
        let free_pages = (h.heap_end - last) / page_size in
        let shrunk = record h {
          heap_end = h.heap_end - free_pages * page_size;
          size = λ b. if b == last then h.size last - free_pages * page_size else h.size b;
          system = (dyn_mem (negsuc (free_pages - 1)) h.system).1;
        } in
        if h.is_free last && (ltb 0 free_pages && (last + h.size last == h.heap_end))
        then shrunk
        else h

    unfoldable pub free : ℕ → Heap K → ℤ × Heap K
    unfolding join_next join_prev shrink_heap
    free p h =
        let block = p - malloc_header_size in
        let freed = write_header_footer h block (h.size block) true in
        let shrunk = shrink_heap (join_prev block (join_next block freed)) in
        if (p == 0) || (h.heap_start == 0)
        then (negsuc 0, h)
        else if ltb p (h.heap_start + malloc_header_size) || leb h.heap_end p
        then (negsuc 0, h)
        else if h.is_free block
        then (negsuc 0, h)
        else (pos 0, shrunk)
