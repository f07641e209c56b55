-- ===== src/Memory/Tables.antt =====
-- Page tables behave as maps from logical pages to frames.
use so2_joan_erik.Common.{ℕ, ◌^◌, ◌<◌, ◌≡◌, arith, ◌==◌, if◌then◌else◌}
use so2_joan_erik.Memory.{PageTable, empty_entry, set_ss_pag, del_ss_pag, get_frame}

-- After set_ss_pag a page has its frame, if that has 20 bits, and every other page what it had.
pub get_frame-set_ss_pag :
    (pt : PageTable) (page frame p : ℕ)
    → frame < 2 ^ 20
    → get_frame (set_ss_pag pt page frame) p ≡ (if p == page then frame else get_frame pt p)
unfolding get_frame set_ss_pag
get_frame-set_ss_pag pt page frame p h = ground arith

-- A mapping of a page that was free, as sys_fork makes one for a while, is undone by del_ss_pag.
pub del_ss_pag-set_ss_pag :
    (pt : PageTable) (page frame p : ℕ)
    → pt page ≡ empty_entry
    → del_ss_pag (set_ss_pag pt page frame) page p ≡ pt p
unfolding del_ss_pag set_ss_pag
del_ss_pag-set_ss_pag pt page frame p e = ground arith
