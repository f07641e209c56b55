-- ===== src/UserMem/Bounds.antt =====
-- What access_ok lets pass.
use so2_joan_erik.Common.{ℕ, ◌+◌, ◌*◌, ◌%◌, ◌^◌, ◌<◌, ◌≤◌, ◌≡◌, ◌≢◌, ◌-◌, true, false, arith}
use so2_joan_erik.UserMem.{Access, verify_read, verify_write, access_ok}

-- A block of less than 2 ^ 31 bytes that passes begins in the user pages and ends, exclusively, in them or on the page behind
-- (page 284, the first of the heap); it does not wrap round the address space.
pub access_ok_bounds :
    (type : Access) (addr size : ℕ)
    → addr < 2 ^ 32
    → size < 2 ^ 31
    → access_ok type addr size ≡ true
    → (256 * 4096 ≤ addr) × (addr + size < 285 * 4096)
unfolding access_ok
access_ok_bounds verify_read addr size ha hs h = ground arith
access_ok_bounds verify_write addr size ha hs h = ground arith

-- A block inside the data pages passes for both kinds of access.
pub access_ok_data :
    (type : Access) (addr size : ℕ)
    → 256 * 4096 ≤ addr
    → addr + size ≤ 276 * 4096
    → access_ok type addr size ≡ true
unfolding access_ok
access_ok_data verify_read addr size lo hi = ground arith
access_ok_data verify_write addr size lo hi = ground arith

-- The check for writing refuses nothing that the check for reading lets pass, though the code pages
-- are among those: the case VERIFY_WRITE falls through to the other.
pub access_ok_write-read :
    (addr size : ℕ) → access_ok verify_write addr size ≡ access_ok verify_read addr size
unfolding access_ok
access_ok_write-read addr size = ground arith

-- A buffer on the heap, from its second page on, is refused for both kinds of access.
pub access_ok_heap :
    (type : Access) (addr size : ℕ)
    → 285 * 4096 ≤ addr
    → addr + size < 2 ^ 32
    → access_ok type addr size ≡ false
unfolding access_ok
access_ok_heap verify_read addr size lo hi = ground arith
access_ok_heap verify_write addr size lo hi = ground arith

-- A size close to 2 ^ 32 can wrap round within a page: for any address of the user pages but the
-- first of a page, the size 2 ^ 32 - 1 passes both checks.
pub access_ok_wraps :
    (type : Access) (addr : ℕ)
    → 256 * 4096 ≤ addr
    → addr < 285 * 4096
    → addr % 4096 ≢ 0
    → access_ok type addr (2 ^ 32 - 1) ≡ true
unfolding access_ok
access_ok_wraps verify_read addr lo hi inside = ground arith
access_ok_wraps verify_write addr lo hi inside = ground arith
