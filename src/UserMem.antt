-- ===== src/UserMem.antt =====
-- utils.c: copies between user and kernel space, and the check of user pointers.
--
-- Memory is a function from addresses to bytes. A copy moves four bytes at a time while more than
-- four are left, then one at a time; the loops run on the size, which falls in each round. A size
-- that is not positive copies nothing. An `unsigned long` wraps at 2 ^ 32.
pub mod Copy
pub mod Bounds
use so2_joan_erik.Common.{
  ℕ, zero, suc, ◌+◌, ◌-◌, ◌*◌, ◌/◌, ◌%◌, ◌^◌, Bool, true, false, ◌&&◌, ltb, leb, ◌==◌,
  if◌then◌else◌, ℤ, pos, pos_part,
}

abbrev pub Mem : Type 0
Mem = ℕ → ℕ

-- `*q = *p` for bytes.
abbrev pub store : Mem → ℕ → ℕ → Mem
store m q v a = if a == q then v else m a

-- `*q = *p` for words: four bytes are read, then four are written.
unfoldable pub copy_word : Mem → ℕ → ℕ → Mem
copy_word m p q a = if leb q a && ltb a (q + 4) then m (p + (a - q)) else m a

unfoldable pub copy_bytes : ℕ → Mem → ℕ → ℕ → Mem
copy_bytes zero m p q = m
copy_bytes (suc n) m p q = copy_bytes n (store m q (m p)) (p + 1) (q + 1)

-- The word loop with fuel, then the byte loop.
unfoldable pub copy_words : ℕ → Mem → ℕ → ℕ → ℕ → Mem
unfolding copy_bytes copy_word
copy_words zero m p q size = copy_bytes size m p q
copy_words (suc f) m p q size =
    let rest = copy_words f (copy_word m p q) (p + 4) (q + 4) (size - 4) in
    if ltb 4 size then rest else copy_bytes size m p q

-- copy_data, copy_from_user and copy_to_user have the same loops; the last two return 0.
unfoldable pub copy_data : Mem → ℕ → ℕ → ℤ → Mem
unfolding copy_words
copy_data m start dest size = copy_words (pos_part size) m start dest (pos_part size)

unfoldable pub copy_from_user : Mem → ℕ → ℕ → ℤ → ℤ × Mem
unfolding copy_words
copy_from_user m start dest size = (pos 0, copy_words (pos_part size) m start dest (pos_part size))

unfoldable pub copy_to_user : Mem → ℕ → ℕ → ℤ → ℤ × Mem
unfolding copy_words
copy_to_user m start dest size = (pos 0, copy_words (pos_part size) m start dest (pos_part size))

-- VERIFY_READ and VERIFY_WRITE
pub data Access : Type 0 where
  verify_read verify_write : Access

abbrev pub user_first_page : ℕ
user_first_page = 256

abbrev pub num_pag_data : ℕ
num_pag_data = 20

abbrev pub num_pag_code : ℕ
num_pag_code = 8

-- The case `default` of the switch.
unfoldable pub access_default : ℕ → ℕ → Bool
access_default addr_ini addr_fin =
    leb user_first_page addr_ini && leb addr_fin (user_first_page + num_pag_code + num_pag_data)

-- The case VERIFY_WRITE: without a match it falls through to `default`.
unfoldable pub access_switch : Access → ℕ → ℕ → Bool
unfolding access_default
access_switch verify_write addr_ini addr_fin =
    if leb user_first_page addr_ini && leb addr_fin (user_first_page + num_pag_data)
    then true
    else access_default addr_ini addr_fin
access_switch verify_read addr_ini addr_fin = access_default addr_ini addr_fin

unfoldable pub access_ok : Access → ℕ → ℕ → Bool
unfolding access_switch
access_ok type addr size =
    let addr_ini = addr / 4096 in
    let addr_fin = ((addr + size) % 2 ^ 32) / 4096 in
    if ltb addr_fin addr_ini then false else access_switch type addr_ini addr_fin
