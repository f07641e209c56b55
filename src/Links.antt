-- ===== src/Links.antt =====
-- Doubly linked rings: list.c and the macros of include/list.h.
--
-- A `struct list_head` is known by its address, a number; `NULL` is 0. The memory of all list heads
-- is two functions, the `next` fields and the `prev` fields. A store to NULL, which faults on the
-- machine, writes cell 0 here; rings never contain NULL.
pub mod Paths
pub mod Ring
use so2_joan_erik.Common.{ℕ, Bool, ◌==◌, if◌then◌else◌}

pub record Links : Type 0 where
  pub next : ℕ → ℕ
  pub prev : ℕ → ℕ

abbrev pub null : ℕ
null = 0

-- The field at `p` becomes `v`.
abbrev pub update : (ℕ → ℕ) → ℕ → ℕ → ℕ → ℕ
update f p v q = if q == p then v else f q

abbrev pub set_next : Links → ℕ → ℕ → Links
set_next m p v = record m { next = update m.next p v }

abbrev pub set_prev : Links → ℕ → ℕ → Links
set_prev m p v = record m { prev = update m.prev p v }

-- INIT_LIST_HEAD
unfoldable pub init_list_head : Links → ℕ → Links
init_list_head m list = set_prev (set_next m list list) list list

-- __list_add
unfoldable pub list_add_between : Links → ℕ → ℕ → ℕ → Links
list_add_between m new prev next =
    let m1 = set_prev m next new in
    let m2 = set_next m1 new next in let m3 = set_prev m2 new prev in set_next m3 prev new

unfoldable pub list_add : Links → ℕ → ℕ → Links
unfolding list_add_between
list_add m new head = list_add_between m new head (m.next head)

unfoldable pub list_add_tail : Links → ℕ → ℕ → Links
unfolding list_add_between
list_add_tail m new head = list_add_between m new (m.prev head) head

-- __list_del
unfoldable pub list_del_between : Links → ℕ → ℕ → Links
list_del_between m prev next = set_next (set_prev m next prev) prev next

unfoldable pub list_del : Links → ℕ → Links
unfolding list_del_between
list_del m entry =
    let m1 = list_del_between m (m.prev entry) (m.next entry) in
    set_prev (set_next m1 entry null) entry null

unfoldable pub list_is_last : Links → ℕ → ℕ → Bool
list_is_last m list head = m.next list == head

unfoldable pub list_empty : Links → ℕ → Bool
list_empty m head = m.next head == head

-- The macro `list_first`.
abbrev pub list_first : Links → ℕ → ℕ
list_first m head = m.next head
