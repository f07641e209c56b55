-- ===== src/Directories/Tasks.antt =====
-- allocate_DIR and allocate_heap leave the PID and the state of the task.
use so2_joan_erik.Common.{ℕ, ◌≡◌, refl, Option, none, some}
use so2_joan_erik.Task.{Task}
use so2_joan_erik.Directories.{Directories, take_dir, allocate_heap}

pub take_dir-same :
    (o : Option ℕ) (d : Directories) (t : Task)
    → ((take_dir o d t).2.pid ≡ t.pid) × ((take_dir o d t).2.current_state ≡ t.current_state)
take_dir-same none d t = (refl, refl)
take_dir-same (some i) d t = (refl, refl)

pub allocate_heap-same :
    (d : Directories) (t : Task)
    → ((allocate_heap d t).2.pid ≡ t.pid) × ((allocate_heap d t).2.current_state ≡ t.current_state)
unfolding allocate_heap
allocate_heap-same d t = (refl, refl)
