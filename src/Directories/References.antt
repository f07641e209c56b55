-- ===== src/Directories/References.antt =====
-- Taking a directory and giving it back.
use so2_joan_erik.Common.{ℕ, ◌≡◌, arith}
use so2_joan_erik.Task.{Task}
use so2_joan_erik.Directories.{Directories, sub_dir_ref, add_dir_ref}

-- sub_DIR_ref after add_DIR_ref of the same task restores every count.
pub sub_dir_ref-add_dir_ref :
    (d : Directories) (t : Task) (i : ℕ)
    → (sub_dir_ref (add_dir_ref d t).1 t).1.dir_pages_num_references i
      ≡ d.dir_pages_num_references i
unfolding sub_dir_ref add_dir_ref
sub_dir_ref-add_dir_ref d t i = ground arith
