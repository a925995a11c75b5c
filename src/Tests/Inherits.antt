-- ===== src/Tests/Inherits.antt =====
-- The files that a restore inherits, at a process with an external file, and its standard output.
use cedana.Base.{
  ℕ, ◌==◌, ◌≡◌, refl, String, str_eq, true, false, none, some, List, [], ◌∷◌, load, store,
  if◌then◌else◌, ◌&&◌,
}
use cedana.Process.Node.{File}
use cedana.Process.Walk.{blank}
use cedana.Process.Forest.{Tree, node, nil}
use cedana.Process.Trees.{walk_list, walk_tree, tree_values}
use cedana.Process.Inherit.{
  Restoring, Inheriting, is_external, inherit_open_file, inherit_process_files,
}
use cedana.Process.Placed.{Hands}
use cedana.Process.Handing.{HeldBy, inherit_process_files-Hands}
use cedana.Process.Unopened.{inherit_process_files-unopened}

abbrev setting : Restoring
setting = record {
  attachable = true;
  has_log = false;
  serverless = false;
  can_open = λ p. str_eq p "/data/a";
  tty_key = λ r d. "tty[1:1]";
  external_key = λ m i. if m == 2 then "file[2:3]" else "file[4:3]";
  trim_slash = λ p. p;
  has_prefix = λ p q. str_eq p "pipe:[1]" && str_eq q "pipe";
}

abbrev some_file : String → ℕ → ℕ → File
some_file path fd mount = record {
  fd = fd;
  path = path;
  mode = "";
  mount_id = mount;
  inode = 3;
  is_tty = false;
  dev = 0;
  rdev = 0;
}

abbrev data_file : File
data_file = some_file "/data/a" 7 2

abbrev gone : File
gone = some_file "/data/b" 8 4

abbrev output : File
output = some_file "pipe:[1]" 1 9

abbrev process : List File → Tree
process fs = node (record (blank none) { open_files = fs }) nil

abbrev at_first : Inheriting
at_first = record {
  extra_files = [];
  inherit_fd_map = [];
  inherit_fds = [];
  visited = [];
  to_close = [];
  error = false;
}

abbrev at_last : Inheriting
at_last = record {
  extra_files = none ∷ some "/data/a" ∷ [];
  inherit_fd_map = ("pipe:[1]", 1) ∷ ("file[2:3]", 4) ∷ [];
  inherit_fds = ("pipe:[1]", 1) ∷ ("file[2:3]", 4) ∷ [];
  visited = 1 ∷ [];
  to_close = "/data/a" ∷ [];
  error = false;
}

inherited :
    inherit_process_files setting (process (output ∷ data_file ∷ [])) at_first ≡ some at_last
unfolding inherit_process_files walk_list load store
inherited = refl

inherit_process_files-Hands_example :
    Hands (HeldBy setting (process (output ∷ data_file ∷ []))) at_first at_last
inherit_process_files-Hands_example =
    inherit_process_files-Hands setting (process (output ∷ data_file ∷ [])) at_first at_last
      inherited

-- The file /data/b is gone, and only the standard output comes after it.
abbrev after_data : Inheriting
after_data = record {
  extra_files = some "/data/a" ∷ [];
  inherit_fd_map = ("file[2:3]", 3) ∷ [];
  inherit_fds = ("file[2:3]", 3) ∷ [];
  visited = [];
  to_close = "/data/a" ∷ [];
  error = false;
}

walked_data :
    walk_list (inherit_open_file setting []) (data_file ∷ []) at_first ≡ (after_data, true)
unfolding inherit_open_file walk_list load store
walked_data = refl

inherit_process_files-unopened_example :
    inherit_process_files setting (process (data_file ∷ gone ∷ output ∷ [])) at_first ≡ none
unfolding is_external tree_values load walk_tree walk_list
inherit_process_files-unopened_example =
    inherit_process_files-unopened setting (process (data_file ∷ gone ∷ output ∷ []))
      (data_file ∷ []) (output ∷ []) gone at_first after_data refl walked_data refl refl refl refl
      refl (refl, tt)
