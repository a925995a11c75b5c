-- ===== src/Tests/Restores.antt =====
-- The GPU adapters of a restore at a process with a hostmem file, a log and an NVIDIA mount.
use Prim.Native.String.{◌++◌ as text_append}
use cedana.Base.{
  ℕ, ◌≡◌, refl, String, str_eq, true, false, none, some, [], ◌∷◌, if◌then◌else◌, load, store,
}
use cedana.Process.Node.{File, Mount}
use cedana.Process.Walk.{blank}
use cedana.Process.Forest.{Tree, node, nil}
use cedana.Process.Trees.{walk_list, tree_values}
use cedana.Gpu.Inherit.{
  Paths, Host, Inherit, sized, create_hostmem, inherit_file, inherit_open_files,
  inherit_files_for_restore,
}
use cedana.Gpu.Inherited.{Passes}
use cedana.Gpu.Passed.{inherit_files_for_restore-Passes}
use cedana.Gpu.Lost.{inherit_open_files-lost}
use cedana.Gpu.Mounts.{Files}

abbrev paths : Paths
paths = record {
  is_shm = λ p. str_eq p "/dev/shm/cedana-gpu.old";
  match_hostmem = λ p. if str_eq p "/dev/shm/cedana-gpu.old.misc/hostmem-7" then some "7" else none;
  match_interceptor_log =
      λ p. if str_eq p "/log/cedana-gpu.old/cedana-so-7.log" then some ("old", "7") else none;
  match_tracer_log = λ p. none;
  atoi = λ t. if str_eq t "7" then some 7 else none;
  shm_path = λ i. text_append "/dev/shm/cedana-gpu." i;
  hostmem_path = λ i n. text_append "/dev/shm/cedana-gpu." (text_append i ".misc/hostmem-7");
  interceptor_log_path = λ i n. text_append "/log/cedana-gpu." (text_append i "/cedana-so-7.log");
  tracer_log_path = λ i n. text_append "/log/cedana-gpu." (text_append i "/cedana-tracer-7.log");
  external_key = λ m i. "file[2:3]";
  trim_slash = λ p. p;
  has_prefix = λ p q. false;
}

abbrev able : Host
able = record {
  can_open = λ p. true;
  can_create = λ p. true;
  can_chmod = λ p. true;
  can_truncate = λ p n. true;
  metadata = some (sized 4096 ∷ []);
  ensure_log_dir = λ i. some "/log";
  has_log_dir = true;
}

abbrev unable : Host
unable = record able { can_create = λ p. false }

abbrev file : String → ℕ → File
file path mount = record {
  fd = 3;
  path = path;
  mode = "";
  mount_id = mount;
  inode = 3;
  is_tty = false;
  dev = 0;
  rdev = 0;
}

abbrev so_log : File
so_log = file "/log/cedana-gpu.old/cedana-so-7.log" 2

abbrev hostmem : File
hostmem = file "/dev/shm/cedana-gpu.old.misc/hostmem-7" 1

abbrev nvidia : Mount
nvidia = record {
  id = 1;
  parent = 0;
  major = 8;
  minor = 1;
  root = "/nvidia";
  mount_point = "/usr/nvidia";
  options = "";
  fs_type = "ext4";
  source = "";
}

abbrev tree : Tree
tree = node (record (blank none) { open_files = so_log ∷ hostmem ∷ []; mounts = nvidia ∷ [] }) nil

abbrev request_state : Inherit
request_state = record {
  extra_files = "stdin-pipe" ∷ [];
  inherit_fd_map = ("stdin-pipe", 3) ∷ [];
  inherit_fds = ("stdin-pipe", 3) ∷ [];
  id = "new";
  log_dir = "";
  to_close = [];
  failed = false;
}

abbrev after : Inherit
after = record {
  extra_files =
      "stdin-pipe" ∷ "/dev/shm/cedana-gpu.new" ∷ "/log/cedana-gpu.new/cedana-so-7.log"
      ∷ "/dev/shm/cedana-gpu.new.misc/hostmem-7" ∷ [];
  inherit_fd_map =
      ("stdin-pipe", 3)
      ∷ ("/dev/shm/cedana-gpu.old", 4)
      ∷ ("file[2:3]", 5)
      ∷ ("/dev/shm/cedana-gpu.old.misc/hostmem-7", 6)
      ∷ [];
  inherit_fds =
      ("stdin-pipe", 3)
      ∷ ("/dev/shm/cedana-gpu.old", 4)
      ∷ ("file[2:3]", 5)
      ∷ ("/dev/shm/cedana-gpu.old.misc/hostmem-7", 6)
      ∷ [];
  id = "new";
  log_dir = "/log";
  to_close =
      "/dev/shm/cedana-gpu.new" ∷ "/log/cedana-gpu.new/cedana-so-7.log"
      ∷ "/dev/shm/cedana-gpu.new.misc/hostmem-7" ∷ [];
  failed = false;
}

restored : inherit_files_for_restore paths able "old" tree request_state ≡ some after
unfolding inherit_files_for_restore load walk_list store
restored = refl

inherit_files_for_restore-Passes_example : Passes request_state after
inherit_files_for_restore-Passes_example =
    inherit_files_for_restore-Passes paths able "old" tree request_state after restored

-- The log comes before the hostmem file, which cannot be created.
abbrev after_log : Inherit
after_log = record request_state {
  extra_files = "stdin-pipe" ∷ "/log/cedana-gpu.new/cedana-so-7.log" ∷ [];
  inherit_fd_map = ("stdin-pipe", 3) ∷ ("file[2:3]", 4) ∷ [];
  inherit_fds = ("stdin-pipe", 3) ∷ ("file[2:3]", 4) ∷ [];
  log_dir = "/log";
  to_close = "/log/cedana-gpu.new/cedana-so-7.log" ∷ [];
}

logged :
    walk_list (inherit_file paths unable false (1 ∷ [])) (so_log ∷ []) request_state
    ≡ (after_log, true)
unfolding walk_list inherit_file load store
logged = refl

inherit_open_files-lost_example :
    inherit_open_files paths unable false (1 ∷ []) tree request_state ≡ some after_log
unfolding tree_values create_hostmem
inherit_open_files-lost_example =
    inherit_open_files-lost paths unable false (1 ∷ []) tree (so_log ∷ []) [] hostmem "7" 7
      request_state after_log refl logged refl refl refl refl refl

abbrev files : Files
files = record {
  is_nvidia = λ r. str_eq r "/nvidia";
  host_mounts = none;
  len = λ t. 0;
  lstat = λ p. false;
  rel = λ a b. none;
  join_path = λ a b. b;
  leads_out = λ p. false;
  mount_entry = λ p r. text_append "mnt[" (text_append p (text_append "]:" r));
}
