-- ===== src/Tests/Dumps.antt =====
-- internal/cedana/filesystem at concrete inputs.
use cedana.Base.{◌≡◌, refl, true, false, none, some}
use cedana.Io.Compression.{codes}
use cedana.Filesystem.Dump.{World, whole, Request, Calls, Handler, dump_filesystem, tarball_path}
use cedana.Filesystem.Lost.{Works}

-- Everything works, and the storage is local.
abbrev calls : Calls
calls = record {
  default_compression = "lz4";
  default_async = false;
  remote = false;
  dir_exists = true;
  mkdir_ok = true;
  chmod_ok = true;
  open_ok = true;
  statfs_ok = true;
  create_ok = true;
  tar_ok = true;
  flush_ok = true;
  close_ok = true;
  delete_ok = true;
}

abbrev request : Request
request = record {
  req_dir = codes "/d";
  req_name = codes "a";
  compression = "";
  async_set = false;
  leave_running = false;
}

abbrev running : Request
running = record request { leave_running = true }

abbrev before : World
before = record { images = false; tarball = none; uploading = false }

-- A handler that runs its hook, and one that fails.
abbrev dumps : Handler
dumps none w = (w, true)
dumps (some h) w = h w

abbrev fails : Handler
fails h w = (w, false)

calls-Works : Works calls
calls-Works = record {
  dir_exists = refl;
  mkdir_ok = refl;
  chmod_ok = refl;
  open_ok = refl;
  statfs_ok = refl;
  create_ok = refl;
  tar_ok = refl;
  flush_ok = refl;
  close_ok = refl;
}

dump_test :
    dump_filesystem calls request dumps before ≡ (record before { tarball = some whole }, true)
unfolding dump_filesystem
dump_test = refl

-- A dump without compression stays in its directory.
plain_test :
    dump_filesystem calls (record request { compression = "none" }) dumps before
    ≡ (record before { images = true }, true)
unfolding dump_filesystem
plain_test = refl

path_test : tarball_path request (codes ".lz4") ≡ codes "/d/a.tar.lz4"
unfolding tarball_path
path_test = refl
