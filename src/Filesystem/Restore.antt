-- ===== src/Filesystem/Restore.antt =====
-- internal/cedana/filesystem/restore_adapters.go: RestoreFilesystem around any handler.
use cedana.Base.{ℕ, Bool, true, false, ◌&&◌, not, List, if◌then◌else◌, is_some}
use cedana.Io.Compression.{compression_from_ext}

-- Whether what the request's path names is there, and whether the temporary directory is.
pub record Places : Type 0 where
  pub dump : Bool
  pub temporary : Bool

-- The configuration and what the calls answer; `remove_ok` is of os.RemoveAll, whose error is dropped.
pub record RestoreCalls : Type 0 where
  pub remote : Bool
  pub is_dir : Bool
  pub mkdir_ok : Bool
  pub chmod_ok : Bool
  pub open_tarball_ok : Bool
  pub untar_ok : Bool
  pub close_ok : Bool
  pub open_dir_ok : Bool
  pub remove_ok : Bool

abbrev pub RestoreHandler : Type 0
RestoreHandler = Places → Places × Bool

-- The function `decompress`.
unfoldable pub decompress : RestoreCalls → List ℕ → Bool
unfolding compression_from_ext
decompress c path =
    is_some (compression_from_ext path) && c.open_tarball_ok && c.untar_ok && c.close_ok

-- From the opening of the directory on, where `direct` says that it is the request's own.
unfoldable pub restore_images : RestoreCalls → Bool → RestoreHandler → Places → Places × Bool
restore_images c direct next w =
    if c.open_dir_ok
    then next w
    else if not c.remove_ok
    then (w, false)
    else ((if direct then record w { dump = false } else record w { temporary = false }), false)

unfoldable pub without_temporary : RestoreCalls → Places × Bool → Places × Bool
without_temporary c (w, good) = (if c.remove_ok then record w { temporary = false } else w, good)

-- From the deferred removal of the temporary directory on.
unfoldable pub restore_extracted : RestoreCalls → List ℕ → RestoreHandler → Places → Places × Bool
unfolding restore_images without_temporary decompress
restore_extracted c path next made =
    without_temporary c
      (if decompress c path then restore_images c false next made else (made, false))

unfoldable pub restore_filesystem : RestoreCalls → List ℕ → RestoreHandler → Places → Places × Bool
restore_filesystem c path next w =
    let made = record w { temporary = true } in
    if not c.remote && not w.dump
    then (w, false)
    else if not c.remote && c.is_dir
    then restore_images c true next w
    else if not c.mkdir_ok
    then (w, false)
    else if not c.chmod_ok
    then (made, false)
    else restore_extracted c path next made
