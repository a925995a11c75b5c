-- ===== src/Filesystem/Lost.antt =====
-- internal/cedana/filesystem: a dump that failed and is stored all the same, and when a restore deletes the
-- dump that it reads.
use cedana.Base.{
  ℕ, ◌≡◌, refl, Bool, true, false, ◌&&◌, ◌||◌, not, none, some, List, if◌then◌else◌, is_some, arith,
}
use cedana.Io.Compression.{ext_for_compression, supported}
use cedana.Filesystem.Dump.{
  World, whole, Request, Calls, Handler, chosen, compress, fuse_known, is_async, is_compressed,
  compress_after, dump_packed, dump_images, clean_up, dump_in_directory, dump_filesystem,
}
use cedana.Filesystem.Restore.{
  Places, RestoreCalls, RestoreHandler, restore_images, restore_extracted, restore_filesystem,
  without_temporary,
}

-- The calls that a dump makes all succeed.
pub record Works (c : Calls) : Type 0 where
  pub dir_exists : c.dir_exists ≡ true
  pub mkdir_ok : c.mkdir_ok ≡ true
  pub chmod_ok : c.chmod_ok ≡ true
  pub open_ok : c.open_ok ≡ true
  pub statfs_ok : c.statfs_ok ≡ true
  pub create_ok : c.create_ok ≡ true
  pub tar_ok : c.tar_ok ≡ true
  pub flush_ok : c.flush_ok ≡ true
  pub close_ok : c.close_ok ≡ true

module _ (c : Calls) (works : Works c) where
  compress-Works :
      (v : World) → compress c v ≡ (record v { images = false; tarball = some whole }, true)
  unfolding compress fuse_known
  compress-Works v =
      ground (arith, works.statfs_ok, works.create_ok, works.tar_ok, works.flush_ok, works.close_ok)

  -- A dump of a process that is to go on running, of a format that has a tarball and not in the
  -- background, for which the handler fails although all calls of the system work: it is reported as an
  -- error, and yet a whole tarball of what is in the directory is left in the storage.
  pub dump_filesystem-failed :
      (r : Request) (next : Handler) (w v : World)
      → supported (chosen c r) ≡ true
      → is_compressed c (chosen c r) ≡ true
      → is_some (ext_for_compression (chosen c r)) ≡ true
      → is_async c r ≡ false
      → r.leave_running ≡ true
      → next none (record w { images = true }) ≡ (v, false)
      → dump_filesystem c r next w ≡ (record v { images = false; tarball = some whole }, false)
  unfolding dump_filesystem dump_in_directory dump_images dump_packed compress_after clean_up
  dump_filesystem-failed r next w v s z x a l e =
      rw
        (
          s,
          works.dir_exists,
          works.mkdir_ok,
          works.chmod_ok,
          works.open_ok,
          z,
          x,
          a,
          l,
          e,
          compress-Works v,
        )
        refl

-- A handler of restores that does not delete the dump.
abbrev pub KeepsDump : RestoreHandler → Type 0
KeepsDump next = (w : Places) → (next w).0.dump ≡ w.dump

restore_images-dump :
    (c : RestoreCalls) (direct : Bool) (next : RestoreHandler) (w : Places)
    → KeepsDump next
    → w.dump ≡ true
    → (restore_images c direct next w).0.dump
      ≡ (if direct then c.open_dir_ok || not c.remove_ok else true)
unfolding restore_images
restore_images-dump c direct next w keeps d = ground (arith, keeps w, d)

restore_extracted-dump :
    (c : RestoreCalls) (path : List ℕ) (next : RestoreHandler) (w : Places)
    → KeepsDump next
    → w.dump ≡ true
    → (restore_extracted c path next w).0.dump ≡ true
unfolding restore_extracted without_temporary
restore_extracted-dump c path next w keeps d =
    ground (arith, restore_images-dump c false next w keeps d, d)

-- A restore of a dump that is there, around a handler that keeps it, deletes the dump exactly if it is a
-- directory that is read directly, and that cannot be opened but can be removed.
pub restore_filesystem-dump :
    (c : RestoreCalls) (path : List ℕ) (next : RestoreHandler) (w : Places)
    → KeepsDump next
    → w.dump ≡ true
    → (restore_filesystem c path next w).0.dump
      ≡ (if not c.remote && c.is_dir then c.open_dir_ok || not c.remove_ok else true)
unfolding restore_filesystem
restore_filesystem-dump c path next w keeps d = ground (
  arith,
  d,
  restore_images-dump c true next w keeps d,
  restore_extracted-dump c path next (record w { temporary = true }) keeps d,
)
