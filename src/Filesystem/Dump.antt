-- ===== src/Filesystem/Dump.antt =====
-- internal/cedana/filesystem/dump_adapters.go: DumpFilesystem around any handler. The calls of the
-- operating system and of the storage enter as whether they succeed; removing what is there succeeds.
use cedana.Base.{
  ℕ, String, str_eq, Bool, true, false, ◌&&◌, ◌||◌, not, Option, none, some, List, ◌∷◌, ◌++◌,
  if◌then◌else◌, is_some,
}
use cedana.Io.Compression.{codes, slash, supported, ext_for_compression}

-- What a tarball in the storage is: written to its end, or cut off.
pub data Tarball : Type 0 where
  whole cut : Tarball

-- The dump directory with whether it is there, the tarball, and whether an upload goes on in the
-- background.
pub record World : Type 0 where
  pub images : Bool
  pub tarball : Option Tarball
  pub uploading : Bool

pub record Request : Type 0 where
  pub req_dir : List ℕ
  pub req_name : List ℕ
  pub compression : String
  pub async_set : Bool
  pub leave_running : Bool

-- The configuration, the storage, and what the calls answer. `create_ok` is also false where the
-- storage leaves nothing behind, `close_ok` is of the tarball, and `flush_ok` of the deferred Close calls of
-- io.Tar on the tar writer and on the compressor, which write what is left and whose errors Tar drops.
pub record Calls : Type 0 where
  pub default_compression : String
  pub default_async : Bool
  pub remote : Bool
  pub dir_exists : Bool
  pub mkdir_ok : Bool
  pub chmod_ok : Bool
  pub open_ok : Bool
  pub statfs_ok : Bool
  pub create_ok : Bool
  pub tar_ok : Bool
  pub flush_ok : Bool
  pub close_ok : Bool
  pub delete_ok : Bool

-- A handler, with the callback that runs in CRIU's post-dump hook, if there is one: the world, and whether
-- it succeeds.
abbrev pub Hook : Type 0
Hook = World → World × Bool

abbrev pub Handler : Type 0
Handler = Option Hook → World → World × Bool

unfoldable pub chosen : Calls → Request → String
chosen c r = if str_eq r.compression "" then c.default_compression else r.compression

-- isFuseFS is asked only of a local path.
unfoldable pub fuse_known : Calls → Bool
fuse_known c = c.remote || c.statfs_ok

-- The function `compress`.
unfoldable pub compress : Calls → World → World × Bool
unfolding fuse_known
compress c w =
    let failed = record w { images = false; tarball = if c.delete_ok then none else some cut } in
    let written = record w {
      images = false;
      tarball = some (if c.flush_ok && c.close_ok then whole else cut);
    } in
    if not (fuse_known c)
    then (w, false)
    else if not c.create_ok
    then (w, false)
    else if not c.tar_ok
    then (failed, false)
    else (written, c.close_ok)

unfoldable pub is_async : Calls → Request → Bool
is_async c r = (r.async_set || c.default_async) && c.remote

-- Whether the dump becomes a tarball.
unfoldable pub is_compressed : Calls → String → Bool
is_compressed c z = c.remote || (not (str_eq z "") && not (str_eq z "none"))

-- The path of the tarball.
unfoldable pub tarball_path : Request → List ℕ → List ℕ
tarball_path r ext = r.req_dir ++ slash ∷ (r.req_name ++ (codes ".tar" ++ ext))

-- The deferred function that starts the upload in the background. (What the upload does is not part of
-- the answer.)
unfoldable pub start_upload : World × Bool → World × Bool
start_upload (w, good) = if good then (record w { uploading = true }, true) else (w, good)

-- The deferred function that compresses after the handler.
unfoldable pub compress_after : Calls → World × Bool → World × Bool
unfolding compress
compress_after c (w, good) = let (w', good') = compress c w in (w', good && good')

-- A dump that becomes a tarball.
unfoldable pub dump_packed : Calls → Request → Handler → World → World × Bool
unfolding start_upload compress_after is_async
dump_packed c r next w =
    if is_async c r
    then start_upload (next none w)
    else if r.leave_running
    then compress_after c (next none w)
    else next (some (compress c)) w

-- What follows once the directory is open: the handler, with the deferred calls around it.
unfoldable pub dump_images : Calls → Request → String → Handler → World → World × Bool
unfolding dump_packed is_compressed ext_for_compression
dump_images c r z next w =
    if not (is_compressed c z)
    then next none w
    else if is_some (ext_for_compression z)
    then dump_packed c r next w
    else (w, false)

-- The deferred removal of the directory.
unfoldable pub clean_up : Calls → Request → World × Bool → World × Bool
unfolding is_async
clean_up c r (w, good) =
    if not good || (c.remote && not (is_async c r))
    then (record w { images = false }, good)
    else (w, good)

-- From the making of the directory on.
unfoldable pub dump_in_directory : Calls → Request → Handler → World → World × Bool
unfolding dump_images clean_up chosen
dump_in_directory c r next made =
    clean_up c r
      (if c.chmod_ok && c.open_ok then dump_images c r (chosen c r) next made else (made, false))

unfoldable pub dump_filesystem : Calls → Request → Handler → World → World × Bool
unfolding dump_in_directory supported chosen
dump_filesystem c r next w =
    if not (supported (chosen c r))
    then (w, false)
    else if not c.dir_exists
    then (w, false)
    else if not c.mkdir_ok
    then (w, false)
    else dump_in_directory c r next (record w { images = true })
