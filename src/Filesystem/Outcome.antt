-- ===== src/Filesystem/Outcome.antt =====
-- internal/cedana/filesystem: what a dump and a restore leave behind, on every outcome.
use cedana.Base.{◌≡◌, ◌⊎◌, Bool, true, false, if◌then◌else◌, none, some}
use cedana.Filesystem.Dump.{
  World, Tarball, whole, cut, Request, Calls, Hook, Handler, chosen, is_async, is_compressed,
}

-- A handler that leaves the dump directory and the storage to the hook that it is given, and that
-- succeeds only if the hook does.
pub record LeavesToHook (next : Handler) : Type 0 where
  pub without : (w : World) → (next none w).0 ≡ w
  pub within : (h : Hook) (w : World) → (next (some h) w).1 ≡ true → next (some h) w ≡ h w

-- The tarball of an io.Tar that reports no error.
abbrev pub written : Calls → Tarball
written c = if c.flush_ok then whole else cut

-- Where a dump is, by whether it becomes a tarball, and whether it does so in the background: in its
-- directory, from which the upload may read it, or in a tarball, which is whole exactly if the calls of
-- Close in io.Tar worked.
abbrev pub Stored : Calls → Bool → Bool → World → Type 0
Stored c false a w = w.images ≡ true
Stored c true true w = (w.images ≡ true) × (w.uploading ≡ true)
Stored c true false w = (w.images ≡ false) × (w.tarball ≡ some (written c))

abbrev Outcome : Calls → Request → World → World × Bool → Type 0
Outcome c r w d =
    ((d.1 ≡ true) × Stored c (is_compressed c (chosen c r)) (is_async c r) d.0)
    ⊎ ((d.1 ≡ false) × ((d.0.images ≡ false) ⊎ (d.0 ≡ w)))
