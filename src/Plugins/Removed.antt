-- ===== src/Plugins/Removed.antt =====
-- pkg/plugins/manager_local.go: what Remove reports once a removal has failed.
use cedana.Base.{
  String, ◌≡◌, refl, Bool, true, false, Option, none, some, List, [], ◌∷◌, All, arith, Dict, load,
}
use cedana.Plugins.Version.{Plugin}
use cedana.Plugins.Files.{FileInfo}
use cedana.Plugins.Local.{Setup}
use cedana.Plugins.Copies.{Disk, Report, done, remove_one, remove_names}

abbrev pub is_done : Report → Bool
is_done done = true
is_done _ = false

module _ (u : Setup) (d : Disk) where
  remove_one-files :
      (o : Option Plugin) (err err' : Bool) (fs : Dict FileInfo)
      → (remove_one u d o err fs).0 ≡ (remove_one u d o err' fs).0
  unfolding remove_one
  remove_one-files none err err' fs = refl
  remove_one-files (some p) err err' fs = ground arith

  remove_one-set :
      (o : Option Plugin) (fs : Dict FileInfo)
      → ((remove_one u d o true fs).1 ≡ true) × (is_done (remove_one u d o true fs).2 ≡ false)
  unfolding remove_one
  remove_one-set none fs = (refl, refl)
  remove_one-set (some p) fs = ground arith

module _ (u : Setup) (d : Disk) (set : Dict Plugin) where
  remove_names-files :
      (ns : List String) (err err' : Bool) (fs : Dict FileInfo)
      → (remove_names u d set err ns fs).0 ≡ (remove_names u d set err' ns fs).0
  unfolding remove_names
  remove_names-files [] err err' fs = refl
  remove_names-files (n ∷ ns) err err' fs = rw (remove_one-files u d (load n set) err err' fs) (
      remove_names-files ns (remove_one u d (load n set) err fs).1
        (remove_one u d (load n set) err' fs).1 (remove_one u d (load n set) err' fs).0)

  remove_names-reports :
      (ns : List String) (fs : Dict FileInfo)
      → All (λ r. is_done r ≡ false) (remove_names u d set true ns fs).1
  unfolding remove_names
  remove_names-reports [] fs = tt
  remove_names-reports (n ∷ ns) fs =
      let (sets, report) = remove_one-set u d (load n set) fs in
      rw sets (report, remove_names-reports ns (remove_one u d (load n set) true fs).0)

  -- Once the removal of one plugin has failed, Remove goes on to remove the files of the plugins named
  -- after it, as if none had failed, but reports none of them as removed.
  pub remove_names-failed :
      (ns : List String) (fs : Dict FileInfo)
      → ((remove_names u d set true ns fs).0 ≡ (remove_names u d set false ns fs).0)
        × All (λ r. is_done r ≡ false) (remove_names u d set true ns fs).1
  remove_names-failed ns fs = (remove_names-files ns true false fs, remove_names-reports ns fs)
