-- ===== src/Tests/Plugs.antt =====
-- pkg/plugins at concrete inputs: one plugin with a library and a binary.
use Prim.Native.String.{◌++◌ as text_append}
use cedana.Base.{◌≡◌, refl, true, false, none, some, [], ◌∷◌, Dict}
use cedana.Io.Compression.{codes}
use cedana.Plugins.Version.{Plugin, supported, external, unknown, installed, sync_version, Versions}
use cedana.Plugins.Files.{FileInfo}
use cedana.Plugins.Local.{Setup, synced}
use cedana.Plugins.Copies.{Disk, not_available, failed, done, install, remove_names, install_plugin}
use cedana.Plugins.Installed.{install_plugin-synced}

abbrev gpu : Plugin
gpu = record {
  name = "gpu";
  type = supported;
  status = unknown;
  version = [];
  available_version = [];
  libraries = record { file_name = "gpu.so"; checksum = []; install_dir = "" } ∷ [];
  binaries = record { file_name = "gpu-controller"; checksum = []; install_dir = "/opt" } ∷ [];
  size = 0;
  published_at = 0;
}

abbrev cuda : Plugin
cuda = record gpu { name = "gpu/cuda"; type = external; libraries = []; binaries = [] }

abbrev versions : Versions
versions = record { symbol = λ n. some (codes "cedana 1.2.3\nbuilt today"); output = λ n. none }

abbrev setup : Setup
setup = record {
  layout = record {
    link = λ d f. text_append d (text_append "/" f);
    lib_dir = "/lib";
    bin_dir = "/bin";
  };
  versions = versions;
  registry = gpu ∷ cuda ∷ [];
  search = "/here" ∷ [];
}

abbrev file : FileInfo
file = record { is_dir = false; file_size = 3; sum = 1 ∷ []; mod_time = 5 }

abbrev sources : Dict FileInfo
sources = ("/here/gpu.so", file) ∷ ("/here/gpu-controller", file) ∷ []

-- A disk on which everything works, and one on which the library cannot be removed.
abbrev disk : Disk
disk = record { removable = λ p. true; copies = λ p. true; left = λ p. none }

-- The version of a plugin with no version of its own is that of its parent.
version_test : sync_version versions (gpu ∷ cuda ∷ []) cuda ≡ codes "v1.2.3"
unfolding sync_version
version_test = refl

install_test : (install setup disk ("gpu" ∷ "x" ∷ []) [] sources).1 ≡ done ∷ not_available ∷ []
unfolding install
install_test = refl

-- The second plugin of a request, where the first cannot be removed.
abbrev stuck : Disk
stuck = record disk { removable = λ p. false }

abbrev both : Dict Plugin
both =
    ("gpu", record gpu { status = installed })
    ∷ ("gpu/cuda", record cuda { status = installed })
    ∷ []

remove_test :
    (remove_names setup stuck both false ("gpu" ∷ "gpu/cuda" ∷ []) (("/lib/gpu.so", file) ∷ [])).1
    ≡ failed ∷ failed ∷ []
unfolding remove_names
remove_test = refl

install_plugin-synced_example :
    (synced setup (install_plugin setup disk "/here" gpu sources).0 gpu).status ≡ installed
unfolding install_plugin
install_plugin-synced_example = install_plugin-synced setup disk "/here" gpu sources refl
