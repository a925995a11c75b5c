-- ===== src/Tests/Streams.antt =====
-- internal/cedana/streamer at concrete inputs.
use mathlib.Core.List.{Perm}
use mathlib.Core.List.Perm
use cedana.Base.{ℕ, List, ◌≡◌, refl, true, none, some, [], ◌∷◌, load}
use cedana.Io.Compression.{codes, ext_for_compression}
use cedana.Streamer.Fs.{
  read_only, write_only, Socket, not_ready, ready, plain, open_fd, open_file, is_root,
}
use cedana.Streamer.File.{write_loop}
use cedana.Streamer.Images.{base, is_image, img_paths, is_streamable}
use cedana.Streamer.Shards.{img_paths-img_paths}
use cedana.Streamer.Fds.{open_file-close_file, after_close}
use cedana.Streamer.Listing.{list_all, list_all_lem, listed}

-- A socket on which the streamer is ready at the second answer, and one that is cut.
abbrev answers : Socket
answers = record {
  pipe = some (5, 6);
  encoded = true;
  size_written = true;
  name_written = true;
  replies = not_ready ∷ ready ∷ [];
  sock_file = some 7;
  fd_sent = true;
}

abbrev cut : Socket
cut = record answers { replies = plain true ∷ [] }

open_test : open_fd read_only answers (3 ∷ []) ≡ (5 ∷ 3 ∷ [], some 5)
unfolding open_fd
open_test = refl

cut_test : open_fd read_only cut (3 ∷ []) ≡ (3 ∷ [], none)
unfolding open_fd
cut_test = refl

write_test : write_loop (1 ∷ 2 ∷ 3 ∷ []) (some 2 ∷ some 1 ∷ []) ≡ (1 ∷ 2 ∷ 3 ∷ [], true)
unfolding write_loop
write_test = refl

paths_test :
    img_paths write_only none (codes "/dump") 2
    ≡ some (codes "/dump/img-0" ∷ codes "/dump/img-1" ∷ [])
unfolding img_paths
paths_test = refl

base_test : base (codes "a/img-1.lz4//") ≡ codes "img-1.lz4"
unfolding base
base_test = refl

open_file-close_file_example : after_close (open_file read_only "a" answers (3 ∷ [])) ≡ 3 ∷ []
open_file-close_file_example =
    open_file-close_file 5 6 (3 ∷ []) refl (refl, tt) (refl, tt) read_only "a" answers refl refl
      (refl, (refl, (refl, tt)))

-- A root that was listed before, when it had one name.
list_all_lem_example :
    list_all 2 0 (some ("a" ∷ "b" ∷ [])) (("*", "x" ∷ []) ∷ []) (listed "/" [] 0) ≡ ("x" ∷ [], true)
unfolding is_root load
list_all_lem_example = list_all_lem 0 (("*", "x" ∷ []) ∷ []) "/" ("a" ∷ "b" ∷ []) refl

-- The shard 1 is listed before the shard 0.
abbrev shuffled : List (List ℕ)
shuffled = codes "img-1.lz4" ∷ codes "img-0.lz4" ∷ codes "a" ∷ []

img_paths-img_paths_example :
    (found : List (List ℕ)) × (img_paths read_only (some shuffled) (codes "/d") 2 ≡ some found)
    × Perm found (codes "/d/img-0.lz4" ∷ codes "/d/img-1.lz4" ∷ [])
    × (is_streamable true (some true) (some shuffled) ≡ some 2)
unfolding ext_for_compression img_paths is_image base
img_paths-img_paths_example =
    img_paths-img_paths (codes "/d") "lz4" (codes ".lz4") 2
      (codes "/d/img-0" ∷ codes "/d/img-1" ∷ []) (codes "a" ∷ []) shuffled refl refl (refl, tt)
      (Perm.swap (codes "img-0.lz4") (codes "img-1.lz4") (codes "a" ∷ []))
