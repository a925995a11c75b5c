-- ===== src/Streamer/Images.antt =====
-- internal/cedana/streamer/fs.go: the shards that a stream is stored in (imgPaths, IsStreamable).
-- Paths are lists of bytes; what ReadDir of the storage lists is a parameter.
use cedana.Base.{
  ℕ, zero, suc, ◌==◌, Bool, true, false, Option, none, some, List, [], ◌∷◌, ◌++◌, if◌then◌else◌,
  length, after_last, decimal,
}
use cedana.Io.Compression.{codes, slash}
use cedana.Streamer.Fs.{Mode, read_only, write_only, invalid}

unfoldable pub without_slashes : List ℕ → List ℕ
without_slashes [] = []
without_slashes (c ∷ cs) = elim (without_slashes cs) [
  | [] ↦ if c == slash then [] else c ∷ []
  | d ∷ ds ↦ c ∷ d ∷ ds
]

-- filepath.Base: the last element of a path.
unfoldable pub base : List ℕ → List ℕ
unfolding without_slashes after_last
base [] = codes "."
base (c ∷ cs) = elim (without_slashes (c ∷ cs)) [
  | [] ↦ codes "/"
  | d ∷ ds ↦ elim (after_last slash (d ∷ ds)) [ none ↦ d ∷ ds | some name ↦ name ]
]

-- The pattern ^img-*: the text `img` at the start, and then any number of dashes, also none.
unfoldable pub is_image : List ℕ → Bool
is_image (a ∷ b ∷ c ∷ rest) = if a == b'i' then (if b == b'm' then c == b'g' else false) else false
is_image _ = false

-- The images of a listing, as paths in the directory.
unfoldable pub matches : List ℕ → List (List ℕ) → List (List ℕ)
unfolding is_image base
matches dir [] = []
matches dir (entry ∷ es) =
    let rest = matches dir es in
    if is_image (base entry) then (dir ++ slash ∷ base entry) ∷ rest else rest

-- The shards that a dump writes, from the number `i` on.
unfoldable pub new_paths : List ℕ → ℕ → ℕ → List (List ℕ)
unfolding decimal
new_paths dir i zero = []
new_paths dir i (suc n) = (dir ++ slash ∷ (codes "img-" ++ decimal i)) ∷ new_paths dir (suc i) n

unfoldable pub img_paths : Mode → Option (List (List ℕ)) → List ℕ → ℕ → Option (List (List ℕ))
unfolding matches new_paths
img_paths read_only none dir streams = none
img_paths read_only (some list) dir streams =
    if length (matches dir list) == streams then some (matches dir list) else none
img_paths write_only listing dir streams = some (new_paths dir 0 streams)
img_paths (invalid m) listing dir streams = none

unfoldable pub count_images : List (List ℕ) → ℕ
unfolding is_image base
count_images [] = 0
count_images (entry ∷ es) =
    let rest = count_images es in if is_image (base entry) then suc rest else rest

-- IsStreamable: whether there is a storage, what its IsDir answers, and what its ReadDir lists. (A
-- directory has fewer than 2^31 entries.)
unfoldable pub is_streamable : Bool → Option Bool → Option (List (List ℕ)) → Option ℕ
unfolding count_images
is_streamable false is_dir listing = none
is_streamable true none listing = none
is_streamable true (some false) listing = some 0
is_streamable true (some true) none = none
is_streamable true (some true) (some list) = some (count_images list)
