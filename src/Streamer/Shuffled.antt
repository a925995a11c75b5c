-- ===== src/Streamer/Shuffled.antt =====
-- imgPaths of internal/cedana/streamer/fs.go on a directory that is listed in any order: os.ReadDir sorts by
-- the bytes of the names, and other storages list in orders of their own.
use mathlib.Core.Logic.{∥∥₁_elim}
use native.Mathlib.Nat.{ℕ_set}
use mathlib.Core.List.{Perm, Permᴰ, filter_map}
use mathlib.Core.List.Perm
use cedana.Base.{
  ℕ, suc, ◌≡◌, refl, ap, ◌∙◌, Option, none, some, List, [], ◌∷◌, ◌++◌, if◌then◌else◌, length,
  Bool-cases, inl, inr,
}
use cedana.Io.Compression.{slash}
use cedana.Streamer.Images.{base, is_image, matches}

Permᴰ-length : {A : Type 0} {xs ys : List A} → Permᴰ xs ys → length xs ≡ length ys
Permᴰ-length Permᴰ.nil = refl
Permᴰ-length (Permᴰ.cons e p) = ap suc (Permᴰ-length p)
Permᴰ-length (Permᴰ.swap e e') = refl
Permᴰ-length (Permᴰ.trans p q) = Permᴰ-length p ∙ Permᴰ-length q

pub Perm-length : {A : Type 0} {xs ys : List A} → Perm xs ys → length xs ≡ length ys
Perm-length {A} {xs} {ys} p = ∥∥₁_elim p (ℕ_set (length xs) (length ys)) Permᴰ-length

-- The path of an entry of a listing, if it is an image.
abbrev image_at : List ℕ → List ℕ → Option (List ℕ)
image_at dir e = if is_image (base e) then some (dir ++ slash ∷ base e) else none

matches-filter_map :
    (dir : List ℕ) (es : List (List ℕ)) → matches dir es ≡ filter_map (image_at dir) es
unfolding matches filter_map
matches-filter_map dir [] = refl
matches-filter_map dir (e ∷ es) = elim (Bool-cases (is_image (base e))) [
  | inl h ↦ rw (h, matches-filter_map dir es) refl
  | inr h ↦ rw (h, matches-filter_map dir es) refl
]

-- Listings with the same entries have the same images.
pub matches-Perm :
    (dir : List ℕ) {es fs : List (List ℕ)} → Perm es fs → Perm (matches dir es) (matches dir fs)
matches-Perm dir {es} {fs} p =
    rw (matches-filter_map dir es, matches-filter_map dir fs) (Perm.filter_map (image_at dir) p)
