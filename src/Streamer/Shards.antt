-- ===== src/Streamer/Shards.antt =====
-- The shards of imgPaths and IsStreamable of internal/cedana/streamer/fs.go, from a dump to a restore.
use mathlib.Core.List.{append-nil, append_assoc, Perm}
use cedana.Base.{
  ℕ, String, zero, suc, ◌==◌, ◌≡◌, refl, sym, ap, subst, ◌∙◌, ◌↔◌, true, false, none, some, List,
  [], ◌∷◌, ◌++◌, map, arith, All, All-map, All-append, length, Lacks, decimal, decimal-digits,
  is_digit,
}
use cedana.Io.Compression.{codes, slash, ext_for_compression}
use cedana.Streamer.Fs.{read_only, write_only}
use cedana.Streamer.Images.{
  base, is_image, matches, new_paths, img_paths, count_images, is_streamable,
}
use cedana.Streamer.Paths.{base-name, base-path}
use cedana.Streamer.Shuffled.{Perm-length, matches-Perm}

length-matches : (dir : List ℕ) (es : List (List ℕ)) → length (matches dir es) ≡ count_images es
unfolding matches count_images
length-matches dir [] = refl
length-matches dir (e ∷ es) = ground (arith, length-matches dir es)

-- A restore with `n` streams finds its shards in a directory exactly if `n` is the number of streams
-- that IsStreamable answers for it.
pub img_paths-is_streamable :
    (dir : List ℕ) (es : List (List ℕ)) (n : ℕ)
    → (img_paths read_only (some es) dir n ≡ some (matches dir es))
      ↔ (is_streamable true (some true) (some es) ≡ some n)
unfolding img_paths is_streamable
img_paths-is_streamable dir es n =
    (ground (arith, length-matches dir es), ground (arith, length-matches dir es))

digits-Lacks : (cs : List ℕ) → All (λ c. is_digit c ≡ true) cs → Lacks slash cs
digits-Lacks = All-map (λ c. is_digit c ≡ true) (λ c. (c == slash) ≡ false) (λ c d. ground arith)

extension-Lacks : (c : String) (ext : List ℕ) → ext_for_compression c ≡ some ext → Lacks slash ext
unfolding ext_for_compression
extension-Lacks c ext h = ground arith

-- The names of the shards from the number `i` on.
abbrev shard_name : List ℕ → ℕ → List ℕ
shard_name ext i = codes "img-" ++ (decimal i ++ ext)

shard_name-is_image : (ext : List ℕ) (i : ℕ) → is_image (shard_name ext i) ≡ true
unfolding is_image
shard_name-is_image ext i = refl

matches_lem :
    (dir e : List ℕ) (es : List (List ℕ))
    → base e ≡ e
    → is_image e ≡ true
    → matches dir (e ∷ es) ≡ (dir ++ slash ∷ e) ∷ matches dir es
unfolding matches
matches_lem dir e es h k = rw (h, k) refl

new_paths-zero : (dir : List ℕ) (i : ℕ) → new_paths dir i 0 ≡ []
unfolding new_paths
new_paths-zero dir i = refl

new_paths-suc :
    (dir : List ℕ) (i n : ℕ)
    → new_paths dir i (suc n)
      ≡ (dir ++ slash ∷ (codes "img-" ++ decimal i)) ∷ new_paths dir (suc i) n
unfolding new_paths
new_paths-suc dir i n = refl

module _ (dir ext : List ℕ) (lacks : Lacks slash ext) where
  shard-Lacks : (i : ℕ) → Lacks slash (shard_name ext i)
  shard-Lacks i = (
    refl,
    (
      refl,
      (
        refl,
        (
          refl,
          All-append (λ c. (c == slash) ≡ false) (decimal i) ext
              (digits-Lacks (decimal i) (decimal-digits i)) lacks,
        ),
      ),
    ),
  )

  base-shard :
      (i : ℕ) → base ((dir ++ slash ∷ (codes "img-" ++ decimal i)) ++ ext) ≡ shard_name ext i
  base-shard i =
      rw (append_assoc dir (slash ∷ (codes "img-" ++ decimal i)) ext)
        (base-path dir 105 (109 ∷ 103 ∷ 45 ∷ (decimal i ++ ext)) (shard-Lacks i))

  matches-shard :
      (i : ℕ) (es : List (List ℕ))
      → matches dir (base ((dir ++ slash ∷ (codes "img-" ++ decimal i)) ++ ext) ∷ es)
        ≡ ((dir ++ slash ∷ (codes "img-" ++ decimal i)) ++ ext) ∷ matches dir es
  matches-shard i es =
      rw
        (
          base-shard i,
          matches_lem dir (shard_name ext i) es
              (base-name 105 (109 ∷ 103 ∷ 45 ∷ (decimal i ++ ext)) (shard-Lacks i))
              (shard_name-is_image ext i),
          append_assoc dir (slash ∷ (codes "img-" ++ decimal i)) ext,
        )
        refl

  matches-shards :
      (n i : ℕ) (post : List (List ℕ))
      → matches dir (map (λ p. base (p ++ ext)) (new_paths dir i n) ++ post)
        ≡ map (λ p. p ++ ext) (new_paths dir i n) ++ matches dir post
  matches-shards zero i post = rw (new_paths-zero dir i) refl
  matches-shards (suc n) i post =
      rw
        (
          new_paths-suc dir i n,
          matches-shard i (map (λ p. base (p ++ ext)) (new_paths dir (suc i) n) ++ post),
          matches-shards n (suc i) post,
        )
        refl

matches-only :
    (dir : List ℕ) (post : List (List ℕ))
    → All (λ e. is_image (base e) ≡ false) post
    → matches dir post ≡ []
unfolding matches
matches-only dir [] h = refl
matches-only dir (e ∷ post) h = rw h.0 (matches-only dir post h.1)

length-new_paths :
    (dir : List ℕ) (i n : ℕ) (f : List ℕ → List ℕ) → length (map f (new_paths dir i n)) ≡ n
unfolding new_paths
length-new_paths dir i zero f = refl
length-new_paths dir i (suc n) f = omega (arith, length-new_paths dir (suc i) n f)

read_paths :
    (dir ext : List ℕ) (n : ℕ) (others : List (List ℕ))
    → Lacks slash ext
    → All (λ e. is_image (base e) ≡ false) others
    → matches dir (map (λ p. base (p ++ ext)) (new_paths dir 0 n) ++ others)
      ≡ map (λ p. p ++ ext) (new_paths dir 0 n)
read_paths dir ext n others lacks h =
    rw
      (
        matches-shards dir ext lacks n 0 others,
        matches-only dir others h,
        append-nil (map (λ p. p ++ ext) (new_paths dir 0 n)),
      )
      refl

written_paths :
    (dir : List ℕ) (n : ℕ) (paths : List (List ℕ))
    → img_paths write_only none dir n ≡ some paths
    → new_paths dir 0 n ≡ paths
unfolding img_paths
written_paths dir n paths e = ground arith

found_paths :
    (dir ext : List ℕ) (n : ℕ) (paths others listing : List (List ℕ))
    → Lacks slash ext
    → new_paths dir 0 n ≡ paths
    → All (λ e. is_image (base e) ≡ false) others
    → Perm listing (map (λ p. base (p ++ ext)) paths ++ others)
    → Perm (matches dir listing) (map (λ p. p ++ ext) paths) × (length (matches dir listing) ≡ n)
found_paths dir ext n paths others listing lacks w h p =
    let q : Perm (matches dir listing) (map (λ p. p ++ ext) paths) =
      subst (Perm (matches dir listing))
        (subst
          (λ ps. matches dir (map (λ p. base (p ++ ext)) ps ++ others) ≡ map (λ p. p ++ ext) ps) w
          (read_paths dir ext n others lacks h))
        (matches-Perm dir p) in
    (
      q,
      Perm-length q
          ∙ ap (λ ps. length (map (λ p. p ++ ext) ps)) (sym w)
          ∙ length-new_paths dir 0 n (λ p. p ++ ext),
    )

restored_paths :
    (dir : List ℕ) (listing : List (List ℕ)) (n : ℕ)
    → length (matches dir listing) ≡ n
    → img_paths read_only (some listing) dir n ≡ some (matches dir listing)
unfolding img_paths
restored_paths dir listing n h = ground arith

-- A dump with `n` streams and a supported compression names its shards. A restore that lists the
-- directory, in any order and with other files that are not images, takes exactly these files, under
-- the extension of the compression and in some order; IsStreamable answers `n`.
pub img_paths-img_paths :
    (dir : List ℕ) (c : String) (ext : List ℕ) (n : ℕ) (paths others listing : List (List ℕ))
    → ext_for_compression c ≡ some ext
    → img_paths write_only none dir n ≡ some paths
    → All (λ e. is_image (base e) ≡ false) others
    → Perm listing (map (λ p. base (p ++ ext)) paths ++ others)
    → (found : List (List ℕ)) × (img_paths read_only (some listing) dir n ≡ some found)
      × Perm found (map (λ p. p ++ ext) paths)
      × (is_streamable true (some true) (some listing) ≡ some n)
img_paths-img_paths dir c ext n paths others listing x e h p =
    let (same, count) =
      found_paths dir ext n paths others listing (extension-Lacks c ext x)
        (written_paths dir n paths e) h p in
    let read = restored_paths dir listing n count in
    (matches dir listing, read, same, (img_paths-is_streamable dir listing n).0 read)
