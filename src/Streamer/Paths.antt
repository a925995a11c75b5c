-- ===== src/Streamer/Paths.antt =====
-- filepath.Base as imgPaths and IsStreamable of internal/cedana/streamer/fs.go use it.
use cedana.Base.{
  ℕ, ◌≡◌, refl, none, some, List, [], ◌∷◌, ◌++◌, Lacks, after_last, after_last-append,
}
use cedana.Io.Compression.{slash}
use cedana.Streamer.Images.{without_slashes, base}

after_last-Lacks : (b : ℕ) (xs : List ℕ) → Lacks b xs → after_last b xs ≡ none
unfolding after_last
after_last-Lacks b [] h = refl
after_last-Lacks b (x ∷ xs) h = rw (after_last-Lacks b xs h.1, h.0) refl

without_slashes-append :
    (xs : List ℕ) (y : ℕ) (ys : List ℕ)
    → without_slashes (y ∷ ys) ≡ y ∷ ys
    → without_slashes (xs ++ y ∷ ys) ≡ xs ++ y ∷ ys
unfolding without_slashes
without_slashes-append [] y ys h = h
without_slashes-append (x ∷ []) y ys h = rw h refl
without_slashes-append (x ∷ z ∷ xs) y ys h = rw (without_slashes-append (z ∷ xs) y ys h) refl

without_slashes-Lacks :
    (c : ℕ) (cs : List ℕ) → Lacks slash (c ∷ cs) → without_slashes (c ∷ cs) ≡ c ∷ cs
unfolding without_slashes
without_slashes-Lacks c [] h = rw h.0 refl
without_slashes-Lacks c (d ∷ ds) h = rw (without_slashes-Lacks d ds h.1) refl

base_lem :
    (c : ℕ) (cs : List ℕ)
    → without_slashes (c ∷ cs) ≡ c ∷ cs
    → base (c ∷ cs) ≡ elim (after_last slash (c ∷ cs)) [ none ↦ c ∷ cs | some name ↦ name ]
unfolding base
base_lem c cs h = rw (h, base) refl

-- A name without a slash is its own last element.
pub base-name : (c : ℕ) (cs : List ℕ) → Lacks slash (c ∷ cs) → base (c ∷ cs) ≡ c ∷ cs
base-name c cs h =
    rw (base_lem c cs (without_slashes-Lacks c cs h), after_last-Lacks slash (c ∷ cs) h) refl

-- A name without a slash is the last element of its path in a directory.
pub base-path :
    (dir : List ℕ) (c : ℕ) (cs : List ℕ)
    → Lacks slash (c ∷ cs)
    → base (dir ++ slash ∷ c ∷ cs) ≡ c ∷ cs
base-path [] c cs h =
    rw
      (
        base_lem slash (c ∷ cs)
            (without_slashes-append (slash ∷ []) c cs (without_slashes-Lacks c cs h)),
        after_last-append slash [] (c ∷ cs) h,
      )
      refl
base-path (d ∷ ds) c cs h =
    rw
      (
        base_lem d (ds ++ slash ∷ c ∷ cs) (
            without_slashes-append (d ∷ ds) slash (c ∷ cs)
              (without_slashes-append (slash ∷ []) c cs (without_slashes-Lacks c cs h))),
        after_last-append slash (d ∷ ds) (c ∷ cs) h,
      )
      refl
