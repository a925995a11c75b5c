-- ===== src/Process/Placed.antt =====
-- What InheritFilesForRestore of internal/cedana/process hands over under a key.
use mathlib.Core.List.{append_assoc, append-nil}
use cedana.Base.{
  ℕ, suc, ◌+◌, ◌≡◌, inl, inr, refl, ap, sym, ◌∙◌, String, Option, none, some, List, [], ◌∷◌, ◌++◌,
  length, length-append, Bool-cases, arith,
}
use cedana.Process.Inherit.{Inheriting, is_taken, next_fd, inherit_under}

-- Keys with the descriptors and files that they stand for.
abbrev pub Handed : Type 0
Handed = List (String × ℕ × Option String)

abbrev pub handed_files : Handed → List (Option String)
handed_files [] = []
handed_files ((k, fd, o) ∷ hs) = o ∷ handed_files hs

abbrev pub handed_fds : Handed → List (String × ℕ)
handed_fds [] = []
handed_fds ((k, fd, o) ∷ hs) = (k, fd) ∷ handed_fds hs

handed_files-end :
    (hs : Handed) (k : String) (fd : ℕ) (o : Option String)
    → handed_files (hs ++ (k, fd, o) ∷ []) ≡ handed_files hs ++ o ∷ []
handed_files-end [] k fd o = refl
handed_files-end ((j, e, p) ∷ hs) k fd o = ap (λ xs. p ∷ xs) (handed_files-end hs k fd o)

handed_fds-end :
    (hs : Handed) (k : String) (fd : ℕ) (o : Option String)
    → handed_fds (hs ++ (k, fd, o) ∷ []) ≡ handed_fds hs ++ (k, fd) ∷ []
handed_fds-end [] k fd o = refl
handed_fds-end ((j, e, p) ∷ hs) k fd o = ap (λ xs. (j, e) ∷ xs) (handed_fds-end hs k fd o)

length-handed_files : (hs : Handed) → length (handed_files hs) ≡ length hs
length-handed_files [] = refl
length-handed_files ((j, e, p) ∷ hs) = ap suc (length-handed_files hs)

module _ (Held : String → ℕ → Type 0) where
  -- A file that is opened has the descriptor of its place; a key without one has a descriptor that is
  -- held under the key.
  abbrev pub ArePlaced : ℕ → Handed → Type 0
  ArePlaced n [] = Unit
  ArePlaced n ((k, fd, none) ∷ hs) = Held k fd × ArePlaced (suc n) hs
  ArePlaced n ((k, fd, some p) ∷ hs) = (fd ≡ n) × ArePlaced (suc n) hs

  pub record Hands (s u : Inheriting) : Type 0 where
    pub handed : Handed
    pub files : u.extra_files ≡ s.extra_files ++ handed_files handed
    pub fds : u.inherit_fds ≡ s.inherit_fds ++ handed_fds handed
    pub placed : ArePlaced (3 + length s.extra_files) handed

  pub Hands-refl : (s : Inheriting) → Hands s s
  Hands-refl s = record {
    handed = [];
    files = sym (append-nil s.extra_files);
    fds = sym (append-nil s.inherit_fds);
    placed = tt;
  }

  pub Hands-same :
      (s u v : Inheriting)
      → Hands s u
      → v.extra_files ≡ u.extra_files
      → v.inherit_fds ≡ u.inherit_fds
      → Hands s v
  Hands-same s u v h files fds = record {
    handed = h.handed;
    files = files ∙ h.files;
    fds = fds ∙ h.fds;
    placed = h.placed;
  }

  -- The descriptor that may be handed over next, with a file or without.
  abbrev pub Fits : ℕ → String → ℕ → Option String → Type 0
  Fits n k fd none = Held k fd
  Fits n k fd (some p) = fd ≡ n

  ArePlaced-end :
      (n : ℕ) (hs : Handed) (k : String) (fd : ℕ) (o : Option String)
      → ArePlaced n hs
      → Fits (n + length hs) k fd o
      → ArePlaced n (hs ++ (k, fd, o) ∷ [])
  ArePlaced-end n [] k fd none h f = (f, tt)
  ArePlaced-end n [] k fd (some p) h f = (omega (arith, f), tt)
  ArePlaced-end n ((j, e, none) ∷ hs) k fd none h f =
      (h.0, ArePlaced-end (suc n) hs k fd none h.1 f)
  ArePlaced-end n ((j, e, none) ∷ hs) k fd (some p) h f =
      (h.0, ArePlaced-end (suc n) hs k fd (some p) h.1 (omega (arith, f)))
  ArePlaced-end n ((j, e, some q) ∷ hs) k fd none h f =
      (h.0, ArePlaced-end (suc n) hs k fd none h.1 f)
  ArePlaced-end n ((j, e, some q) ∷ hs) k fd (some p) h f =
      (h.0, ArePlaced-end (suc n) hs k fd (some p) h.1 (omega (arith, f)))

  Fits-next :
      (m n : ℕ) (k : String) (fd : ℕ) (o : Option String) → m ≡ n → Fits m k fd o → Fits n k fd o
  Fits-next m n k fd none e f = f
  Fits-next m n k fd (some p) e f = f ∙ e

  pub inherit_under-Hands :
      (key : String) (fd : ℕ) (o : Option String) (s u : Inheriting)
      → Hands s u
      → Fits (next_fd u) key fd o
      → Hands s (inherit_under key fd o u).0
  unfolding inherit_under
  inherit_under-Hands key fd o s u h f = elim (Bool-cases (is_taken key u)) [
    | inl e ↦ rw e h
    | inr e ↦
        let place : next_fd u ≡ 3 + length s.extra_files + length h.handed = omega (
          arith,
          ap length h.files,
          length-append s.extra_files (handed_files h.handed),
          length-handed_files h.handed,
        ) in
        rw e (record {
          handed = h.handed ++ (key, fd, o) ∷ [];
          files =
              rw (h.files, handed_files-end h.handed key fd o)
                (append_assoc s.extra_files (handed_files h.handed) (o ∷ []));
          fds =
              rw (h.fds, handed_fds-end h.handed key fd o)
                (append_assoc s.inherit_fds (handed_fds h.handed) ((key, fd) ∷ []));
          placed =
              ArePlaced-end (3 + length s.extra_files) h.handed key fd o h.placed (
                Fits-next (next_fd u) (3 + length s.extra_files + length h.handed) key fd o place
                  f);
        })
  ]
