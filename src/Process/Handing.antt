-- ===== src/Process/Handing.antt =====
-- What InheritFilesForRestore of internal/cedana/process hands over to CRIU.
use cedana.Base.{
  ℕ, ◌==◌, ◌≡◌, ◌⊎◌, In, inl, inr, refl, subst, String, Bool, true, false, ◌&&◌, ◌||◌, Option, none,
  some, List, [], ◌∷◌, ◌++◌, Bool-cases, arith,
}
use cedana.Process.Node.{File}
use cedana.Process.Forest.{Tree}
use cedana.Process.Trees.{walk_list_keeps_in, walk_tree, tree_values, walk_tree_lem}
use cedana.Process.Inherit.{
  Restoring, Inheriting, mem, is_external, is_taken, next_fd, inherit_under, inherit_external,
  open_external, serve_standard, standard, inherit_internal, inherit_open_file, note_mount,
  inherit_process_files,
}
use cedana.Process.Placed.{Hands, Hands-refl, Hands-same, inherit_under-Hands}

-- A descriptor that an open file of the tree has, under its key as a terminal or as a standard file.
abbrev pub HeldBy : Restoring → Tree → String → ℕ → Type 0
HeldBy r t key fd =
    (f : File) × In f (tree_values (λ p. p.open_files) t)
    × (f.fd ≡ fd)
    × ((key ≡ r.tty_key f.rdev f.dev) ⊎ (key ≡ r.trim_slash f.path))

module _ (r : Restoring) (t : Tree) (s : Inheriting) where
  open_external-Hands :
      (key : String) (f : File) (u : Inheriting) (b : Bool)
      → Hands (HeldBy r t) s u
      → Hands (HeldBy r t) s (open_external key f u b).0
  open_external-Hands key f u true h =
      inherit_under-Hands (HeldBy r t) key (next_fd u) (some f.path) s
        (record u { error = false; to_close = u.to_close ++ f.path ∷ [] })
        (Hands-same (HeldBy r t) s u _ h refl refl) refl
  open_external-Hands key f u false h =
      Hands-same (HeldBy r t) s u (record u { error = true }) h refl refl

  inherit_external-Hands :
      (f : File) (u : Inheriting)
      → Hands (HeldBy r t) s u
      → Hands (HeldBy r t) s (inherit_external r f u).0
  unfolding inherit_external
  inherit_external-Hands f u h =
      let key : String = r.external_key f.mount_id f.inode in
      elim (Bool-cases (f.mount_id == 0 && f.inode == 0)) [
        | inl e ↦ rw e h
        | inr e ↦ elim (Bool-cases (is_taken key u)) [
          | inl g ↦ rw (e, g) h
          | inr g ↦ rw (e, g) (open_external-Hands key f u (r.can_open f.path) h)
        ]
      ]

  serve_standard-Hands :
      (f : File) (u : Inheriting) (o : Option String)
      → Hands (HeldBy r t) s u
      → Hands (HeldBy r t) s (serve_standard r f u o).0
  serve_standard-Hands f u none h = unfold inherit_under in h
  serve_standard-Hands f u (some own) h =
      inherit_under-Hands (HeldBy r t) (r.trim_slash f.path) (next_fd u) (some own) s u h refl

  inherit_internal-Hands :
      (f : File) (u : Inheriting)
      → In f (tree_values (λ p. p.open_files) t)
      → Hands (HeldBy r t) s u
      → Hands (HeldBy r t) s (inherit_internal r f u).0
  unfolding inherit_internal
  inherit_internal-Hands f u i h =
      let wanted : Bool =
        (f.fd == 0 && r.attachable) || ((f.fd == 1 || f.fd == 2) && (r.attachable || r.has_log)) in
      elim (Bool-cases r.serverless) [
        | inl e ↦ rw e (serve_standard-Hands f u (standard f.fd) h)
        | inr e ↦ elim (Bool-cases f.is_tty) [
          | inl g ↦ rw (e, g) (Hands-same (HeldBy r t) s u (record u { error = true }) h refl refl)
          | inr g ↦ elim (Bool-cases wanted) [
            | inl w ↦
                rw (e, g, w)
                  (inherit_under-Hands (HeldBy r t) (r.trim_slash f.path) f.fd none s u h
                    (f, i, refl, inr refl))
            | inr w ↦ rw (e, g, w) (unfold inherit_under in h)
          ]
        ]
      ]

  inherit_open_file-Hands :
      (mounts : List ℕ) (f : File) (u : Inheriting)
      → In f (tree_values (λ p. p.open_files) t)
      → Hands (HeldBy r t) s u
      → Hands (HeldBy r t) s (inherit_open_file r mounts f u).0
  unfolding inherit_open_file
  inherit_open_file-Hands mounts f u i h = elim (Bool-cases (is_external r mounts f)) [
    | inl e ↦ elim (Bool-cases f.is_tty) [
      | inl g ↦
          rw (e, g)
            (inherit_under-Hands (HeldBy r t) (r.tty_key f.rdev f.dev) f.fd none s u h
              (f, i, refl, inl refl))
      | inr g ↦ rw (e, g) (inherit_external-Hands f u h)
    ]
    | inr e ↦ elim (Bool-cases (mem f.fd u.visited)) [
      | inl g ↦ rw (e, g) h
      | inr g ↦
          rw (e, g)
            (inherit_internal-Hands f (record u { visited = f.fd ∷ u.visited }) i
              (Hands-same (HeldBy r t) s u _ h refl refl))
    ]
  ]

-- A restore hands files to CRIU in places: a file that the adapter opens, or one of the daemon's
-- own standard files, under the descriptor of its place among the files that the new process inherits,
-- after the three standard ones; a key without one keeps its place empty, and its descriptor is that of an
-- open file of the process tree with this key, as a terminal or by its path.
pub inherit_process_files-Hands :
    (r : Restoring) (t : Tree) (s u : Inheriting)
    → inherit_process_files r t s ≡ some u
    → Hands (HeldBy r t) s u
unfolding inherit_process_files
inherit_process_files-Hands r t s u e =
    let mounts : List ℕ = (walk_tree (λ p. p.mounts) note_mount t []).0 in
    let f : File → Inheriting → Inheriting × Bool = inherit_open_file r mounts in
    let v : Inheriting = (walk_tree (λ p. p.open_files) f t s).0 in
    let h : Hands (HeldBy r t) s v = rw (walk_tree_lem (λ p. p.open_files) f t s) (
      walk_list_keeps_in (Hands (HeldBy r t) s) f (tree_values (λ p. p.open_files) t)
        (λ a w i. inherit_open_file-Hands r t s mounts a w i) s (Hands-refl (HeldBy r t) s)) in
    elim (Bool-cases v.error) [
      | inl g ↦ ground (arith, g, e)
      | inr g ↦ let same : v ≡ u = ground (arith, g, e) in subst (Hands (HeldBy r t) s) same h
    ]
