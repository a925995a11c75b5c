-- ===== src/Process/Unopened.antt =====
-- An external file that cannot be opened, in InheritFilesForRestore of internal/cedana/process.
use cedana.Base.{
  ℕ, ◌==◌, ◌≡◌, refl, ap, ◌∙◌, String, Bool, true, false, ◌&&◌, ◌||◌, Option, none, some, List, [],
  ◌∷◌, ◌++◌, All, Bool-cases, inl, inr,
}
use cedana.Process.Node.{File}
use cedana.Process.Forest.{Tree}
use cedana.Process.Trees.{
  go_on, go_on_keeps, walk_list, walk_list-append, walk_tree, tree_values, walk_tree_lem,
}
use cedana.Process.Inherit.{
  Restoring, Inheriting, mem, is_external, is_taken, inherit_under, inherit_external,
  serve_standard, standard, inherit_internal, inherit_open_file, note_mount, inherit_process_files,
}

inherit_under-error :
    (key : String) (fd : ℕ) (o : Option String) (s : Inheriting)
    → (inherit_under key fd o s).0.error ≡ s.error
unfolding inherit_under
inherit_under-error key fd o s = elim (Bool-cases (is_taken key s)) [
  | inl e ↦ rw e refl
  | inr e ↦ rw e refl
]

serve_standard-error :
    (r : Restoring) (f : File) (s : Inheriting) (o : Option String)
    → (serve_standard r f s o).0.error ≡ s.error
serve_standard-error r f s none = inherit_under-error "" 0 none s
serve_standard-error r f s (some own) = inherit_under-error _ _ (some own) s

inherit_internal-error :
    (r : Restoring) (f : File) (s : Inheriting)
    → s.error ≡ true
    → (inherit_internal r f s).0.error ≡ true
unfolding inherit_internal
inherit_internal-error r f s e =
    let wanted : Bool =
      (f.fd == 0 && r.attachable) || ((f.fd == 1 || f.fd == 2) && (r.attachable || r.has_log)) in
    elim (Bool-cases r.serverless) [
      | inl a ↦ rw a (serve_standard-error r f s (standard f.fd) ∙ e)
      | inr a ↦ elim (Bool-cases f.is_tty) [
        | inl b ↦ rw (a, b) refl
        | inr b ↦ elim (Bool-cases wanted) [
          | inl w ↦ rw (a, b, w) (inherit_under-error (r.trim_slash f.path) f.fd none s ∙ e)
          | inr w ↦ rw (a, b, w) (inherit_under-error "" 0 none s ∙ e)
        ]
      ]
    ]

module _ (r : Restoring) (mounts : List ℕ) where
  inherit_open_file-error :
      (f : File) (s : Inheriting)
      → is_external r mounts f ≡ false
      → s.error ≡ true
      → (inherit_open_file r mounts f s).0.error ≡ true
  unfolding inherit_open_file
  inherit_open_file-error f s x e = elim (Bool-cases (mem f.fd s.visited)) [
    | inl a ↦ rw (x, a) e
    | inr a ↦ rw (x, a) (inherit_internal-error r f (record s { visited = f.fd ∷ s.visited }) e)
  ]

  walk_list-error :
      (gs : List File) (s : Inheriting)
      → All (λ g. is_external r mounts g ≡ false) gs
      → s.error ≡ true
      → (walk_list (inherit_open_file r mounts) gs s).0.error ≡ true
  unfolding walk_list
  walk_list-error [] s x e = e
  walk_list-error (g ∷ gs) s x e =
      go_on_keeps (λ u. u.error ≡ true) (inherit_open_file r mounts g s)
        (walk_list (inherit_open_file r mounts) gs) (inherit_open_file-error g s x.0 e)
        (λ u p. walk_list-error gs u x.1 p)

  unopened :
      (f : File) (u : Inheriting)
      → is_external r mounts f ≡ true
      → f.is_tty ≡ false
      → (f.mount_id == 0 && f.inode == 0) ≡ false
      → is_taken (r.external_key f.mount_id f.inode) u ≡ false
      → r.can_open f.path ≡ false
      → inherit_open_file r mounts f u ≡ (record u { error = true }, true)
  unfolding inherit_open_file inherit_external
  unopened f u x tty known new closed = rw (x, tty, known, new, closed) refl

abbrev pub mount_ids : Tree → List ℕ
mount_ids t = (walk_tree (λ p. p.mounts) note_mount t []).0

-- A file outside the mounts of the process that cannot be opened, which the code passes over with a
-- warning, makes the restore fail all the same if no file after it is outside the mounts: the error is
-- only reset by a later file that can be opened. (The file is no terminal, its mount and inode are known,
-- and its key is not taken when the walk comes to it.)
pub inherit_process_files-unopened :
    (r : Restoring) (t : Tree) (fs gs : List File) (f : File) (s u : Inheriting)
    → tree_values (λ p. p.open_files) t ≡ fs ++ f ∷ gs
    → walk_list (inherit_open_file r (mount_ids t)) fs s ≡ (u, true)
    → is_external r (mount_ids t) f ≡ true
    → f.is_tty ≡ false
    → (f.mount_id == 0 && f.inode == 0) ≡ false
    → is_taken (r.external_key f.mount_id f.inode) u ≡ false
    → r.can_open f.path ≡ false
    → All (λ g. is_external r (mount_ids t) g ≡ false) gs
    → inherit_process_files r t s ≡ none
unfolding inherit_process_files walk_list
inherit_process_files-unopened r t fs gs f s u files before x tty known new closed quiet =
    let g : File → Inheriting → Inheriting × Bool = inherit_open_file r (mount_ids t) in
    let here : g f u ≡ (record u { error = true }, true) =
      unopened r (mount_ids t) f u x tty known new closed in
    let whole : walk_tree (λ p. p.open_files) g t s ≡ walk_list g gs (record u { error = true }) =
      walk_tree_lem (λ p. p.open_files) g t s
      ∙ ap (λ xs. walk_list g xs s) files
      ∙ walk_list-append g fs (f ∷ gs) s
      ∙ ap (λ q. go_on q (walk_list g (f ∷ gs))) before
      ∙ ap (λ q. go_on q (walk_list g gs)) here in
    let failed : (walk_tree (λ p. p.open_files) g t s).0.error ≡ true =
      ap (λ q. q.0.error) whole
      ∙ walk_list-error r (mount_ids t) gs (record u { error = true }) quiet refl in
    rw failed refl
