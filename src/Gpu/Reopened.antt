-- ===== src/Gpu/Reopened.antt =====
-- What the walk over the open files of InheritFilesForRestore changes with each file.
use cedana.Base.{
  ℕ, ◌≡◌, refl, subst, inl, inr, String, str_eq, Bool, false, Option, none, some, List, [], ◌∷◌,
  ◌++◌, is_some, load, arith, Bool-cases, Option-cases, if◌then◌else◌, not, ◌&&◌,
}
use cedana.Process.Node.{File}
use cedana.Process.Forest.{Tree}
use cedana.Process.Trees.{walk_list_keeps, walk_tree, tree_values, walk_tree_lem}
use cedana.Gpu.Inherit.{
  Paths, Host, Inherit, NewPath, not_ours, stop, reopen, new_path, file_key, register, open_new,
  inherit_file, inherit_open_files, inherit_shm, inherit_with, create_hostmem, hostmem_file,
  log_file, or_old, choose_log, choose,
}

-- A state that only differs in the log directory, the files to close and an id that was empty.
pub record IsSame (s t : Inherit) : Type 0 where
  pub files : t.extra_files ≡ s.extra_files
  pub numbers : t.inherit_fds ≡ s.inherit_fds
  pub map : t.inherit_fd_map ≡ s.inherit_fd_map
  pub error : t.failed ≡ s.failed
  pub id : str_eq s.id "" ≡ false → t.id ≡ s.id

abbrev pub Keeps : Inherit → NewPath → Type 0
Keeps s not_ours = Unit
Keeps s (stop error) = Unit
Keeps s (reopen t path) = IsSame s t

IsSame-id :
    (s : Inherit) (old dir : String) → IsSame s (record s { id = or_old s.id old; log_dir = dir })
IsSame-id s old dir = record {
  files = refl;
  numbers = refl;
  map = refl;
  error = refl;
  id = λ e. rw e refl;
}

log_file-Keeps :
    (hs : Host) (format : String → ℕ → String) (old : String) (o : Option ℕ) (s : Inherit)
    → Keeps s (log_file hs format old o s)
unfolding log_file
log_file-Keeps hs format old none s = tt
log_file-Keeps hs format old (some pid) s = elim (Bool-cases hs.has_log_dir) [
  | inr e ↦ rw e (IsSame-id s old s.log_dir)
  | inl e ↦ elim (Option-cases (hs.ensure_log_dir (or_old s.id old))) [
    | inl f ↦ rw (e, f) tt
    | inr (dir, f) ↦ rw (e, f) (IsSame-id s old dir)
  ]
]

hostmem_file-Keeps :
    (ps : Paths) (hs : Host) (o : Option ℕ) (s : Inherit) → Keeps s (hostmem_file ps hs o s)
unfolding hostmem_file
hostmem_file-Keeps ps hs none s = tt
hostmem_file-Keeps ps hs (some pid) s =
    elim (Bool-cases (create_hostmem hs (ps.hostmem_path s.id pid))) [
      | inl e ↦
          rw e (record { files = refl; numbers = refl; map = refl; error = refl; id = λ f. refl })
      | inr e ↦ rw e tt
    ]

choose_log-Keeps :
    (ps : Paths) (hs : Host) (s : Inherit) (interceptor tracer : Option (String × String))
    → Keeps s (choose_log ps hs s interceptor tracer)
choose_log-Keeps ps hs s (some m) tracer =
    log_file-Keeps hs ps.interceptor_log_path m.0 (ps.atoi m.1) s
choose_log-Keeps ps hs s none none = tt
choose_log-Keeps ps hs s none (some m) = log_file-Keeps hs ps.tracer_log_path m.0 (ps.atoi m.1) s

choose-Keeps :
    (ps : Paths) (hs : Host) (s : Inherit) (o : Option String)
    (interceptor tracer : Option (String × String))
    → Keeps s (choose ps hs s o interceptor tracer)
choose-Keeps ps hs s none interceptor tracer = choose_log-Keeps ps hs s interceptor tracer
choose-Keeps ps hs s (some pid) interceptor tracer = elim (Bool-cases (str_eq s.id "")) [
  | inl e ↦ rw e (choose_log-Keeps ps hs s interceptor tracer)
  | inr e ↦ rw e (hostmem_file-Keeps ps hs (ps.atoi pid) s)
]

pub new_path-Keeps :
    (ps : Paths) (hs : Host) (old : String) (s : Inherit) → Keeps s (new_path ps hs old s)
unfolding new_path
new_path-Keeps ps hs old s =
    choose-Keeps ps hs s (ps.match_hostmem old) (ps.match_interceptor_log old)
      (ps.match_tracer_log old)

-- A property of what is passed on: it survives other changes, and opening a file.
module _ (P : Inherit → Type 0) (c : Bool)
    (same : (u v : Inherit)
      → P u
      → v.extra_files ≡ u.extra_files
      → v.inherit_fds ≡ u.inherit_fds
      → v.inherit_fd_map ≡ u.inherit_fd_map
      → P v)
    (opens : (u : Inherit) (key path : String) → P u → P (register c key path u)) where
  open_new_keeps :
      (u : Inherit) (hs : Host) (key : String) (n : NewPath)
      → P u
      → Keeps u n
      → P (open_new c hs key n u).0
  open_new_keeps u hs key not_ours p k = p
  open_new_keeps u hs key (stop error) p k = same u _ p refl refl refl
  open_new_keeps u hs key (reopen t path) p k = elim (Bool-cases (hs.can_open path)) [
    | inl e ↦ rw e (opens _ key path (same u _ p k.files k.numbers k.map))
    | inr e ↦ rw e (same u _ p k.files k.numbers k.map)
  ]

  pub inherit_file_keeps :
      (ps : Paths) (hs : Host) (mounts : List ℕ) (f : File) (u : Inherit)
      → P u
      → P (inherit_file ps hs c mounts f u).0
  unfolding inherit_file
  inherit_file_keeps ps hs mounts f u p =
      open_new_keeps u hs (file_key ps mounts f) (new_path ps hs f.path u) p
        (new_path-Keeps ps hs f.path u)

  -- `none` is an error, which leaves nothing to pass on.
  abbrev pub OnSome : Option Inherit → Type 0
  OnSome none = Unit
  OnSome (some u) = P u

  inherit_shm_keeps :
      (ps : Paths) (hs : Host) (gpu_id : String) (s : Inherit)
      → P s
      → OnSome (inherit_shm ps hs c gpu_id s)
  unfolding inherit_shm
  inherit_shm_keeps ps hs gpu_id s p =
      let key : String = ps.trim_slash (ps.shm_path gpu_id) in
      let path : String = ps.shm_path s.id in
      let t : Inherit = if c then s else record s { to_close = s.to_close ++ path ∷ [] } in
      let kept : P (register c key path t) = elim (Bool-cases c) [
        | inl f ↦ opens t key path (same s t p (rw f refl) (rw f refl) (rw f refl))
        | inr f ↦ opens t key path (same s t p (rw f refl) (rw f refl) (rw f refl))
      ] in
      elim (Bool-cases (is_some (load key s.inherit_fd_map))) [
        | inl e ↦ rw e tt
        | inr e ↦ elim (Bool-cases (not c && not (hs.can_open path))) [
          | inl f ↦ rw (e, f) tt
          | inr f ↦ rw (e, f) kept
        ]
      ]

  inherit_open_files_keeps :
      (ps : Paths) (hs : Host) (mounts : List ℕ) (t : Tree) (u : Inherit)
      → P u
      → OnSome (inherit_open_files ps hs c mounts t u)
  unfolding inherit_open_files
  inherit_open_files_keeps ps hs mounts t u p =
      let f : File → Inherit → Inherit × Bool = inherit_file ps hs c mounts in
      let files : List File = tree_values (λ q. q.open_files) t in
      let r : Inherit × Bool = walk_tree (λ q. q.open_files) f t u in
      let kept : P r.0 =
        rw (walk_tree_lem (λ q. q.open_files) f t u)
          (walk_list_keeps P f (λ a w. inherit_file_keeps ps hs mounts a w) files u p) in
      elim (Bool-cases r.0.failed) [ inl e ↦ rw e tt | inr e ↦ rw e kept ]

  pub inherit_files_keeps :
      (ps : Paths) (hs : Host) (mounts : List ℕ) (gpu_id : String) (t : Tree) (s u : Inherit)
      → P s
      → inherit_with ps hs c mounts gpu_id t s ≡ some u
      → P u
  unfolding inherit_with
  inherit_files_keeps ps hs mounts gpu_id t s u p e =
      elim (Option-cases (inherit_shm ps hs c gpu_id s)) [
        | inl f ↦ ground (arith, f, e)
        | inr (w, f) ↦
            let before : P w = subst OnSome f (inherit_shm_keeps ps hs gpu_id s p) in
            let last : inherit_open_files ps hs c mounts t w ≡ some u = ground (arith, f, e) in
            subst OnSome last (inherit_open_files_keeps ps hs mounts t w before)
      ]
