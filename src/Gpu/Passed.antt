-- ===== src/Gpu/Passed.antt =====
-- What InheritFilesForRestore passes on: under each key the descriptor of the file that was opened for
-- it; nothing for a container.
use cedana.Base.{
  ℕ, ◌≡◌, refl, ◌∙◌, subst, ◌⊎◌, inl, inr, String, Bool, true, false, some, List, [], ◌∷◌, In,
  is_some, load, arith, Bool-cases, ◌||◌,
}
use cedana.Process.Node.{Mount}
use cedana.Process.Forest.{Tree}
use cedana.Process.Trees.{walk_list, walk_tree, tree_values, walk_tree_lem}
use cedana.Gpu.Inherited.{Passes, Passes-refl, Passes-register, Passes-same}
use cedana.Gpu.Reopened.{inherit_files_keeps}
use cedana.Gpu.Inherit.{
  Paths, Host, Inherit, register, see_mount, inherit_files_for_restore, inherit_with,
}

-- Each descriptor that the adapter hands to CRIU is that of the file opened for its key: the
-- files are appended to those that the new process inherits, the descriptors are their places there after
-- the three standard ones, the keys are distinct and were not taken, and afterwards the map of inherited
-- files has them and all that it had.
pub inherit_files_for_restore-Passes :
    (ps : Paths) (hs : Host) (gpu_id : String) (t : Tree) (s u : Inherit)
    → inherit_files_for_restore ps hs gpu_id t s ≡ some u
    → Passes s u
unfolding inherit_files_for_restore
inherit_files_for_restore-Passes ps hs gpu_id t s u e =
    let m : (Bool × List ℕ) × Bool = walk_tree (λ p. p.mounts) (see_mount ps) t (false, []) in
    inherit_files_keeps (Passes s) m.0.0 (Passes-same s) (Passes-register s m.0.0) ps hs m.0.1
      gpu_id t s u (Passes-refl s) e

abbrev is_container : Paths → Tree → Bool
is_container ps t = (walk_tree (λ p. p.mounts) (see_mount ps) t (false, [])).0.0

seen_next :
    (ps : Paths) (m n : Mount) (ms : List Mount) (c : Bool)
    → (c ≡ true) ⊎ ((In m (n ∷ ms)) × (ps.is_shm m.mount_point ≡ true))
    → ((c || ps.is_shm n.mount_point) ≡ true) ⊎ ((In m ms) × (ps.is_shm m.mount_point ≡ true))
seen_next ps m n ms c (inl e) = inl (rw e refl)
seen_next ps m n ms c (inr (inl e, shm)) =
    let here : ps.is_shm n.mount_point ≡ true = subst (λ k. ps.is_shm k.mount_point ≡ true) e shm in
    inl (ground (arith, here))
seen_next ps m n ms c (inr (inr i, shm)) = inr (i, shm)

see_mount-container :
    (ps : Paths) (m : Mount) (ms : List Mount) (a : Bool × List ℕ)
    → (a.0 ≡ true) ⊎ ((In m ms) × (ps.is_shm m.mount_point ≡ true))
    → (walk_list (see_mount ps) ms a).0.0 ≡ true
unfolding walk_list see_mount
see_mount-container ps m [] a (inl e) = e
see_mount-container ps m [] a (inr i) = absurd i.0
see_mount-container ps m (n ∷ ms) a h =
    see_mount-container ps m ms (a.0 || ps.is_shm n.mount_point, n.id ∷ a.1)
      (seen_next ps m n ms a.0 h)

register_container :
    (key path : String) (v s : Inherit)
    → (v.extra_files ≡ s.extra_files) × (v.inherit_fds ≡ s.inherit_fds)
    → ((register true key path v).extra_files ≡ s.extra_files)
      × ((register true key path v).inherit_fds ≡ s.inherit_fds)
unfolding register
register_container key path v s p = elim (Bool-cases (is_some (load key v.inherit_fd_map))) [
  | inl e ↦ rw e p
  | inr e ↦ rw e p
]

-- A process state in which a mount has the path of a controller's shared memory is that of a
-- container: then no file is handed to CRIU.
pub inherit_files_for_restore-container :
    (ps : Paths) (hs : Host) (gpu_id : String) (t : Tree) (s u : Inherit) (m : Mount)
    → In m (tree_values (λ p. p.mounts) t)
    → ps.is_shm m.mount_point ≡ true
    → inherit_files_for_restore ps hs gpu_id t s ≡ some u
    → (u.extra_files ≡ s.extra_files) × (u.inherit_fds ≡ s.inherit_fds)
unfolding inherit_files_for_restore
inherit_files_for_restore-container ps hs gpu_id t s u m i shm e =
    let mounts : List ℕ = (walk_tree (λ p. p.mounts) (see_mount ps) t (false, [])).0.1 in
    let container : is_container ps t ≡ true =
      rw (walk_tree_lem (λ p. p.mounts) (see_mount ps) t (false, []), is_container)
        (see_mount-container ps m (tree_values (λ p. p.mounts) t) (false, []) (inr (i, shm))) in
    let known : inherit_with ps hs true mounts gpu_id t s ≡ some u =
      subst (λ c. inherit_with ps hs c mounts gpu_id t s ≡ some u) container e in
    inherit_files_keeps (λ v. (v.extra_files ≡ s.extra_files) × (v.inherit_fds ≡ s.inherit_fds))
      true (λ v w p files fds map. (files ∙ p.0, fds ∙ p.1))
      (λ v key path p. register_container key path v s p) ps hs mounts gpu_id t s u (refl, refl)
      known
