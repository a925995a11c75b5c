-- ===== src/Gpu/Lost.antt =====
-- Where InheritFilesForRestore ends early without an error.
use cedana.Base.{
  ℕ, ◌≡◌, refl, ap, sym, inl, inr, ◌∙◌, subst, ◌≢◌, String, str_eq, Bool, true, false, some, List,
  [], ◌∷◌, ◌++◌, is_some, load, Bool-cases, arith,
}
use cedana.Process.Node.{File}
use cedana.Process.Forest.{Tree}
use cedana.Process.Trees.{
  go_on, walk_list, walk_tree, tree_values, walk_tree_lem, walk_list-append, walk_list_continues,
}
use cedana.Gpu.Inherit.{
  Paths, Host, Inherit, NewPath, not_ours, stop, reopen, new_path, file_key, register, open_new,
  inherit_file, inherit_open_files, create_hostmem, hostmem_file,
}
use cedana.Gpu.Reopened.{Keeps, new_path-Keeps}

-- The walk goes on after `u`, which has been reached from `s`.
abbrev Sound : Inherit → Inherit → Type 0
Sound s u = (u.failed ≡ s.failed) × (u.id ≡ s.id)

register-Sound : (c : Bool) (key path : String) (u : Inherit) → Sound u (register c key path u)
unfolding register
register-Sound c key path u = elim (Bool-cases (is_some (load key u.inherit_fd_map))) [
  | inl e ↦ rw e (refl, refl)
  | inr e ↦ elim (Bool-cases c) [ inl f ↦ rw (e, f) (refl, refl) | inr f ↦ rw (e, f) (refl, refl) ]
]

true-not-false : false ≢ true
true-not-false e = ground (arith, e)

open_new-Sound :
    (c : Bool) (hs : Host) (key : String) (n : NewPath) (u v : Inherit)
    → Keeps u n
    → str_eq u.id "" ≡ false
    → open_new c hs key n u ≡ (v, true)
    → Sound u v
open_new-Sound c hs key not_ours u v k named e = subst (Sound u) (ap (λ r. r.0) e) (refl, refl)
open_new-Sound c hs key (stop error) u v k named e = absurd (true-not-false (ap (λ r. r.1) e))
open_new-Sound c hs key (reopen t path) u v k named e = elim (Bool-cases (hs.can_open path)) [
  | inr f ↦ absurd (true-not-false (ap (λ r. r.1) (rw f at e)))
  | inl f ↦
      let w : Inherit = record t { to_close = t.to_close ++ path ∷ [] } in
      let r : Sound w (register c key path w) = register-Sound c key path w in
      subst (Sound u) (ap (λ r. r.0) (rw f at e)) (r.0 ∙ k.error, r.1 ∙ k.id named)
]

module _ (ps : Paths) (hs : Host) (c : Bool) (mounts : List ℕ) where
  walk_list-Sound :
      (fs : List File) (s u : Inherit)
      → str_eq s.id "" ≡ false
      → walk_list (inherit_file ps hs c mounts) fs s ≡ (u, true)
      → Sound s u
  unfolding inherit_file
  walk_list-Sound fs s u named e =
      walk_list_continues (Sound s) (inherit_file ps hs c mounts)
        (λ f v w g p.
          let q : Sound v w =
            open_new-Sound c hs (file_key ps mounts f) (new_path ps hs f.path v) v w
              (new_path-Keeps ps hs f.path v) (rw p.1 named) g in
          (q.0 ∙ p.0, q.1 ∙ p.1))
        fs s u e (refl, refl)

  -- A hostmem file that cannot be created ends the walk without setting the error.
  stop_at_hostmem :
      (f : File) (w : String) (n : ℕ) (u : Inherit)
      → u.failed ≡ false
      → str_eq u.id "" ≡ false
      → ps.match_hostmem f.path ≡ some w
      → ps.atoi w ≡ some n
      → create_hostmem hs (ps.hostmem_path u.id n) ≡ false
      → inherit_file ps hs c mounts f u ≡ (u, false)
  unfolding inherit_file new_path hostmem_file
  stop_at_hostmem f w n u ok named hostmem number missing =
      rw (hostmem, named, number, missing) (ap (λ b. (record u { failed = b }, false)) (sym ok))

  -- A hostmem file that cannot be created ends the walk over the open files without an error: the
  -- restore goes on with the files before it, and without those after it. (The id of the GPU is not
  -- empty, and there was no error before.)
  pub inherit_open_files-lost :
      (t : Tree) (fs gs : List File) (f : File) (w : String) (n : ℕ) (s u : Inherit)
      → tree_values (λ q. q.open_files) t ≡ fs ++ f ∷ gs
      → walk_list (inherit_file ps hs c mounts) fs s ≡ (u, true)
      → s.failed ≡ false
      → str_eq s.id "" ≡ false
      → ps.match_hostmem f.path ≡ some w
      → ps.atoi w ≡ some n
      → create_hostmem hs (ps.hostmem_path s.id n) ≡ false
      → inherit_open_files ps hs c mounts t s ≡ some u
  unfolding inherit_open_files walk_list
  inherit_open_files-lost t fs gs f w n s u files before ok named hostmem number missing =
      let g : File → Inherit → Inherit × Bool = inherit_file ps hs c mounts in
      let q : Sound s u = walk_list-Sound fs s u named before in
      let here : g f u ≡ (u, false) =
        stop_at_hostmem f w n u (q.0 ∙ ok) (rw q.1 named) hostmem number (rw q.1 missing) in
      let whole : walk_tree (λ p. p.open_files) g t s ≡ (u, false) =
        walk_tree_lem (λ p. p.open_files) g t s
        ∙ ap (λ xs. walk_list g xs s) files
        ∙ walk_list-append g fs (f ∷ gs) s
        ∙ ap (λ r. go_on r (walk_list g (f ∷ gs))) before
        ∙ ap (λ r. go_on r (walk_list g gs)) here in
      rw (whole, q.0, ok) refl
