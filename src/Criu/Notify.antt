-- ===== src/Criu/Notify.antt =====
-- pkg/criu/notify.go, notify_callback.go and notify_callback_multi.go: the hooks, a callback with a
-- function for some of them, and several callbacks as one. A hook changes a state of any type, and
-- answers whether it failed.
use cedana.Base.{ℕ, String, Bool, false, Option, none, some, List, [], ◌∷◌, ◌++◌, if◌then◌else◌}

-- The methods of Notify. The hooks that finalize are told whether the operation has failed.
pub data Hook : Type 0 where
  initialize initialize_dump initialize_restore : Hook
  finalize_dump finalize_restore : Bool → Hook
  pre_dump post_dump pre_restore pre_resume post_resume : Hook
  network_lock network_unlock post_setup_namespaces query_ext_files orphan_pts_master : Hook
  post_restore setup_namespaces skip_namespaces : ℕ → Hook

abbrev pub Notify : Type 0 → Type 0
Notify S = Hook → S → S × Bool

module _ {S : Type 0} where
  -- NotifyCallback: a hook without a function does nothing.
  unfoldable pub callback : (Hook → Option (S → S × Bool)) → Notify S
  callback funcs h s = elim (funcs h) [ none ↦ (s, false) | some f ↦ f s ]

  -- The loops of NotifyCallbackMulti: from the last callback to the first, up to the first error.
  unfoldable pub multi : List (Notify S) → Notify S
  multi [] h s = (s, false)
  multi (c ∷ cs) h s = let r = multi cs h s in if r.1 then r else c h r.0

  -- Include and IncludeMulti; `none` is a nil callback.
  unfoldable pub include : Option (Notify S) → List (Notify S) → List (Notify S)
  include none cs = cs
  include (some c) cs = cs ++ c ∷ []

  unfoldable pub include_multi : Option (List (Notify S)) → List (Notify S) → List (Notify S)
  include_multi none cs = cs
  include_multi (some more) cs = cs ++ more

  -- QueryExtFiles of several callbacks: the files of all, or the error.
  unfoldable pub query_all : List (S → S × Option (List String)) → S → S × Option (List String)
  query_all [] s = (s, some [])
  query_all (c ∷ cs) s =
      let r = query_all cs s in
      elim r.1 [
        | none ↦ (r.0, none)
        | some files ↦ elim (c r.0).1 [
          | none ↦ ((c r.0).0, none)
          | some own ↦ ((c r.0).0, some (files ++ own))
        ]
      ]
