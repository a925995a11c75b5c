-- ===== src/Criu/Swrk.antt =====
-- pkg/criu/criu.go: doSwrkWithResp, the conversation with a CRIU process. What CRIU answers is a
-- list of responses; where it ends, receiving fails.
use cedana.Base.{
  ℕ, String, str_eq, Dict, load, Bool, true, false, not, ◌||◌, Option, none, some, List, [], ◌∷◌,
  if◌then◌else◌,
}
use cedana.Criu.Notify.{
  Hook, initialize, initialize_dump, initialize_restore, finalize_dump, finalize_restore, pre_dump,
  post_dump, pre_restore, pre_resume, post_resume, network_lock, network_unlock,
  post_setup_namespaces, query_ext_files, orphan_pts_master, post_restore, setup_namespaces,
  skip_namespaces, Notify,
}

pub data Kind : Type 0 where
  dump restore other : Kind

-- A notification: its script, its PID, and whether the control message that orphan-pts-master comes
-- with can be parsed.
pub record Notification : Type 0 where
  pub script : String
  pub pid : ℕ
  pub control_ok : Bool

-- What CRIU answers: an operation that failed, the last response, or a notification.
pub data Response : Type 0 where
  refused finished : Response
  notifies : Notification → Response

-- The cases of the switch but orphan-pts-master.
abbrev pub scripts : ℕ → Dict Hook
scripts pid =
    ("pre-dump", pre_dump)
    ∷ ("post-dump", post_dump)
    ∷ ("pre-restore", pre_restore)
    ∷ ("post-restore", post_restore pid)
    ∷ ("network-lock", network_lock)
    ∷ ("network-unlock", network_unlock)
    ∷ ("setup-namespaces", setup_namespaces pid)
    ∷ ("post-setup-namespaces", post_setup_namespaces)
    ∷ ("pre-resume", pre_resume)
    ∷ ("post-resume", post_resume)
    ∷ ("skip-namespaces", skip_namespaces pid)
    ∷ ("query-ext-files", query_ext_files)
    ∷ []

-- The hook of a script; `none` is the default case, which calls nothing.
unfoldable pub hook_of : String → ℕ → Option Hook
hook_of script pid = load script (scripts pid)

module _ {S : Type 0} where
  -- The call for a notification, and whether it ends the conversation. The error that
  -- OrphanPtsMaster returns goes to a variable of the inner scope, and is lost.
  unfoldable pub run_script : Notify S → Notification → S → S × Bool
  unfolding hook_of
  run_script nfy n s =
      if str_eq n.script "orphan-pts-master"
      then (if n.control_ok then ((nfy orphan_pts_master s).0, false) else (s, true))
      else elim (hook_of n.script n.pid) [ none ↦ (s, false) | some h ↦ nfy h s ]

  -- The loop of doSwrkWithResp: the state, and whether the operation failed.
  unfoldable pub converse : Option (Notify S) → List Response → S → S × Bool
  unfolding run_script
  converse nfy [] s = (s, true)
  converse nfy (refused ∷ rs) s = (s, true)
  converse nfy (finished ∷ rs) s = (s, false)
  converse none (notifies n ∷ rs) s = (s, true)
  converse (some nfy) (notifies n ∷ rs) s =
      let r = run_script nfy n s in let on = converse (some nfy) rs r.0 in if r.1 then r else on

  -- The deferred finalizing hook, which hears of the failure and can add its own.
  unfoldable pub finalize : Notify S → (Bool → Hook) → S × Bool → S × Bool
  finalize nfy hook r = let f = nfy (hook r.1) r.0 in (f.0, r.1 || f.1)

  -- The part of doSwrkWithResp for an operation that has an initializing hook.
  unfoldable pub bracket : Notify S → Hook → (Bool → Hook) → List Response → S → S × Bool
  unfolding converse finalize
  bracket nfy before after rs s =
      let r = nfy before s in if r.1 then r else finalize nfy after (converse (some nfy) rs r.0)

  unfoldable pub operate : Notify S → Kind → List Response → S → S × Bool
  unfolding bracket converse
  operate nfy dump rs s = bracket nfy initialize_dump finalize_dump rs s
  operate nfy restore rs s = bracket nfy initialize_restore finalize_restore rs s
  operate nfy other rs s = converse (some nfy) rs s

  -- doSwrkWithResp, with whether Prepare and Cleanup succeed.
  unfoldable pub do_swrk : Bool → Bool → Option (Notify S) → Kind → List Response → S → S × Bool
  unfolding operate
  do_swrk false cleaned nfy kind rs s = (s, true)
  do_swrk true cleaned none kind rs s = let r = converse none rs s in (r.0, r.1 || not cleaned)
  do_swrk true cleaned (some nfy) kind rs s =
      let i = nfy initialize s in
      let r = operate nfy kind rs i.0 in if i.1 then (i.0, true) else (r.0, r.1 || not cleaned)
