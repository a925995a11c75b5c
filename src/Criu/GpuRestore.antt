-- ===== src/Criu/GpuRestore.antt =====
-- The part of CRIUCallback of internal/cedana/gpu/controller.go for restores: the GPU is restored
-- while CRIU restores the process, and the process is killed where either fails.
use cedana.Base.{
  ℕ, String, ◌≡◌, inl, inr, Bool, true, false, not, Option, none, some, List, [], ◌∷◌, arith,
  Bool-cases, if◌then◌else◌, str_eq, Option-cases, All-In, In-values-load, values, In,
}
use cedana.Criu.Notify.{
  Hook, initialize_restore, finalize_restore, pre_restore, post_restore, pre_resume,
  skip_namespaces, Notify, callback,
}
use cedana.Criu.Swrk.{
  restore, Notification, Response, refused, finished, notifies, scripts, hook_of, run_script,
  converse, finalize, bracket, operate,
}

-- Whether the controller is in the pool, and whether its Restore and its Attach succeed.
pub record GpuTarget : Type 0 where
  pub in_pool : Bool
  pub restore_ok : Bool
  pub attach_ok : Bool

-- The lock `Termination`; restoreErr: whether it is not nil, and whether an error of the GPU restore
-- has not been read from it (a later read finds it closed and gets nil); restoredPid; and the
-- processes that were killed. A read from the nil channel waits forever: `hung`, after which nothing
-- is read any more.
pub record RestoreState : Type 0 where
  pub held : Bool
  pub begun : Bool
  pub unread : Bool
  pub restored_pid : Option ℕ
  pub killed : List ℕ
  pub hung : Bool

abbrev pub idle_state : RestoreState
idle_state = record {
  held = false;
  begun = false;
  unread = false;
  restored_pid = none;
  killed = [];
  hung = false;
}

unfoldable pub on_initialize_restore : GpuTarget → RestoreState → RestoreState × Bool
on_initialize_restore g s = if g.in_pool then (record s { held = true }, false) else (s, true)

unfoldable pub on_pre_restore : GpuTarget → RestoreState → RestoreState × Bool
on_pre_restore g s = (record s { begun = true; unread = not g.restore_ok }, false)

-- SkipNamespaces and PostRestore: the controller learns the PID.
unfoldable pub on_restored : GpuTarget → ℕ → RestoreState → RestoreState × Bool
on_restored g pid s = (record s { restored_pid = some pid }, not g.attach_ok)

unfoldable pub kill_restored : RestoreState → RestoreState
kill_restored s = elim s.restored_pid [ none ↦ s | some pid ↦ record s { killed = pid ∷ s.killed } ]

unfoldable pub on_pre_resume : RestoreState → RestoreState × Bool
unfolding kill_restored
on_pre_resume s =
    if not s.begun
    then (record s { hung = true }, true)
    else if s.unread
    then (kill_restored (record s { unread = false }), true)
    else (s, false)

unfoldable pub on_finalize_restore : Bool → RestoreState → RestoreState × Bool
unfolding kill_restored
on_finalize_restore criu_failed s =
    let released = record s { held = false } in
    if not s.begun
    then (released, false)
    else if criu_failed
    then (kill_restored released, false)
    else if s.unread
    then (kill_restored (record released { unread = false }), true)
    else (released, false)

abbrev pub restore_funcs : GpuTarget → Hook → Option (RestoreState → RestoreState × Bool)
restore_funcs g initialize_restore = some (on_initialize_restore g)
restore_funcs g pre_restore = some (on_pre_restore g)
restore_funcs g (skip_namespaces pid) = some (on_restored g pid)
restore_funcs g (post_restore pid) = some (on_restored g pid)
restore_funcs g pre_resume = some on_pre_resume
restore_funcs g (finalize_restore failed) = some (on_finalize_restore failed)
restore_funcs g _ = none

unfoldable pub gpu_restore : GpuTarget → Notify RestoreState
unfolding callback on_initialize_restore on_pre_restore on_restored on_pre_resume
    on_finalize_restore
gpu_restore g = callback (restore_funcs g)

-- If the restore of the GPU was begun and fails, its error is still to be read.
abbrev Warned : GpuTarget → RestoreState → Type 0
Warned g s = (g.restore_ok ≡ false) → (s.begun ≡ true) → s.unread ≡ true

-- A hook that does not fail keeps it so.
abbrev Warns : GpuTarget → Hook → Type 0
Warns g h =
    (s : RestoreState) → Warned g s → (gpu_restore g h s).1 ≡ false → Warned g (gpu_restore g h s).0

module _ (g : GpuTarget) where
  hook_of-Warns : (script : String) (pid : ℕ) (h : Hook) → hook_of script pid ≡ some h → Warns g h
  unfolding hook_of gpu_restore
  hook_of-Warns script pid h e =
      All-In (Warns g) h (values (scripts pid))
        (
          (λ s w f. w),
          (
            (λ s w f. w),
            (
              (λ s w f. ground arith),
              (
                (λ s w f. w),
                (
                  (λ s w f. w),
                  (
                    (λ s w f. w),
                    (
                      (λ s w f. w),
                      (
                        (λ s w f. w),
                        (
                          (λ s w f. ground arith),
                          ((λ s w f. w), ((λ s w f. w), ((λ s w f. w), tt))),
                        ),
                      ),
                    ),
                  ),
                ),
              ),
            ),
          ),
        )
        (In-values-load script h (scripts pid) e)

  run_script-Warned :
      (n : Notification) (s : RestoreState)
      → Warned g s
      → (run_script (gpu_restore g) n s).1 ≡ false
      → Warned g (run_script (gpu_restore g) n s).0
  unfolding run_script
  run_script-Warned n s w = elim (Bool-cases (str_eq n.script "orphan-pts-master")) [
    | inl e ↦ unfold gpu_restore in λ f r b. ground arith
    | inr e ↦ elim (Option-cases (hook_of n.script n.pid)) [
      | inl f ↦ rw (e, f) (λ q. w)
      | inr (h, f) ↦ rw (e, f) (hook_of-Warns n.script n.pid h f s w)
    ]
  ]

  converse-Warned :
      (rs : List Response) (s : RestoreState)
      → Warned g s
      → (converse (some (gpu_restore g)) rs s).1 ≡ false
      → Warned g (converse (some (gpu_restore g)) rs s).0
  unfolding converse
  converse-Warned [] s w = λ f. w
  converse-Warned (refused ∷ rs) s w = λ f. w
  converse-Warned (finished ∷ rs) s w = λ f. w
  converse-Warned (notifies n ∷ rs) s w = elim (Bool-cases (run_script (gpu_restore g) n s).1) [
    | inl e ↦ rw e (λ f. absurd (ground arith))
    | inr e ↦
        rw e (converse-Warned rs (run_script (gpu_restore g) n s).0 (run_script-Warned n s w e))
  ]

  abbrev pub run_restore : List Response → RestoreState × Bool
  run_restore rs = operate (gpu_restore g) restore rs idle_state

  -- The end of the conversation, before the restore is finalized.
  abbrev before_end : List Response → RestoreState × Bool
  before_end rs = converse (some (gpu_restore g)) rs (record idle_state { held = true })

  -- A restore that succeeds and has begun to restore the GPU has restored it: whatever CRIU answers,
  -- a failure of the controller makes the restore fail.
  pub restore_success :
      (rs : List Response)
      → (run_restore rs).1 ≡ false
      → (run_restore rs).0.begun ≡ true
      → g.restore_ok ≡ true
  unfolding operate bracket finalize gpu_restore
  restore_success rs f b = ground (
    arith,
    converse-Warned rs (record idle_state { held = true }) (λ n q. ground arith),
    Bool-cases (before_end rs).0.begun,
  )

  -- If the conversation with CRIU fails (a hook, a message, or CRIU itself) after it has begun to restore
  -- the GPU, the process that CRIU has restored, if there is one, is killed. (The errors that doSwrk
  -- returns after the conversation, of Cleanup and of the response's type, are not among them.)
  pub restore_failure :
      (rs : List Response) (pid : ℕ)
      → (run_restore rs).1 ≡ true
      → (run_restore rs).0.begun ≡ true
      → (run_restore rs).0.restored_pid ≡ some pid
      → In pid (run_restore rs).0.killed
  unfolding operate bracket finalize gpu_restore kill_restored
  restore_failure rs pid f b r = ground (arith, Option-cases (before_end rs).0.restored_pid)
