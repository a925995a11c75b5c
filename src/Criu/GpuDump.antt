-- ===== src/Criu/GpuDump.antt =====
-- The part of CRIUCallback of internal/cedana/gpu/controller.go for dumps: the lock that keeps the
-- controller from being terminated, and the freezing of the GPU, over doSwrkWithResp.
use cedana.Base.{
  ℕ, String, ◌≡◌, refl, inl, inr, Bool, true, false, not, ◌&&◌, ◌||◌, Option, none, some, List, [],
  ◌∷◌, arith, Bool-cases, if◌then◌else◌, str_eq, Option-cases, All-In, In-values-load, values, load,
  drop, Dict,
}
use cedana.Criu.Notify.{Hook, initialize_dump, finalize_dump, pre_dump, post_dump, Notify, callback}
use cedana.Criu.Swrk.{
  dump, Notification, Response, refused, finished, notifies, scripts, hook_of, run_script, converse,
  finalize, bracket, operate,
}

-- What the controller answers, whether it is in the pool, and whether the process is left running.
pub record Gpu : Type 0 where
  pub present : Bool
  pub freeze_ok : Bool
  pub dump_ok : Bool
  pub unfreeze_ok : Bool
  pub leave_running : Bool

-- The lock `Termination`, whether the GPU is frozen, and whether the GPU dump was started (dumpErr
-- is not nil). PreDump waits for the end of the GPU dump, so a later read of dumpErr finds the
-- channel closed and gets nil.
pub record DumpState : Type 0 where
  pub locked : Bool
  pub frozen : Bool
  pub started : Bool

abbrev pub untouched : DumpState
untouched = record { locked = false; frozen = false; started = false }

unfoldable pub on_initialize_dump : Gpu → DumpState → DumpState × Bool
on_initialize_dump g s =
    if not g.present
    then (s, true)
    else if g.freeze_ok
    then (record s { locked = true; frozen = true }, false)
    else (record s { locked = true }, true)

unfoldable pub on_pre_dump : Gpu → DumpState → DumpState × Bool
on_pre_dump g s = (record s { started = true }, not g.dump_ok)

unfoldable pub on_post_dump : DumpState → DumpState × Bool
on_post_dump s = (s, false)

unfoldable pub on_finalize_dump : Gpu → Bool → DumpState → DumpState × Bool
on_finalize_dump g criu_failed s =
    let released = record s { locked = false } in
    if not s.started
    then (released, false)
    else if not g.leave_running && not criu_failed
    then (released, false)
    else if g.unfreeze_ok
    then (record released { frozen = false }, false)
    else (released, true)

abbrev pub dump_funcs : Gpu → Hook → Option (DumpState → DumpState × Bool)
dump_funcs g initialize_dump = some (on_initialize_dump g)
dump_funcs g pre_dump = some (on_pre_dump g)
dump_funcs g post_dump = some on_post_dump
dump_funcs g (finalize_dump failed) = some (on_finalize_dump g failed)
dump_funcs g _ = none

unfoldable pub gpu_dump : Gpu → Notify DumpState
unfolding callback on_initialize_dump on_pre_dump on_post_dump on_finalize_dump
gpu_dump g = callback (dump_funcs g)

-- During the conversation the lock and the freeze stay as they are.
abbrev Held : DumpState → DumpState → Type 0
Held s t = (t.locked ≡ s.locked) × (t.frozen ≡ s.frozen)

abbrev Quiet : Gpu → Hook → Type 0
Quiet g h = (s : DumpState) → Held s (gpu_dump g h s).0

module _ (g : Gpu) where
  hook_of-Quiet : (script : String) (pid : ℕ) (h : Hook) → hook_of script pid ≡ some h → Quiet g h
  unfolding hook_of gpu_dump
  hook_of-Quiet script pid h e =
      All-In (Quiet g) h (values (scripts pid))
        (
          (λ s. (refl, refl)),
          (
            (λ s. (refl, refl)),
            (
              (λ s. (refl, refl)),
              (
                (λ s. (refl, refl)),
                (
                  (λ s. (refl, refl)),
                  (
                    (λ s. (refl, refl)),
                    (
                      (λ s. (refl, refl)),
                      (
                        (λ s. (refl, refl)),
                        (
                          (λ s. (refl, refl)),
                          ((λ s. (refl, refl)), ((λ s. (refl, refl)), ((λ s. (refl, refl)), tt))),
                        ),
                      ),
                    ),
                  ),
                ),
              ),
            ),
          ),
        )
        (In-values-load script h (scripts pid) e)

  run_script-Held : (n : Notification) (s : DumpState) → Held s (run_script (gpu_dump g) n s).0
  unfolding run_script
  run_script-Held n s = elim (Bool-cases (str_eq n.script "orphan-pts-master")) [
    | inl e ↦ unfold gpu_dump in ground arith
    | inr e ↦ elim (Option-cases (hook_of n.script n.pid)) [
      | inl f ↦ ground arith
      | inr (h, f) ↦ rw (e, f) (hook_of-Quiet n.script n.pid h f s)
    ]
  ]

  converse-Held :
      (rs : List Response) (s : DumpState) → Held s (converse (some (gpu_dump g)) rs s).0
  unfolding converse
  converse-Held [] s = (refl, refl)
  converse-Held (refused ∷ rs) s = (refl, refl)
  converse-Held (finished ∷ rs) s = (refl, refl)
  converse-Held (notifies n ∷ rs) s =
      ground (arith, run_script-Held n s, converse-Held rs (run_script (gpu_dump g) n s).0)

  -- After a dump the lock on the controller's termination is released, whatever CRIU answers, except
  -- where the controller is there and its freeze has failed: then the lock stays held.
  pub dump_lock :
      (rs : List Response)
      → (operate (gpu_dump g) dump rs untouched).0.locked ≡ (g.present && not g.freeze_ok)
  unfolding operate bracket finalize gpu_dump
  dump_lock rs =
      ground (arith, converse-Held rs (record { locked = true; frozen = true; started = false }))

  -- The conversation of a dump whose freeze has succeeded.
  abbrev pub talk : List Response → DumpState × Bool
  talk rs =
      converse (some (gpu_dump g)) rs (record { locked = true; frozen = true; started = false })

  -- If the freeze succeeded, the GPU is running again after the operation exactly if the GPU dump was
  -- started, the process is to go on (it is left running, or CRIU failed) and the unfreeze succeeded.
  pub dump_frozen :
      (rs : List Response)
      → g.present ≡ true
      → g.freeze_ok ≡ true
      → (operate (gpu_dump g) dump rs untouched).0.frozen
        ≡ not ((talk rs).0.started && (g.leave_running || (talk rs).1) && g.unfreeze_ok)
  unfolding operate bracket finalize gpu_dump
  dump_frozen rs p f =
      ground (arith, converse-Held rs (record { locked = true; frozen = true; started = false }))

-- No notification of the pre-dump script.
abbrev pub NoPreDump : List Response → Type 0
NoPreDump [] = Unit {0}
NoPreDump (notifies n ∷ rs) = (str_eq "pre-dump" n.script ≡ false) × NoPreDump rs
NoPreDump (_ ∷ rs) = NoPreDump rs

module _ (g : Gpu) where
  Calm : Hook → Type 0
  Calm h = (s : DumpState) → (gpu_dump g h s).0.started ≡ s.started

  hook_of-Calm :
      (script : String) (pid : ℕ) (h : Hook)
      → str_eq "pre-dump" script ≡ false
      → hook_of script pid ≡ some h
      → Calm h
  unfolding hook_of gpu_dump Calm load
  hook_of-Calm script pid h n e =
      let rest : Dict Hook = drop 1 (scripts pid) in
      All-In Calm h (values rest)
        (
          (λ s. refl),
          (
            (λ s. refl),
            (
              (λ s. refl),
              (
                (λ s. refl),
                (
                  (λ s. refl),
                  (
                    (λ s. refl),
                    ((λ s. refl), ((λ s. refl), ((λ s. refl), ((λ s. refl), ((λ s. refl), tt))))),
                  ),
                ),
              ),
            ),
          ),
        )
        (In-values-load script h rest (rw n at e))

  run_script-Calm :
      (n : Notification) (s : DumpState)
      → str_eq "pre-dump" n.script ≡ false
      → (run_script (gpu_dump g) n s).0.started ≡ s.started
  unfolding run_script
  run_script-Calm n s h = elim (Bool-cases (str_eq n.script "orphan-pts-master")) [
    | inl e ↦ unfold gpu_dump in ground arith
    | inr e ↦ elim (Option-cases (hook_of n.script n.pid)) [
      | inl f ↦ ground arith
      | inr (k, f) ↦ rw (e, f) (unfold Calm in hook_of-Calm n.script n.pid k h f s)
    ]
  ]

  converse-Calm :
      (rs : List Response) (s : DumpState)
      → NoPreDump rs
      → (converse (some (gpu_dump g)) rs s).0.started ≡ s.started
  unfolding converse
  converse-Calm [] s h = refl
  converse-Calm (refused ∷ rs) s h = refl
  converse-Calm (finished ∷ rs) s h = refl
  converse-Calm (notifies n ∷ rs) s h =
      ground (arith, run_script-Calm n s h.0, converse-Calm rs (run_script (gpu_dump g) n s).0 h.1)

  -- If CRIU fails, or ends, before it asks for the pre-dump script, the GPU that InitializeDump has
  -- frozen stays frozen, although the process goes on.
  pub left_frozen :
      (rs : List Response)
      → g.present ≡ true
      → g.freeze_ok ≡ true
      → NoPreDump rs
      → (operate (gpu_dump g) dump rs untouched).0.frozen ≡ true
  left_frozen rs p f h = ground (
    arith,
    dump_frozen g rs p f,
    converse-Calm rs (record { locked = true; frozen = true; started = false }) h,
  )
