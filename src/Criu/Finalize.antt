-- ===== src/Criu/Finalize.antt =====
-- When doSwrkWithResp of pkg/criu/criu.go calls the hooks that finalize.
use cedana.Base.{
  ℕ, suc, String, ◌≡◌, refl, inl, inr, str_eq, Bool, some, List, [], ◌∷◌, arith, Bool-cases,
  Option-cases, All-In, In-values-load, values, if◌then◌else◌,
}
use cedana.Criu.Notify.{
  Hook, initialize_dump, initialize_restore, finalize_dump, finalize_restore, Notify,
}
use cedana.Criu.Swrk.{
  Kind, dump, restore, other, Notification, Response, refused, finished, notifies, scripts, hook_of,
  run_script, converse, finalize, bracket, operate,
}

-- The hooks called so far, the latest first.
unfoldable pub traced : {S : Type 0} → Notify S → Notify (S × List Hook)
traced nfy h (s, log) = let r = nfy h s in ((r.0, h ∷ log), r.1)

abbrev pub finalizes : List Hook → ℕ
finalizes [] = 0
finalizes (finalize_dump b ∷ hs) = suc (finalizes hs)
finalizes (finalize_restore b ∷ hs) = suc (finalizes hs)
finalizes (_ ∷ hs) = finalizes hs

-- No notification is mapped to a hook that finalizes.
hook_of-finalizes :
    (script : String) (pid : ℕ) (h : Hook) (log : List Hook)
    → hook_of script pid ≡ some h
    → finalizes (h ∷ log) ≡ finalizes log
unfolding hook_of
hook_of-finalizes script pid h log e =
    All-In (λ k. finalizes (k ∷ log) ≡ finalizes log) h (values (scripts pid)) (omega arith)
      (In-values-load script h (scripts pid) e)

-- How often the hook that finalizes is due.
abbrev pub expected : {S : Type 0} → Notify S → Kind → S → ℕ
expected nfy dump s = if (nfy initialize_dump s).1 then 0 else 1
expected nfy restore s = if (nfy initialize_restore s).1 then 0 else 1
expected nfy other s = 0

module _ {S : Type 0} (nfy : Notify S) where
  run_script-finalizes :
      (n : Notification) (s : S) (log : List Hook)
      → finalizes (run_script (traced nfy) n (s, log)).0.1 ≡ finalizes log
  unfolding run_script traced
  run_script-finalizes n s log = elim (Bool-cases (str_eq n.script "orphan-pts-master")) [
    | inl e ↦ ground arith
    | inr e ↦ elim (Option-cases (hook_of n.script n.pid)) [
      | inl f ↦ ground arith
      | inr (h, f) ↦ rw (e, f) (hook_of-finalizes n.script n.pid h log f)
    ]
  ]

  converse-finalizes :
      (rs : List Response) (s : S) (log : List Hook)
      → finalizes (converse (some (traced nfy)) rs (s, log)).0.1 ≡ finalizes log
  unfolding converse
  converse-finalizes [] s log = refl
  converse-finalizes (refused ∷ rs) s log = refl
  converse-finalizes (finished ∷ rs) s log = refl
  converse-finalizes (notifies n ∷ rs) s log =
      let r : (S × List Hook) × Bool = run_script (traced nfy) n (s, log) in
      ground (arith, run_script-finalizes n s log, converse-finalizes rs r.0.0 r.0.1)

  -- Of an operation with an initializing hook, the hook that finalizes is called exactly once if the
  -- initializing hook succeeds, and not at all if it fails.
  bracket-finalizes :
      (before : Hook) (after : Bool → Hook) (rs : List Response) (s : S)
      → finalizes (before ∷ []) ≡ 0
      → ((b : Bool) (log : List Hook) → finalizes (after b ∷ log) ≡ suc (finalizes log))
      → finalizes (bracket (traced nfy) before after rs (s, [])).0.1
        ≡ (if (nfy before s).1 then 0 else 1)
  unfolding bracket finalize traced
  bracket-finalizes before after rs s h k = ground (
    arith,
    converse-finalizes rs (nfy before s).0 (before ∷ []),
    k (converse (some (traced nfy)) rs ((nfy before s).0, before ∷ [])).1
        (converse (some (traced nfy)) rs ((nfy before s).0, before ∷ [])).0.1,
  )

  -- A dump and a restore call the hook that finalizes once if the hook that initializes the dump or
  -- the restore succeeds, whatever CRIU answers, and never if it fails; other operations never do.
  pub operate-finalizes :
      (kind : Kind) (rs : List Response) (s : S)
      → finalizes (operate (traced nfy) kind rs (s, [])).0.1 ≡ expected nfy kind s
  unfolding operate
  operate-finalizes dump rs s =
      bracket-finalizes initialize_dump finalize_dump rs s refl (λ b log. refl)
  operate-finalizes restore rs s =
      bracket-finalizes initialize_restore finalize_restore rs s refl (λ b log. refl)
  operate-finalizes other rs s = converse-finalizes rs s []
