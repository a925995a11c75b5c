-- ===== src/Job/State.antt =====
-- How the state of a job follows the machine: latestState, Sync and SyncDeep of
-- internal/cedana/job/job.go.
use cedana.Base.{
  String, ◌≡◌, ◌≢◌, ◌↔◌, ◌⊎◌, inl, inr, eq_iff, eq_refl, true, false, Option, none, some, arith,
  is_some, Option-cases, Bool-cases,
}
use cedana.Job.{
  Host, ProcessState, Process, System, Job, or_else, host_id_of, is_foreign, same_cmdline,
  latest_state, sync, get_pid, get_status, is_running, gpu_enabled,
}

module _ (sys : System) (j : Job) (s : ProcessState) (saved : j.proto.state ≡ some s) where
  -- After a sync a job counts as running exactly when its saved state belongs to this machine (or
  -- one of the two host ids is not known) and a process with its PID exists.
  pub sync_running :
      (is_running (sync sys none j) ≡ true)
      ↔ ((is_foreign sys s ≡ false) × (is_some (sys.process s.pid) ≡ true))
  unfolding sync is_running
  sync_running = (ground arith, ground arith)

  -- A sync keeps the PID and the GPU flag of the saved state.
  pub sync_keeps :
      (get_pid (sync sys none j) ≡ s.pid) × (gpu_enabled (sync sys none j) ≡ s.gpu_enabled)
  unfolding sync get_pid gpu_enabled
  sync_keeps = (ground arith, ground arith)

-- The saved state names a host, and the id of this machine is known and another.
abbrev pub Elsewhere : System → ProcessState → Type 0
Elsewhere sys s =
    (h : Host) × (here : String) × (s.host ≡ some h)
    × (sys.host_id ≡ some here)
    × (h.id ≢ "")
    × (h.id ≢ here)

-- One of the two ids is not known, or they are the same.
abbrev pub Here : System → ProcessState → Type 0
Here sys s =
    (sys.host_id ≡ none) ⊎ (host_id_of s.host ≡ "") ⊎ (sys.host_id ≡ some (host_id_of s.host))

abbrev pub SameCommand : Process → ProcessState → Type 0
SameCommand p s = (s.cmdline ≡ "") ⊎ (p.proc_cmdline ≡ some s.cmdline)

abbrev pub OtherCommand : Process → ProcessState → Type 0
OtherCommand p s = (s.cmdline ≢ "") × (p.proc_cmdline ≢ some s.cmdline)

-- The verdict of a sync on a saved state.
abbrev pub Verdict : System → ProcessState → Job → Type 0
Verdict sys s t =
    (Elsewhere sys s × (get_status t ≡ "remote") × (is_running t ≡ false))
    ⊎ (Here sys s × (sys.process s.pid ≡ none) × (get_status t ≡ "halted") × (is_running t ≡ false))
    ⊎ ((p : Process) × Here sys s
        × (sys.process s.pid ≡ some p)
        × (is_running t ≡ true)
        × ((SameCommand p s × (get_status t ≡ or_else p.proc_status "stale"))
            ⊎ (OtherCommand p s × (get_status t ≡ "stale"))))

is_foreign-Elsewhere : (sys : System) (s : ProcessState) → is_foreign sys s ≡ true → Elsewhere sys s
unfolding is_foreign
is_foreign-Elsewhere sys s f = elim (Option-cases sys.host_id) [
  | inl e ↦ absurd (ground (arith, e, f))
  | inr (here, e) ↦ elim (Option-cases s.host) [
    | inl q ↦ absurd (let g = rw (e, q, is_foreign) at f in ground (arith, g))
    | inr (h, q) ↦ (
      h,
      here,
      q,
      e,
      λ z. ground (arith, e, q, f, eq_iff h.id ""),
      λ z. ground (arith, e, q, f, eq_iff h.id here),
    )
  ]
]

is_foreign-Here : (sys : System) (s : ProcessState) → is_foreign sys s ≡ false → Here sys s
unfolding is_foreign
is_foreign-Here sys s f = elim (Option-cases sys.host_id) [
  | inl e ↦ inl e
  | inr (here, e) ↦
      ground (arith, e, f, eq_iff (host_id_of s.host) "", eq_iff (host_id_of s.host) here)
]

same_cmdline-SameCommand :
    (p : Process) (s : ProcessState) → same_cmdline p s ≡ true → SameCommand p s
unfolding same_cmdline
same_cmdline-SameCommand p s c = elim (Option-cases p.proc_cmdline) [
  | inl e ↦ ground (arith, e, c, eq_iff s.cmdline "")
  | inr (l, e) ↦ ground (arith, e, c, eq_iff s.cmdline "", eq_iff s.cmdline l)
]

same_cmdline-OtherCommand :
    (p : Process) (s : ProcessState) → same_cmdline p s ≡ false → OtherCommand p s
unfolding same_cmdline
same_cmdline-OtherCommand p s c =
    (λ z. ground (arith, c, eq_iff s.cmdline ""), λ z. ground (arith, c, z, eq_refl s.cmdline))

-- A job is remote and not running if its saved state names a host whose id is not empty and not this
-- machine's, which is known. Otherwise it is halted and not running if no process has its PID; and if
-- one has, it counts as running, with the status of that process (stale, if it cannot be read) where the
-- saved command line is empty or what the process shows, and as stale where it is neither.
pub sync-Verdict :
    (sys : System) (j : Job) (s : ProcessState)
    → j.proto.state ≡ some s
    → Verdict sys s (sync sys none j)
unfolding sync is_running get_status
sync-Verdict sys j s saved = elim (Bool-cases (is_foreign sys s)) [
  | inl f ↦ inl (is_foreign-Elsewhere sys s f, ground arith, ground arith)
  | inr f ↦
      let here = is_foreign-Here sys s f in
      elim (Option-cases (sys.process s.pid)) [
        | inl e ↦ inr (inl (here, e, ground arith, ground arith))
        | inr (p, e) ↦ inr (
            inr (
              p,
              here,
              e,
              ground arith,
              elim (Bool-cases (same_cmdline p s)) [
                | inl c ↦ inl (same_cmdline-SameCommand p s c, ground arith)
                | inr c ↦ inr (same_cmdline-OtherCommand p s c, ground arith)
              ],
            ))
      ]
]

abbrev pub SameHost : System → Type 0
SameHost sys = (h : Host) → sys.get_host ≡ some h → sys.host_id ≡ some h.id

-- The command line that the process shows, if it shows one.
abbrev shown : Option Process → String → String
shown none d = d
shown (some p) d = or_else p.proc_cmdline d

-- A second sync on the same machine changes nothing, where the host record that GetHost returns
-- carries the id that HostID reports.
pub latest_state_idem :
    (sys : System) (s : ProcessState)
    → SameHost sys
    → latest_state sys (some (latest_state sys (some s))) ≡ latest_state sys (some s)
unfolding latest_state
latest_state_idem sys s hosts =
    let c : String = shown (sys.process s.pid) s.cmdline in
    elim (Option-cases sys.get_host) [
      | inl e ↦ ground (arith, eq_refl c, eq_iff s.cmdline c)
      | inr (h, e) ↦
          let same : sys.host_id ≡ some h.id = hosts h e in
          ground (arith, eq_refl h.id, eq_refl c, eq_iff s.cmdline c)
    ]
