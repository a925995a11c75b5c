-- ===== src/Manager/Drain.antt =====
-- What the background routine of internal/cedana/job/manager_lazy.go achieves once the database
-- answers: the tables agree with the memory at every id that has an action in the channel.
use cedana.Base.{
  ℕ, zero, suc, String, ◌≡◌, refl, ◌⊎◌, inl, inr, eq_iff, true, Option, none, some, List, [], ◌∷◌,
  arith, is_some, Option-cases, load, load-store, load-delete, In, length,
}
use cedana.Job.{JobProto, Job}
use cedana.Manager.State.{Action, initialize, put_job, put_checkpoint, shutdown, Manager}
use cedana.Manager.Sync.{Calls, World, carry_out, work}
use cedana.Manager.Tracked.{Tracked}

-- `n` turns of the routine.
unfoldable pub drain : Calls → ℕ → World → World
drain calls zero w = w
drain calls (suc n) w = drain calls n (work calls w)

-- The actions that methods send: all but the periodic `initialize`.
abbrev pub Puts : List Action → Type 0
Puts [] = Unit {0}
Puts (initialize ∷ p) = ⊥
Puts (put_job jid ∷ p) = Puts p
Puts (put_checkpoint id ∷ p) = Puts p
Puts (shutdown ∷ p) = Puts p

abbrev pub proto_of : Option Job → Option JobProto
proto_of none = none
proto_of (some job) = some job.proto

-- What is changed: a job or a checkpoint.
pub data Entry : Type 0 where
  a_job a_checkpoint : String → Entry

-- In memory with an action in the channel, or deleted and not in memory.
abbrev pub Changed : Entry → Manager → Type 0
Changed (a_job jid) m =
    ((is_some (load jid m.jobs) ≡ true) × In (put_job jid) m.pending)
    ⊎ ((is_some (load jid m.deleted_jobs) ≡ true) × (load jid m.jobs ≡ none))
Changed (a_checkpoint id) m =
    ((is_some (load id m.checkpoints) ≡ true) × In (put_checkpoint id) m.pending)
    ⊎ ((is_some (load id m.deleted_checkpoints) ≡ true) × (load id m.checkpoints ≡ none))

-- The database has of it what the memory has of it.
abbrev pub Settled : Entry → World → Type 0
Settled (a_job jid) w = load jid w.db.job_table ≡ proto_of (load jid w.manager.jobs)
Settled (a_checkpoint id) w = load id w.db.checkpoint_table ≡ load id w.manager.checkpoints

abbrev Owed : Entry → List Action → World → Type 0
Owed (a_job jid) p w =
    (In (put_job jid) p
      × ((is_some (load jid w.manager.jobs) ≡ true)
          ⊎ (is_some (load jid w.manager.deleted_jobs) ≡ true)))
    ⊎ Settled (a_job jid) w
Owed (a_checkpoint id) p w =
    (In (put_checkpoint id) p
      × ((is_some (load id w.manager.checkpoints) ≡ true)
          ⊎ (is_some (load id w.manager.deleted_checkpoints) ≡ true)))
    ⊎ Settled (a_checkpoint id) w

Changed-Owed :
    (t : Entry) (w : World) → Tracked w.manager → Changed t w.manager → Owed t w.manager.pending w
Changed-Owed (a_job jid) w k (inl (here, sent)) = inl (sent, inl here)
Changed-Owed (a_job jid) w k (inr (deleted, gone)) =
    inl (k.jobs_tracked jid deleted gone, inr deleted)
Changed-Owed (a_checkpoint id) w k (inl (here, sent)) = inl (sent, inl here)
Changed-Owed (a_checkpoint id) w k (inr (deleted, gone)) =
    inl (k.checkpoints_tracked id deleted gone, inr deleted)

work_lem :
    (calls : Calls) (a : Action) (rest : List Action) (w : World)
    → w.manager.pending ≡ a ∷ rest
    → work calls w ≡ carry_out calls a rest w
unfolding work
work_lem calls a rest w e = rw (e, work)

module _ (calls : Calls) (up : calls.write_ok ≡ true) where
  carry_out-pending :
      (a : Action) (rest : List Action) (w : World)
      → Puts (a ∷ rest)
      → (carry_out calls a rest w).manager.pending ≡ rest
  unfolding carry_out
  carry_out-pending initialize rest w h = absurd h
  carry_out-pending (put_job jid) rest w h = ground arith
  carry_out-pending (put_checkpoint id) rest w h = ground arith
  carry_out-pending shutdown rest w h = refl

  carry_out-JobOwed :
      (jid : String) (a : Action) (rest : List Action) (w : World)
      → Puts (a ∷ rest)
      → Owed (a_job jid) (a ∷ rest) w
      → Owed (a_job jid) rest (carry_out calls a rest w)
  unfolding carry_out
  carry_out-JobOwed jid initialize rest w h o = absurd h
  carry_out-JobOwed jid (put_job j) rest w h o = elim (Option-cases (load j w.manager.jobs)) [
    | inl e ↦ ground (
      arith,
      eq_iff j jid,
      load-delete j jid w.db.job_table,
      load-delete j jid w.manager.deleted_jobs,
    )
    | inr (job, e) ↦ ground (arith, eq_iff j jid, load-store j jid job.proto w.db.job_table)
  ]
  carry_out-JobOwed jid (put_checkpoint id) rest w h o = ground arith
  carry_out-JobOwed jid shutdown rest w h o = ground arith

  carry_out-CheckpointOwed :
      (id : String) (a : Action) (rest : List Action) (w : World)
      → Puts (a ∷ rest)
      → Owed (a_checkpoint id) (a ∷ rest) w
      → Owed (a_checkpoint id) rest (carry_out calls a rest w)
  unfolding carry_out
  carry_out-CheckpointOwed id initialize rest w h o = absurd h
  carry_out-CheckpointOwed id (put_checkpoint i) rest w h o =
      elim (Option-cases (load i w.manager.checkpoints)) [
        | inl e ↦ ground (
          arith,
          eq_iff i id,
          load-delete i id w.db.checkpoint_table,
          load-delete i id w.manager.deleted_checkpoints,
        )
        | inr (c, e) ↦ ground (arith, eq_iff i id, load-store i id c w.db.checkpoint_table)
      ]
  carry_out-CheckpointOwed id (put_job jid) rest w h o = ground arith
  carry_out-CheckpointOwed id shutdown rest w h o = ground arith

  Puts-tail : (a : Action) (rest : List Action) → Puts (a ∷ rest) → Puts rest
  Puts-tail initialize rest h = absurd h
  Puts-tail (put_job jid) rest h = h
  Puts-tail (put_checkpoint id) rest h = h
  Puts-tail shutdown rest h = h

  carry_out-Owed :
      (t : Entry) (a : Action) (rest : List Action) (w : World)
      → Puts (a ∷ rest)
      → Owed t (a ∷ rest) w
      → Owed t rest (carry_out calls a rest w)
  carry_out-Owed (a_job jid) = carry_out-JobOwed jid
  carry_out-Owed (a_checkpoint id) = carry_out-CheckpointOwed id

  Owed-none : (t : Entry) (w : World) → Owed t [] w → Settled t w
  Owed-none (a_job jid) w o = ground arith
  Owed-none (a_checkpoint id) w o = ground arith

  drain-pending :
      (p : List Action) (w : World)
      → w.manager.pending ≡ p
      → Puts p
      → (drain calls (length p) w).manager.pending ≡ []
  unfolding drain
  drain-pending [] w e h = e
  drain-pending (a ∷ rest) w e h =
      rw (work_lem calls a rest w e, drain)
        (drain-pending rest (carry_out calls a rest w) (carry_out-pending a rest w h)
          (Puts-tail a rest h))

  drain-Settled :
      (t : Entry) (p : List Action) (w : World)
      → w.manager.pending ≡ p
      → Puts p
      → Owed t p w
      → Settled t (drain calls (length p) w)
  unfolding drain
  drain-Settled t [] w e h o = Owed-none t w o
  drain-Settled t (a ∷ rest) w e h o =
      rw (work_lem calls a rest w e, drain)
        (drain-Settled t rest (carry_out calls a rest w) (carry_out-pending a rest w h)
          (Puts-tail a rest h) (carry_out-Owed t a rest w h o))

-- With the database answering, and in the channel only actions of the kinds that methods send, the
-- channel is empty after as many turns as it has actions.
pub drain-empties :
    (calls : Calls) (w : World)
    → calls.write_ok ≡ true
    → Puts w.manager.pending
    → (drain calls (length w.manager.pending) w).manager.pending ≡ []
drain-empties calls w up h = drain-pending calls up w.manager.pending w refl h

-- After as many turns as the channel has actions, all of them of the kinds that methods send, with
-- the database answering and with the deletions tracked by actions, the table of a job or of a
-- checkpoint has exactly what the memory has of it, if it is in memory with an action in the channel, or
-- was deleted and is not in memory (the table then has no entry for it).
pub drain-settles :
    (calls : Calls) (w : World) (t : Entry)
    → calls.write_ok ≡ true
    → Tracked w.manager
    → Puts w.manager.pending
    → Changed t w.manager
    → Settled t (drain calls (length w.manager.pending) w)
drain-settles calls w t up k h c =
    drain-Settled calls up t w.manager.pending w refl h (Changed-Owed t w k c)
