-- ===== src/Manager/Channel.antt =====
-- The channel `pending` of internal/cedana/job/manager_lazy.go with its bound of 64 actions, and the
-- phases of the routine that is its only reader and also writes to it: after a failed action, at the
-- periodic initialize and at shutdown. Sends of the methods come from other goroutines.
use cedana.Base.{
  ℕ, zero, suc, ◌+◌, ◌≤◌, ◌<◌, ◌≡◌, refl, sym, subst, List, [], ◌∷◌, ◌++◌, arith, length,
  length-append,
}
use cedana.Manager.State.{Action, initialize, shutdown}

abbrev pub capacity : ℕ
capacity = 64

pub data Phase : Type 0 where
  receiving : Phase
  requeueing : Action → Phase
  stopping : Phase
  draining : Phase
  stopped : Phase

pub record Routine : Type 0 where
  pub phase : Phase
  pub queue : List Action

abbrev pub start : Routine
start = record { phase = receiving; queue = [] }

pub data Step : Routine → Routine → Type 0 where
  sent :
      (p : Phase) (q : List Action) (a : Action)
      → length q < capacity
      → Step (record { phase = p; queue = q }) (record { phase = p; queue = q ++ a ∷ [] })
  synced :
      (q : List Action) (a : Action)
      → Step (record { phase = receiving; queue = a ∷ q }) (record { phase = receiving; queue = q })
  failed :
      (q : List Action) (a : Action)
      → Step
          (record { phase = receiving; queue = a ∷ q })
          (record { phase = requeueing a; queue = q })
  timed :
      (q : List Action)
      → Step
          (record { phase = receiving; queue = q })
          (record { phase = requeueing initialize; queue = q })
  requeued :
      (q : List Action) (a : Action)
      → length q < capacity
      → Step
          (record { phase = requeueing a; queue = q })
          (record { phase = receiving; queue = q ++ a ∷ [] })
  cancelled :
      (q : List Action)
      → Step (record { phase = receiving; queue = q }) (record { phase = stopping; queue = q })
  announced :
      (q : List Action)
      → length q < capacity
      → Step
          (record { phase = stopping; queue = q })
          (record { phase = draining; queue = q ++ shutdown ∷ [] })
  drained :
      (q : List Action) (a : Action)
      → (a ≡ shutdown → ⊥)
      → Step (record { phase = draining; queue = a ∷ q }) (record { phase = draining; queue = q })
  ended :
      (q : List Action)
      → Step
          (record { phase = draining; queue = shutdown ∷ q })
          (record { phase = stopped; queue = q })

pub data Reach (s : Routine) : Routine → Type 0 where
  here : Reach s s
  next : {t u : Routine} → Reach s t → Step t u → Reach s u

-- The channel is full while the routine itself has something to send.
pub data Writes : Phase → Type 0 where
  requeues : (a : Action) → Writes (requeueing a)
  stops : Writes stopping

pub record Stuck (s : Routine) : Type 0 where
  pub full : length s.queue ≡ capacity
  pub writes : Writes s.phase

Step-bounded : {s t : Routine} → Step s t → length s.queue ≤ capacity → length t.queue ≤ capacity
Step-bounded (sent p q a h) b = omega (arith, length-append q (a ∷ []))
Step-bounded (synced q a) b = omega arith
Step-bounded (failed q a) b = omega arith
Step-bounded (timed q) b = b
Step-bounded (requeued q a h) b = omega (arith, length-append q (a ∷ []))
Step-bounded (cancelled q) b = b
Step-bounded (announced q h) b = omega (arith, length-append q (shutdown ∷ []))
Step-bounded (drained q a h) b = omega arith
Step-bounded (ended q) b = omega arith

Step-Stuck : {s t : Routine} → Step s t → Stuck s → ⊥
Step-Stuck (sent p q a h) k = omega (arith, k.full)
Step-Stuck (synced q a) k = elim k.writes [ ]
Step-Stuck (failed q a) k = elim k.writes [ ]
Step-Stuck (timed q) k = elim k.writes [ ]
Step-Stuck (requeued q a h) k = omega (arith, k.full)
Step-Stuck (cancelled q) k = elim k.writes [ ]
Step-Stuck (announced q h) k = omega (arith, k.full)
Step-Stuck (drained q a h) k = elim k.writes [ ]
Step-Stuck (ended q) k = elim k.writes [ ]

-- From a stuck state nothing moves any more: neither the routine nor any method that sends.
pub Stuck-forever : {s t : Routine} → Stuck s → Reach s t → t ≡ s
Stuck-forever k here = refl
Stuck-forever k (next r st) = absurd (Step-Stuck st (subst Stuck (sym (Stuck-forever k r)) k))

-- `n` sends of methods, from any phase.
flood : ℕ → Action → List Action → List Action
flood zero a q = q
flood (suc n) a q = flood n a q ++ a ∷ []

length-flood : (n : ℕ) (a : Action) (q : List Action) → length (flood n a q) ≡ n + length q
unfolding flood
length-flood zero a q = omega arith
length-flood (suc n) a q = omega (arith, length-append (flood n a q) (a ∷ []), length-flood n a q)

Reach-flood :
    (s : Routine) (p : Phase) (n : ℕ) (a : Action) (q : List Action)
    → n + length q ≤ capacity
    → Reach s (record { phase = p; queue = q })
    → Reach s (record { phase = p; queue = flood n a q })
unfolding flood
Reach-flood s p zero a q h r = r
Reach-flood s p (suc n) a q h r =
    next (Reach-flood s p n a q (omega arith) r)
      (sent p (flood n a q) a (omega (arith, length-flood n a q)))

stuck_at : Phase → Action → Routine
stuck_at p a = record { phase = p; queue = flood 64 a [] }

stuck_at-Stuck : (p : Phase) (a : Action) → Writes p → Stuck (stuck_at p a)
unfolding stuck_at
stuck_at-Stuck p a w = record { full = length-flood 64 a []; writes = w }

-- While the routine retries an action, methods can fill the channel; then the routine waits for
-- room in a channel that only it empties, and nothing moves any more.
pub requeue_blocks :
    (a : Action)
    → (s : Routine) × Reach start s × (s.phase ≡ requeueing a) × ((t : Routine) → Reach s t → t ≡ s)
unfolding stuck_at
requeue_blocks a = (
  stuck_at (requeueing a) a,
  Reach-flood start (requeueing a) 64 a [] (omega arith)
      (next (next here (sent receiving [] a (omega arith))) (failed [] a)),
  refl,
  λ t. Stuck-forever (stuck_at-Stuck (requeueing a) a (requeues a)),
)

-- If the channel is full when the daemon shuts down, the routine waits for room to announce the
-- shutdown, in a channel that only it empties, and nothing moves any more.
pub shutdown_blocks :
    (a : Action)
    → (s : Routine) × Reach start s × (s.phase ≡ stopping) × ((t : Routine) → Reach s t → t ≡ s)
unfolding stuck_at
shutdown_blocks a = (
  stuck_at stopping a,
  Reach-flood start stopping 64 a [] (omega arith) (next here (cancelled [])),
  refl,
  λ t. Stuck-forever (stuck_at-Stuck stopping a stops),
)

-- The channel never holds more than its capacity.
pub Reach-bounded :
    {s t : Routine} → length s.queue ≤ capacity → Reach s t → length t.queue ≤ capacity
Reach-bounded b here = b
Reach-bounded b (next r st) = Step-bounded st (Reach-bounded b r)
