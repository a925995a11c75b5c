-- ===== src/Broadcast/Stuck.antt =====
-- Where two values have been broadcast, a new receiver blocks the broadcaster.
use cedana.Base.{◌≡◌, refl, subst, Bool, List, [], ◌∷◌, ap}
use cedana.Broadcast.{
  Receiver, Mutex, free, replaying, Broadcaster, bc, Step, broadcast, finish, subscribe, replay,
  subscribed, receive, Steps, here, then,
}

module _ {V : Type 0} where
  -- A new receiver holds the lock, and its channel is full.
  pub record IsStuck (v w : V) (vs is bs : List V) (s : Broadcaster V) : Type 0 where
    pub holds : s.lock ≡ replaying (w ∷ vs) (v ∷ [])
    pub waits : s.input ≡ is
    pub keeps : s.buffer ≡ bs

  abbrev rest_of : Mutex V → List V
  rest_of free = []
  rest_of (replaying vs ch) = vs

  abbrev content_of : Mutex V → List V
  content_of free = []
  content_of (replaying vs ch) = ch

  abbrev IsEmpty : List V → Type 0
  IsEmpty [] = Unit
  IsEmpty (v ∷ vs) = ⊥

  Step-IsStuck :
      (v w : V) (vs is bs : List V) {s t : Broadcaster V}
      → Step s t
      → IsStuck v w vs is bs s
      → IsStuck v w vs is bs t
  Step-IsStuck v w vs is bs (broadcast u js cs rs c) k =
      absurd (subst IsEmpty (ap rest_of k.holds) tt)
  Step-IsStuck v w vs is bs (finish cs rs) k = absurd (subst IsEmpty (ap rest_of k.holds) tt)
  Step-IsStuck v w vs is bs (subscribe js cs rs c) k =
      absurd (subst IsEmpty (ap rest_of k.holds) tt)
  Step-IsStuck v w vs is bs (replay u js cs us rs c) k =
      absurd (subst IsEmpty (ap content_of k.holds) tt)
  Step-IsStuck v w vs is bs (subscribed js cs ch rs c) k =
      absurd (subst IsEmpty (ap rest_of k.holds) tt)
  Step-IsStuck v w vs is bs (receive u js cs received xs ys c l) k = record {
    holds = k.holds;
    waits = k.waits;
    keeps = k.keeps;
  }

  Steps-IsStuck :
      (v w : V) (vs is bs : List V) {s t : Broadcaster V}
      → Steps s t
      → IsStuck v w vs is bs s
      → IsStuck v w vs is bs t
  Steps-IsStuck v w vs is bs here k = k
  Steps-IsStuck v w vs is bs (then r st) k =
      Step-IsStuck v w vs is bs st (Steps-IsStuck v w vs is bs r k)

  -- The first value is in the channel of the new receiver, which nobody has yet.
  abbrev pub half_replayed : V → V → List V → List V → List (Receiver V) → Bool → Broadcaster V
  half_replayed v w vs is rs c = bc is (v ∷ w ∷ vs) rs c (replaying (w ∷ vs) (v ∷ []))

  -- After two values a new receiver waits forever for room in its own channel, which it returns
  -- only afterwards, and holds the lock: from then on no value is broadcast and no receiver is added.
  pub subscribe_blocks :
      (v w : V) (vs is : List V) (rs : List (Receiver V)) (c : Bool)
      → Steps (bc is (v ∷ w ∷ vs) rs c free) (half_replayed v w vs is rs c)
        × ((t : Broadcaster V)
            → Steps (half_replayed v w vs is rs c) t
            → IsStuck v w vs is (v ∷ w ∷ vs) t)
  subscribe_blocks v w vs is rs c = (
    then (then here (subscribe is (v ∷ w ∷ vs) rs c)) (replay v is (v ∷ w ∷ vs) (w ∷ vs) rs c),
    λ t r.
        Steps-IsStuck v w vs is (v ∷ w ∷ vs) r
          (record { holds = refl; waits = refl; keeps = refl }),
  )
