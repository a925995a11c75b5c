-- ===== src/Broadcast.antt =====
-- pkg/channel/broadcaster.go: a goroutine that passes values on to any number of receivers, and the
-- function that adds a receiver, as steps on their shared state. The channel of a receiver holds one
-- value. What a receiver has received from its channel is kept, to speak about it; so is a receiver that is
-- added after the end, which the code does not note, since nothing is sent to it any more.
pub mod History
pub mod Stuck
use mathlib.Core.List.{map}
use cedana.Base.{ℕ, Bool, true, false, List, [], ◌∷◌, ◌++◌}

module _ (V : Type 0) where
  pub record Receiver : Type 0 where
    pub received : List V
    pub content : List V

  -- The mutex: free, or held by a new receiver that is still to replay some values into its channel. The
  -- goroutine holds it only for one step, since its sends do not block.
  pub data Mutex : Type 0 where
    free : Mutex
    replaying : List V → List V → Mutex

  -- The values that are still to come on `in`, the state of the broadcaster, and the lock.
  pub record Broadcaster : Type 0 where
    pub input : List V
    pub buffer : List V
    pub receivers : List Receiver
    pub closed : Bool
    pub lock : Mutex

module _ {V : Type 0} where
  -- A send with a default: the value is dropped where the channel is full.
  abbrev pub offer : V → Receiver V → Receiver V
  offer v r = elim r.content [ [] ↦ record r { content = v ∷ [] } | w ∷ ws ↦ r ]

  abbrev pub new_receiver : List V → Receiver V
  new_receiver ch = record { received = []; content = ch }

  abbrev pub bc : List V → List V → List (Receiver V) → Bool → Mutex V → Broadcaster V
  bc input buffer receivers closed lock = record {
    input = input;
    buffer = buffer;
    receivers = receivers;
    closed = closed;
    lock = lock;
  }

  pub data Step : Broadcaster V → Broadcaster V → Type 0 where
    broadcast :
        (v : V) (is bs : List V) (rs : List (Receiver V)) (c : Bool)
        → Step (bc (v ∷ is) bs rs c free) (bc is (bs ++ v ∷ []) (map (offer v) rs) c free)
    finish :
        (bs : List V) (rs : List (Receiver V))
        → Step (bc [] bs rs false free) (bc [] bs rs true free)
    subscribe :
        (is bs : List V) (rs : List (Receiver V)) (c : Bool)
        → Step (bc is bs rs c free) (bc is bs rs c (replaying bs []))
    replay :
        (v : V) (is bs vs : List V) (rs : List (Receiver V)) (c : Bool)
        → Step (bc is bs rs c (replaying (v ∷ vs) [])) (bc is bs rs c (replaying vs (v ∷ [])))
    subscribed :
        (is bs ch : List V) (rs : List (Receiver V)) (c : Bool)
        → Step (bc is bs rs c (replaying [] ch)) (bc is bs (rs ++ new_receiver ch ∷ []) c free)
    receive :
        (v : V) (is bs received : List V) (xs ys : List (Receiver V)) (c : Bool) (l : Mutex V)
        → Step
            (bc is bs (xs ++ record { received = received; content = v ∷ [] } ∷ ys) c l)
            (bc is bs (xs ++ record { received = received ++ v ∷ []; content = [] } ∷ ys) c l)

  pub data Steps (s : Broadcaster V) : Broadcaster V → Type 0 where
    here : Steps s s
    then : {t u : Broadcaster V} → Steps s t → Step t u → Steps s u

  -- The state at the start, with the values that will come.
  abbrev pub just_made : List V → Broadcaster V
  just_made is = bc is [] [] false free
