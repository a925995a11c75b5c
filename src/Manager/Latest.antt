-- ===== src/Manager/Latest.antt =====
-- GetLatestCheckpoint of internal/cedana/job/manager_lazy.go.
use cedana.Base.{
  String, ◌≤◌, ◌≡◌, refl, ◌⊎◌, inl, inr, eq_iff, Option, none, some, List, [], ◌∷◌, arith, values,
  In, Bool-cases, str_eq, ltb, ◌&&◌,
}
use cedana.Manager.State.{Checkpoint, Manager}
use cedana.Manager.Checkpoints.{keep_newer, latest_from, get_latest_checkpoint}

-- One round loses nothing: what is kept is the old one or the new one, and no older than either.
abbrev NoOlder : String → Option Checkpoint → Checkpoint → Option Checkpoint → Type 0
NoOlder jid acc x none = (acc ≡ none) × (x.checkpoint_jid ≡ jid → ⊥)
NoOlder jid acc x (some k) =
    ((acc ≡ some k) ⊎ ((k ≡ x) × (x.checkpoint_jid ≡ jid)))
    × ((a : Checkpoint) → acc ≡ some a → a.time ≤ k.time)
    × (x.checkpoint_jid ≡ jid → x.time ≤ k.time)

keep_newer_lem :
    (jid : String) (acc : Option Checkpoint) (x : Checkpoint)
    → NoOlder jid acc x (keep_newer jid acc x)
unfolding keep_newer
keep_newer_lem jid none x = elim (Bool-cases (str_eq x.checkpoint_jid jid)) [
  | inl e ↦
      rw e (inr (refl, ground (arith, eq_iff x.checkpoint_jid jid)), λ a q. cc, λ q. omega arith)
  | inr e ↦ rw e (refl, λ q. ground (arith, eq_iff x.checkpoint_jid jid))
]
keep_newer_lem jid (some y) x =
    elim (Bool-cases (str_eq x.checkpoint_jid jid && ltb y.time x.time)) [
      | inl e ↦ rw e (
        inr (refl, ground (arith, eq_iff x.checkpoint_jid jid)),
        λ a q. ground arith,
        λ q. omega arith,
      )
      | inr e ↦
          rw e (inl refl, λ a q. ground arith, λ q. ground (arith, eq_iff x.checkpoint_jid jid))
    ]

-- What the loop finds comes from the accumulator or from the list, and none of either is newer.
abbrev Newest : String → Option Checkpoint → List Checkpoint → Option Checkpoint → Type 0
Newest jid acc cs none = (acc ≡ none) × ((d : Checkpoint) → In d cs → d.checkpoint_jid ≡ jid → ⊥)
Newest jid acc cs (some c) =
    ((acc ≡ some c) ⊎ (In c cs × (c.checkpoint_jid ≡ jid)))
    × ((a : Checkpoint) → acc ≡ some a → a.time ≤ c.time)
    × ((d : Checkpoint) → In d cs → d.checkpoint_jid ≡ jid → d.time ≤ c.time)

Newest-cons :
    (jid : String) (acc kept : Option Checkpoint) (x : Checkpoint) (cs : List Checkpoint)
    → NoOlder jid acc x kept
    → (r : Option Checkpoint) → Newest jid kept cs r
    → Newest jid acc (x ∷ cs) r
Newest-cons jid acc none x cs n none (_, rest) = (n.0, λ d i q. ground (arith, rest d, n.1))
Newest-cons jid acc (some k) x cs n none (e, rest) = absurd (ground arith)
Newest-cons jid acc none x cs n (some c) w =
    (ground (arith, w.0), λ a q. ground (arith, n.0), λ d i q. ground (arith, w.2 d, n.1))
Newest-cons jid acc (some k) x cs n (some c) w = (
  ground (arith, w.0, n.0),
  λ a q. ground (arith, w.1 k, n.1 a),
  λ d i q. ground (arith, w.2 d, w.1 k, n.2),
)

latest_from-Newest :
    (jid : String) (cs : List Checkpoint) (acc : Option Checkpoint)
    → Newest jid acc cs (latest_from jid acc cs)
unfolding latest_from
latest_from-Newest jid [] none = (refl, λ d i q. i)
latest_from-Newest jid [] (some c) = (inl refl, λ a e. ground arith, λ d i q. absurd i)
latest_from-Newest jid (x ∷ cs) acc =
    Newest-cons jid acc (keep_newer jid acc x) x cs (keep_newer_lem jid acc x) _
      (latest_from-Newest jid cs (keep_newer jid acc x))

-- What GetLatestCheckpoint owes its caller: nothing exactly if the job has no checkpoint, and
-- otherwise a checkpoint of the job that is at least as new as all of them.
abbrev pub IsLatest : String → List Checkpoint → Option Checkpoint → Type 0
IsLatest jid cs none = (d : Checkpoint) → In d cs → d.checkpoint_jid ≡ jid → ⊥
IsLatest jid cs (some c) =
    In c cs
    × (c.checkpoint_jid ≡ jid)
    × ((d : Checkpoint) → In d cs → d.checkpoint_jid ≡ jid → d.time ≤ c.time)

IsLatest-of_Newest :
    (jid : String) (cs : List Checkpoint) (r : Option Checkpoint)
    → Newest jid none cs r
    → IsLatest jid cs r
IsLatest-of_Newest jid cs none n = n.1
IsLatest-of_Newest jid cs (some c) (inl e, _, _) = absurd (cc)
IsLatest-of_Newest jid cs (some c) (inr (i, e), _, newest) = (i, e, newest)

-- GetLatestCheckpoint answers nil if the job has no checkpoint, and otherwise one of the job's
-- checkpoints such that none of the job's checkpoints is newer.
pub get_latest_checkpoint-IsLatest :
    (jid : String) (m : Manager) → IsLatest jid (values m.checkpoints) (get_latest_checkpoint jid m)
unfolding get_latest_checkpoint
get_latest_checkpoint-IsLatest jid m =
    IsLatest-of_Newest jid (values m.checkpoints) _
      (latest_from-Newest jid (values m.checkpoints) none)
