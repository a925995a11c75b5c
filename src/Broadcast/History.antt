-- ===== src/Broadcast/History.antt =====
-- Where at most one value is broadcast, as for an exit code, each receiver gets it.
use mathlib.Core.List.{append-nil}
use cedana.Base.{◌+◌, ◌≤◌, ◌≡◌, refl, ap, sym, ◌∙◌, List, [], ◌∷◌, ◌++◌, map, length, All, arith}
use cedana.Broadcast.{
  Receiver, Mutex, free, replaying, Broadcaster, offer, new_receiver, Step, broadcast, finish,
  subscribe, replay, subscribed, receive, Steps, here, then, just_made,
}

module _ {V : Type 0} where
  -- The receiver has got, or will find in its channel, all of a history.
  abbrev pub Hears : List V → Receiver V → Type 0
  Hears bs r = r.received ++ r.content ≡ bs

  abbrev Replays : List V → Mutex V → Type 0
  Replays bs free = Unit
  Replays bs (replaying vs ch) = ch ++ vs ≡ bs

  record IsWhole (s : Broadcaster V) : Type 0 where
    short : length s.buffer + length s.input ≤ 1
    hears : All (Hears s.buffer) s.receivers
    replays : Replays s.buffer s.lock

  nil-both : (xs ys : List V) → xs ++ ys ≡ [] → (xs ≡ []) × (ys ≡ [])
  nil-both [] ys e = (refl, e)
  nil-both (x ∷ xs) ys e = absurd (omega (arith, ap length e))

  Hears-offer : (v : V) (r : Receiver V) → Hears [] r → Hears (v ∷ []) (offer v r)
  Hears-offer v r h = let (t, c) = nil-both r.received r.content h in rw (t, c) refl

  All-offer :
      (v : V) (rs : List (Receiver V)) → All (Hears []) rs → All (Hears (v ∷ [])) (map (offer v) rs)
  All-offer v [] h = tt
  All-offer v (r ∷ rs) h = (Hears-offer v r h.0, All-offer v rs h.1)

  All-end :
      (P : Receiver V → Type 0) (rs : List (Receiver V)) (r : Receiver V)
      → All P rs
      → P r
      → All P (rs ++ r ∷ [])
  All-end P [] r h p = (p, tt)
  All-end P (q ∷ rs) r h p = (h.0, All-end P rs r h.1 p)

  All-replace :
      (P : Receiver V → Type 0) (xs ys : List (Receiver V)) (r q : Receiver V)
      → (P r → P q)
      → All P (xs ++ r ∷ ys)
      → All P (xs ++ q ∷ ys)
  All-replace P [] ys r q f h = (f h.0, h.1)
  All-replace P (x ∷ xs) ys r q f h = (h.0, All-replace P xs ys r q f h.1)

  Step-IsWhole : {s t : Broadcaster V} → Step s t → IsWhole s → IsWhole t
  Step-IsWhole (broadcast v is [] rs c) w = record {
    short = omega (arith, w.short);
    hears = All-offer v rs w.hears;
    replays = tt;
  }
  Step-IsWhole (broadcast v is (b ∷ bs) rs c) w = absurd (omega (arith, w.short))
  Step-IsWhole (finish bs rs) w = record { short = w.short; hears = w.hears; replays = tt }
  Step-IsWhole (subscribe is bs rs c) w = record {
    short = w.short;
    hears = w.hears;
    replays = refl;
  }
  Step-IsWhole (replay v is bs vs rs c) w = record {
    short = w.short;
    hears = w.hears;
    replays = w.replays;
  }
  Step-IsWhole (subscribed is bs ch rs c) w = record {
    short = w.short;
    hears = All-end (Hears bs) rs (new_receiver ch) w.hears (sym (append-nil ch) ∙ w.replays);
    replays = tt;
  }
  Step-IsWhole (receive v is bs received xs ys c l) w = record {
    short = w.short;
    hears =
        All-replace (Hears bs) xs ys (record { received = received; content = v ∷ [] })
          (record { received = received ++ v ∷ []; content = [] })
          (λ e. append-nil (received ++ v ∷ []) ∙ e) w.hears;
    replays = w.replays;
  }

  Steps-IsWhole : {s t : Broadcaster V} → Steps s t → IsWhole s → IsWhole t
  Steps-IsWhole here w = w
  Steps-IsWhole (then r st) w = Step-IsWhole st (Steps-IsWhole r w)

  just_made-IsWhole : (is : List V) → length is ≤ 1 → IsWhole (just_made is)
  just_made-IsWhole is h = record { short = omega (arith, h); hears = tt; replays = tt }

  -- Of an input of at most one value, every receiver has got, or will find in its channel, all that has been
  -- broadcast, whether it was added before or after.
  pub history_heard :
      (is : List V) (t : Broadcaster V)
      → length is ≤ 1
      → Steps (just_made is) t
      → All (Hears t.buffer) t.receivers
  history_heard is t h r = (Steps-IsWhole r (just_made-IsWhole is h)).hears
