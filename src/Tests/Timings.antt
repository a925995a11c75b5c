-- ===== src/Tests/Timings.antt =====
-- Timings, broadcasts and adapters at concrete inputs.
use cedana.Base.{
  ℕ, suc, some, ◌+◌, ◌%◌, ◌^◌, ◌≡◌, refl, Bool, true, false, [], ◌∷◌, All, inl, inr, arith,
}
use cedana.Profiling.{
  Info, Data, data_of, none_left, next, info, components, attach_trailer, print_duration,
}
use cedana.Profiling.Flat.{IsProper, IsShaded}
use cedana.Profiling.Trailer.{attach_trailer_total}
use cedana.Middleware.Timing.{Handler, World, Alike, with_adapters, with_adapters-Alike}
use cedana.Broadcast.{
  free, bc, broadcast, subscribe, subscribed, replay, Broadcaster, Steps, here, then, just_made,
  new_receiver,
}
use cedana.Broadcast.History.{Hears, history_heard}
use cedana.Broadcast.Stuck.{IsStuck, half_replayed, subscribe_blocks}

abbrev timing : ℕ → Bool → Info
timing n parallel = record {
  name = "";
  duration = n;
  io = 0;
  parallel = parallel;
  redundant = false;
  io_redundant = false;
}

-- 10 ns, of which 3 are in a component and 6 in an empty wrapper's; another runs beside them.
abbrev timings : Data
timings = data_of (timing 10 false) (
    next (data_of (timing 3 false) none_left) (
      next (data_of (timing 0 false) (next (data_of (timing 6 false) none_left) none_left))
        (next (data_of (timing 8 true) none_left) none_left)))

IsProper-timings : IsProper timings
unfolding IsProper IsShaded
IsProper-timings = (
  omega arith,
  (
    inr (refl, (omega arith, tt)),
    (inr (refl, (omega arith, (inr (refl, (omega arith, tt)), tt))), (inl (refl, tt), tt)),
  ),
)

left_over : (info (attach_trailer timings)).duration ≡ 1
unfolding attach_trailer
left_over = refl

attach_trailer_total_example :
    ((info (attach_trailer timings)).duration
        + print_duration 0 (components (attach_trailer timings)))
      % 2 ^ 64
    ≡ 10
attach_trailer_total_example = attach_trailer_total timings IsProper-timings

-- An exit code, with a receiver from before and one from after.
heard : Broadcaster ℕ
heard =
    bc [] (7 ∷ []) (record { received = []; content = 7 ∷ [] } ∷ new_receiver (7 ∷ []) ∷ []) false
      free

heard-Steps : Steps (just_made (7 ∷ [])) heard
unfolding heard
heard-Steps =
    then
      (then
        (then
          (then
            (then (then here (subscribe (7 ∷ []) [] [] false)) (subscribed (7 ∷ []) [] [] [] false))
            (broadcast 7 [] [] (new_receiver [] ∷ []) false))
          (subscribe [] (7 ∷ []) (new_receiver (7 ∷ []) ∷ []) false))
        (replay 7 [] (7 ∷ []) [] (new_receiver (7 ∷ []) ∷ []) false))
      (subscribed [] (7 ∷ []) (7 ∷ []) (new_receiver (7 ∷ []) ∷ []) false)

history_heard_example : All (Hears heard.buffer) heard.receivers
history_heard_example = history_heard (7 ∷ []) heard (omega arith) heard-Steps

subscribe_blocks_example :
    Steps {V = ℕ} (bc [] (1 ∷ 2 ∷ []) [] false free) (half_replayed 1 2 [] [] [] false)
    × ((t : Broadcaster ℕ)
        → Steps {V = ℕ} (half_replayed 1 2 [] [] [] false) t
        → IsStuck {V = ℕ} 1 2 [] [] (1 ∷ 2 ∷ []) t)
subscribe_blocks_example = subscribe_blocks {V = ℕ} 1 2 [] [] [] false

-- A handler that adds a number of its context, behind an adapter that raises the number.
abbrev adds : Handler ℕ ℕ ℕ
adds = record { is_timed = false; run = λ ctx w. (record w { rest = w.rest + ctx.user }, w.rest) }

abbrev raised : Handler ℕ ℕ ℕ → Handler ℕ ℕ ℕ
raised inner = record {
  is_timed = false;
  run = λ ctx w. inner.run (record ctx { user = suc ctx.user }) w;
}

abbrev clock : World ℕ → ℕ
clock w = 5

-- With profiling there is a component for the adapter and one for the handler below it.
timed_test :
    (with_adapters clock true adds (raised ∷ [])).run
      (record { user = 1; component = some 9 })
      (record { rest = 3; components = [] })
    ≡ (
      record {
        rest = 5;
        components =
            record { parent = 9; duration = some 5 }
            ∷ record { parent = 0; duration = some 5 }
            ∷ [];
      },
      3,
    )
unfolding with_adapters
timed_test = refl

with_adapters-Alike_example :
    Alike
      (with_adapters clock true adds (raised ∷ []))
      (with_adapters clock false adds (raised ∷ []))
with_adapters-Alike_example =
    with_adapters-Alike clock true adds (raised ∷ []) (λ u v p q cs ds. (refl, refl))
      ((λ f g same u v p q cs ds. same (suc u) v p q cs ds), tt)
