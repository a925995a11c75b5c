-- ===== src/Middleware/Timing.antt =====
-- pkg/types/timer.go (Timer) with StartTimingComponent of pkg/profiling/timing.go, and Handler.With of
-- pkg/types/adapter.go. Of a context there is the component of the profiling data that it names, if
-- any, and the rest, of any type; likewise of what a handler changes. The clock is a parameter.
use cedana.Base.{
  ℕ, suc, zero, ◌≡◌, Bool, true, false, Option, none, some, List, [], ◌∷◌, ◌++◌, if◌then◌else◌,
  length, Bool-cases, inl, inr,
}
use cedana.Middleware.{
  Adapter, adapted, adapted_with_profiler, adapted-cons, adapted-nil, adapted_with_profiler-nil,
  adapted_with_profiler-cons,
}

-- A component under its parent, with its duration once it has ended.
pub record Component : Type 0 where
  pub parent : ℕ
  pub duration : Option ℕ

pub record Context (U : Type 0) : Type 0 where
  pub user : U
  pub component : Option ℕ

pub record World (V : Type 0) : Type 0 where
  pub rest : V
  pub components : List Component

-- A handler, with whether it is a function that Timer has made.
pub record Handler (U V R : Type 0) : Type 0 where
  pub is_timed : Bool
  pub run : Context U → World V → World V × R

unfoldable pub set_duration : ℕ → ℕ → List Component → List Component
set_duration i d [] = []
set_duration zero d (c ∷ cs) = record c { duration = some d } ∷ cs
set_duration (suc i) d (c ∷ cs) = c ∷ set_duration i d cs

module _ {U V : Type 0} where
  -- StartTimingComponent: nothing is recorded in a context without profiling data.
  unfoldable pub start_timing : Context U → World V → Context U × World V
  start_timing ctx w = elim ctx.component [
    | none ↦ (ctx, w)
    | some parent ↦ (
      record ctx { component = some (length w.components) },
      record w { components = w.components ++ record { parent = parent; duration = none } ∷ [] },
    )
  ]

module _ {V : Type 0} (elapsed : World V → ℕ) where
  -- The function that it returns, for the context and the child context.
  unfoldable pub end_timing : Option ℕ → Option ℕ → World V → World V
  unfolding set_duration
  end_timing (some parent) (some child) w = record w {
    components = set_duration child (elapsed w) w.components;
  }
  end_timing _ _ w = w

module _ {U V R : Type 0} (elapsed : World V → ℕ) where
  -- A call of the next handler as a component.
  unfoldable pub timed : Handler U V R → Context U → World V → World V × R
  unfolding start_timing end_timing
  timed next ctx w =
      let (ctx', w') = start_timing ctx w in
      let (w'', r) = next.run ctx' w' in (end_timing elapsed ctx.component ctx'.component w'', r)

  -- Timer. (The comparison of code pointers says whether the next handler is one of Timer's own.)
  unfoldable pub timer : Adapter (Handler U V R)
  unfolding timed
  timer next = record {
    is_timed = true;
    run = λ ctx w. if next.is_timed then next.run ctx w else timed next ctx w;
  }

  -- Handler.With, by whether profiling is enabled.
  unfoldable pub with_adapters :
      Bool → Handler U V R → List (Adapter (Handler U V R)) → Handler U V R
  unfolding adapted adapted_with_profiler timer
  with_adapters profiling h xs =
      if profiling then adapted_with_profiler h timer xs else adapted h xs

-- Handlers that do the same and answer the same, whatever profiling data each of them meets.
abbrev pub Alike : {U V R : Type 0} → Handler U V R → Handler U V R → Type 0
Alike {U} {V} f g =
    (u : U) (v : V) (p q : Option ℕ) (cs ds : List Component)
    → let (w, r) =
        f.run (record { user = u; component = p }) (record { rest = v; components = cs }) in
      let (w', r') =
        g.run (record { user = u; component = q }) (record { rest = v; components = ds }) in
      (w.rest ≡ w'.rest) × (r ≡ r')

-- An adapter that does not look at the profiling data.
abbrev pub Respects : {U V R : Type 0} → Adapter (Handler U V R) → Type 0
Respects {U} {V} {R} a = (f g : Handler U V R) → Alike f g → Alike (a f) (a g)

abbrev pub AllRespect : {U V R : Type 0} → List (Adapter (Handler U V R)) → Type 0
AllRespect [] = Unit
AllRespect (a ∷ xs) = Respects a × AllRespect xs

module _ {U V R : Type 0} (elapsed : World V → ℕ) where
  timed-Alike :
      (f g : Handler U V R)
      → Alike f g
      → (u : U) (v : V) (p q : Option ℕ) (cs ds : List Component)
      → let (w, r) =
          timed elapsed f
            (record { user = u; component = p })
            (record { rest = v; components = cs }) in
        let (w', r') =
          g.run (record { user = u; component = q }) (record { rest = v; components = ds }) in
        (w.rest ≡ w'.rest) × (r ≡ r')
  unfolding timed start_timing end_timing
  timed-Alike f g same u v none q cs ds = same u v none q cs ds
  timed-Alike f g same u v (some p) q cs ds =
      same u v (some (length cs)) q (cs ++ record { parent = p; duration = none } ∷ []) ds

  timer-Alike : (f g : Handler U V R) → Alike f g → Alike (timer elapsed f) g
  unfolding timer timed start_timing end_timing
  timer-Alike f g same u v p q cs ds = elim (Bool-cases f.is_timed) [
    | inl e ↦ rw e (same u v p q cs ds)
    | inr e ↦ rw e (timed-Alike f g same u v p q cs ds)
  ]

  profiled-Alike :
      (h : Handler U V R) (xs : List (Adapter (Handler U V R)))
      → Alike h h
      → AllRespect xs
      → Alike (adapted_with_profiler h (timer elapsed) xs) (adapted h xs)
  profiled-Alike h [] same r =
      rw (adapted_with_profiler-nil h (timer elapsed), adapted-nil h) (timer-Alike h h same)
  profiled-Alike h (a ∷ xs) same r =
      let inner = adapted_with_profiler h (timer elapsed) xs in
      rw (adapted_with_profiler-cons h (timer elapsed) a xs, adapted-cons h a xs)
        (timer-Alike (a inner) (a (adapted h xs))
          (r.0 inner (adapted h xs) (profiled-Alike h xs same r.1)))

  adapted-Alike :
      (h : Handler U V R) (xs : List (Adapter (Handler U V R)))
      → Alike h h
      → AllRespect xs
      → Alike (adapted h xs) (adapted h xs)
  adapted-Alike h [] same r = rw (adapted-nil h) same
  adapted-Alike h (a ∷ xs) same r =
      rw (adapted-cons h a xs) (r.0 (adapted h xs) (adapted h xs) (adapted-Alike h xs same r.1))

  -- Around a handler and adapters that do not look at the profiling data, With gives handlers that do and
  -- answer the same whether profiling is enabled or not, whatever profiling data they meet and leave.
  pub with_adapters-Alike :
      (profiling : Bool) (h : Handler U V R) (xs : List (Adapter (Handler U V R)))
      → Alike h h
      → AllRespect xs
      → Alike (with_adapters elapsed profiling h xs) (with_adapters elapsed false h xs)
  unfolding with_adapters
  with_adapters-Alike true h xs same r = profiled-Alike h xs same r
  with_adapters-Alike false h xs same r = adapted-Alike h xs same r
