-- ===== src/Process/Once.antt =====
-- The walk of FillProcessState takes each descendant from the queue once, and so ends.
use cedana.Base.{
  ℕ, zero, suc, ◌+◌, ◌≤◌, ◌≡◌, ◌≢◌, ◌⊎◌, refl, Option, List, [], ◌∷◌, ◌++◌, map, In, inl, inr,
  length, In-append_cases, subst, ap, ◌∙◌, arith, Bool-cases,
}
use cedana.Job.{Host}
use cedana.Process.Node.{fill_process_node}
use cedana.Process.Walk.{
  PpidMap, children_of, Machine, Heap, append_child, Pending, pend, blank, end_turn, walk,
  out_of_fuel,
}
use cedana.Process.Table.{pids_of, In-pids_of}
use cedana.Process.Rows.{
  Distinct, Distinct-append, pids, Distinct-pids_of, one_parent, owed, owed-le, owed-take,
  member-not,
}
use cedana.Process.Forest.{Aged, Filled-cases}

abbrev pub waiting : List Pending → List ℕ
waiting [] = []
waiting (w ∷ q) = w.pid ∷ waiting q

waiting-kids :
    (n : ℕ) (q : List Pending) (cs : List ℕ) → waiting (q ++ map (pend n) cs) ≡ waiting q ++ cs
waiting-kids n [] [] = refl
waiting-kids n [] (c ∷ cs) = ap (λ xs. c ∷ xs) (waiting-kids n [] cs)
waiting-kids n (w ∷ q) cs = ap (λ xs. w.pid ∷ xs) (waiting-kids n q cs)

length-kids :
    (n : ℕ) (q : List Pending) (cs : List ℕ) → length (q ++ map (pend n) cs) ≡ length q + length cs
length-kids n [] [] = omega arith
length-kids n [] (c ∷ cs) = omega (arith, length-kids n [] cs)
length-kids n (w ∷ q) cs = omega (arith, length-kids n q cs)

module _ (rows : List (ℕ × ℕ)) (started : ℕ → ℕ) (now : ℕ) (aged : Aged rows started now)
    (distinct : Distinct (pids rows)) (root : ℕ) where
  -- A descendant of `root`, or `root` itself, whose parent has been taken from the queue.
  record IsReached (seen : List ℕ) (x : ℕ) : Type 0 where
    origin : (x ≡ root) ⊎ ((y : ℕ) × In (x, y) rows × In y seen)
    young : started root ≤ started x

  -- The processes in the queue and those taken from it.
  record IsFresh (seen queue : List ℕ) : Type 0 where
    once : Distinct queue
    apart : (x : ℕ) → In x queue → ¬ In x seen
    reached_queue : (x : ℕ) → In x queue → IsReached seen x
    reached_seen : (x : ℕ) → In x seen → IsReached seen x

  later : (p x : ℕ) (seen : List ℕ) → IsReached seen x → IsReached (p ∷ seen) x
  later p x seen r = record {
    origin = elim r.origin [ inl e ↦ inl e | inr (y, i, j) ↦ inr (y, i, inr j) ];
    young = r.young;
  }

  -- A child of a process that is taken is not known yet.
  new_child :
      (p k : ℕ) (seen : List ℕ)
      → IsReached seen p
      → ¬ In p seen
      → In (k, p) rows
      → IsReached seen k
      → ⊥
  new_child p k seen rp new i rk = elim rk.origin [
    | inl e ↦ omega (arith, aged.after k p i, rp.young, ap started e)
    | inr (y, j, s) ↦ new (subst (λ z. In z seen) (one_parent k y p rows distinct j i) s)
  ]

  skip-IsFresh : (p : ℕ) (seen queue : List ℕ) → IsFresh seen (p ∷ queue) → IsFresh (p ∷ seen) queue
  skip-IsFresh p seen queue f = record {
    once = f.once.1;
    apart = λ x i j. elim j [
      | inl e ↦ f.once.0 (subst (λ z. In z queue) e i)
      | inr s ↦ f.apart x (inr i) s
    ];
    reached_queue = λ x i. later p x seen (f.reached_queue x (inr i));
    reached_seen = λ x i. elim i [
      | inl e ↦ later p x seen (f.reached_queue x (inl e))
      | inr s ↦ later p x seen (f.reached_seen x s)
    ];
  }

  take-IsFresh :
      (p : ℕ) (seen queue : List ℕ)
      → IsFresh seen (p ∷ queue)
      → IsFresh (p ∷ seen) (queue ++ pids_of p rows)
  take-IsFresh p seen queue f =
      let g : IsFresh (p ∷ seen) queue = skip-IsFresh p seen queue f in
      let rp : IsReached seen p = f.reached_queue p (inl refl) in
      let row : (k : ℕ) → In k (pids_of p rows) → In (k, p) rows = λ k i. In-pids_of k p rows i in
      let new : (k : ℕ) → In k (pids_of p rows) → ¬ IsReached seen k =
        λ k i. new_child p k seen rp (f.apart p (inl refl)) (row k i) in
      record {
        once =
            Distinct-append queue (pids_of p rows) g.once (Distinct-pids_of p rows distinct)
              (λ k iq i. new k i (f.reached_queue k (inr iq)));
        apart = λ x i j. elim (In-append_cases x queue (pids_of p rows) i) [
          | inl l ↦ g.apart x l j
          | inr k ↦ elim j [
            | inl e ↦ omega (arith, aged.after x p (row x k), ap started e)
            | inr s ↦ new x k (f.reached_seen x s)
          ]
        ];
        reached_queue = λ x i. elim (In-append_cases x queue (pids_of p rows) i) [
          | inl l ↦ g.reached_queue x l
          | inr k ↦ record {
            origin = inr (p, row x k, inl refl);
            young = omega (arith, aged.after x p (row x k), rp.young);
          }
        ];
        reached_seen = g.reached_seen;
      }

  start-IsFresh : IsFresh (root ∷ []) (pids_of root rows)
  start-IsFresh = take-IsFresh root [] [] (record {
    once = (λ i. i, tt);
    apart = λ x i j. j;
    reached_queue = λ x i. elim i [
      | inl e ↦ record { origin = inl e; young = omega (arith, ap started e) }
      | inr j ↦ absurd j
    ];
    reached_seen = λ x i. absurd i;
  })

  owed-start : owed (root ∷ []) rows + length (pids_of root rows) ≤ length rows
  owed-start = omega (arith, owed-take root [] rows refl, owed-le [] rows)

  module _ (mc : Machine) (host : Option Host) (table : PpidMap)
      (same : (p : ℕ) → children_of table p ≡ pids_of p rows) where
    -- The loop ends before the turns run out, if there are as many as there are processes that wait,
    -- and processes whose parent is still to be taken from the queue.
    walk_ends :
        (fuel k : ℕ) (h : Heap) (q : List Pending) (seen : List ℕ)
        → IsFresh seen (waiting q)
        → owed seen rows + length q ≤ fuel
        → walk mc host table fuel k h q ≢ out_of_fuel
    unfolding walk end_turn
    walk_ends fuel k h [] seen f l e = ground (arith, e)
    walk_ends zero k h (w ∷ q) seen f l e = absurd (omega (arith, l))
    walk_ends (suc fuel) k h (w ∷ q) seen f l e =
        let paid = owed-take w.pid seen rows (member-not w.pid seen (f.apart w.pid (inl refl))) in
        elim (Filled-cases (fill_process_node mc.procs w.pid (blank host))) [
          | inl u ↦ elim (Bool-cases (mc.expired k)) [
            | inl v ↦ ground (arith, u, v, e)
            | inr v ↦ ground (arith, u, v, e)
          ]
          | inr (inl (t, u)) ↦ elim (Bool-cases (mc.expired k)) [
            | inl v ↦ ground (arith, u, v, e)
            | inr v ↦
                walk_ends fuel (suc k) h q (w.pid ∷ seen) (skip-IsFresh w.pid seen (waiting q) f)
                  (omega (arith, paid, l)) (ground (arith, u, v, e))
          ]
          | inr (inr (t, u)) ↦ elim (Bool-cases (mc.expired k)) [
            | inl v ↦ ground (arith, u, v, e)
            | inr v ↦
                let cs : List ℕ = children_of table w.pid in
                let kids : List Pending = map (pend (length h)) cs in
                let queue : waiting (q ++ kids) ≡ waiting q ++ pids_of w.pid rows =
                  waiting-kids (length h) q cs ∙ ap (λ cs. waiting q ++ cs) (same w.pid) in
                let count = length-kids (length h) q cs in
                let count_cs = ap length (same w.pid) in
                walk_ends fuel (suc k)
                  (append_child w.parent (length h) (h ++ record { state = t; children = [] } ∷ []))
                  (q ++ kids) (w.pid ∷ seen) (rw queue (take-IsFresh w.pid seen (waiting q) f))
                  (omega (arith, paid, l, count, count_cs)) (ground (arith, u, v, e))
          ]
        ]

    pub first_walk_ends :
        (fuel k : ℕ) (h : Heap)
        → length rows ≤ fuel
        → walk mc host table fuel k h (map (pend 0) (children_of table root)) ≢ out_of_fuel
    first_walk_ends fuel k h l =
        let cs : List ℕ = children_of table root in
        walk_ends fuel k h (map (pend 0) cs) (root ∷ [])
          (rw (waiting-kids 0 [] cs ∙ same root) start-IsFresh)
          (omega (arith, l, owed-start, length-kids 0 [] cs, ap length (same root)))
