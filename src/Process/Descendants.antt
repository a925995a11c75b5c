-- ===== src/Process/Descendants.antt =====
-- What FillProcessState makes of the descendants of a process: it ends, and it leaves their tree.
use cedana.Base.{
  ℕ, ◌+◌, ◌≤◌, ◌≡◌, ◌≢◌, ◌⊎◌, inl, inr, refl, sym, ◌∙◌, Bool, true, false, Option, none, some, List,
  [], ◌∷◌, map, length, is_some, Option-cases, arith, subst,
}
use cedana.Process.Node.{State, filled, fill_process_node}
use cedana.Process.Walk.{
  PpidMap, children_of, Machine, Heap, pend, Scanned, scanned, scan_failed, scan_panicked,
  scan_files, build_ppid_map, add_file, Walked, walked, crashed, out_of_fuel, walk, alone,
  with_host, cell_at, Outcome, returned, broken, unfinished, end_walk, fill_descendants,
  fill_process_state,
}
use cedana.Process.Table.{rows_of, pids_of, build_ppid_map-children_of}
use cedana.Process.Rows.{Distinct, pids}
use cedana.Process.Forest.{
  Forest, node, HoldsTree, below, below-grow_forest, Aged, Holds, grow_forest, readable,
  Filled-cases,
}
use cedana.Process.Filled.{walk-Fills, forest_for-kids, pending-children}
use cedana.Process.Once.{first_walk_ends}

Scanned-cases :
    (s : Scanned) → (s ≡ scan_failed) ⊎ (s ≡ scan_panicked) ⊎ ((m : PpidMap) × (s ≡ scanned m))
Scanned-cases scan_failed = inl refl
Scanned-cases scan_panicked = inr (inl refl)
Scanned-cases (scanned m) = inr (inr (m, refl))

Walked-cases : (w : Walked) → (w ≡ out_of_fuel) ⊎ (w ≡ crashed) ⊎ ((h : Heap) × (w ≡ walked h))
Walked-cases out_of_fuel = inl refl
Walked-cases crashed = inr (inl refl)
Walked-cases (walked h) = inr (inr (h, refl))

scan_files-alive :
    (expired : ℕ → Bool) (k : ℕ) (fs : List (Option (List ℕ))) (m : PpidMap)
    → ((n : ℕ) → expired n ≡ false)
    → scan_files expired k fs m ≢ scan_failed
unfolding scan_files
scan_files-alive expired k [] m alive e = ground (arith, e)
scan_files-alive expired k (f ∷ fs) m alive e = elim (Option-cases (add_file f m)) [
  | inl u ↦ ground (arith, alive k, u, e)
  | inr (m1, u) ↦ scan_files-alive expired (k + 1) fs m1 alive (ground (arith, alive k, u, e))
]

-- The processes that the machine lists, in the order in which it does.
abbrev pub rows : Machine → List (ℕ × ℕ)
rows mc = elim mc.stat_files [ none ↦ [] | some fs ↦ rows_of fs ]

module _ (mc : Machine) (now pid : ℕ) where
  -- The states of the descendants of a process, those below one that cannot be read left out.
  abbrev pub descendants : State → Forest
  descendants t = below mc t.host (rows mc) now pid

  -- What FillProcessState leaves: nothing, where it breaks; or the state of the process over the
  -- tree of its descendants.
  abbrev pub Described : State → Outcome → Type 0
  Described t o =
      (o ≡ broken)
      ⊎ ((h : Heap) × (o ≡ returned h (is_some mc.get_host))
          × HoldsTree h 0 (node t (descendants t)))

module _ (mc : Machine) (started : ℕ → ℕ) (now pid fuel : ℕ) (s : State)
    (aged : Aged (rows mc) started now) (distinct : Distinct (pids (rows mc)))
    (enough : length (rows mc) ≤ fuel) where
  children_of-rows :
      (table : PpidMap) (p : ℕ)
      → build_ppid_map mc ≡ scanned table
      → children_of table p ≡ pids_of p (rows mc)
  unfolding build_ppid_map
  children_of-rows table p b = elim (Option-cases mc.stat_files) [
    | inl e ↦ ground (arith, e, b)
    | inr (fs, e) ↦ rw e (build_ppid_map-children_of mc fs table p e b)
  ]

  abbrev asked : ℕ
  asked = elim mc.stat_files [ none ↦ 0 | some fs ↦ length fs ]

  deep-walk :
      (t : State) (table : PpidMap) (w : Walked)
      → fill_process_node mc.procs pid (with_host mc.get_host s) ≡ filled t true
      → build_ppid_map mc ≡ scanned table
      → walk mc t.host table fuel asked (alone t) (map (pend 0) (children_of table pid)) ≡ w
      → fill_process_state mc true fuel pid s ≡ end_walk (is_some mc.get_host) w
  unfolding fill_process_state fill_descendants
  deep-walk t table w f b e = ground (arith, f, b, e)

  turns_last :
      (t : State) (table : PpidMap)
      → build_ppid_map mc ≡ scanned table
      → walk mc t.host table fuel asked (alone t) (map (pend 0) (children_of table pid))
        ≢ out_of_fuel
  turns_last t table b =
      first_walk_ends (rows mc) started now aged distinct pid mc t.host table
        (λ p. children_of-rows table p b) fuel asked (alone t) enough

  -- FillProcessState ends, after as many turns of its loop as there are processes, if PIDs are distinct and every
  -- process has been started after its parent; this holds whenever the context expires and whatever can
  -- be read of the processes.
  pub fill_process_state_ends : fill_process_state mc true fuel pid s ≢ unfinished
  unfolding fill_process_state fill_descendants
  fill_process_state_ends e =
      elim (Filled-cases (fill_process_node mc.procs pid (with_host mc.get_host s))) [
        | inl f ↦ ground (arith, f, e)
        | inr (inl (t, f)) ↦ ground (arith, f, e)
        | inr (inr (t, f)) ↦ elim (Scanned-cases (build_ppid_map mc)) [
          | inl b ↦ ground (arith, f, b, e)
          | inr (inl b) ↦ ground (arith, f, b, e)
          | inr (inr (table, b)) ↦
              elim (Walked-cases (
                walk mc t.host table fuel asked (alone t) (map (pend 0) (children_of table pid)))) [
                  | inl w ↦ turns_last t table b w
                  | inr (inl w) ↦ ground (arith, deep-walk t table crashed f b w, e)
                  | inr (inr (h, w)) ↦ ground (arith, deep-walk t table (walked h) f b w, e)
                ]
        ]
      ]

  full :
      (t : State) (table : PpidMap)
      → build_ppid_map mc ≡ scanned table
      → (p : ℕ)
      → below mc t.host (rows mc) now p
        ≡ grow_forest (readable mc t.host) (below mc t.host (rows mc) now) (children_of table p)
  full t table b p =
      rw (children_of-rows table p b) (below-grow_forest mc t.host (rows mc) started now aged p)

  scan_succeeds :
      is_some mc.stat_files ≡ true
      → ((n : ℕ) → mc.expired n ≡ false)
      → build_ppid_map mc ≢ scan_failed
  unfolding build_ppid_map
  scan_succeeds listed alive b = elim (Option-cases mc.stat_files) [
    | inl e ↦ ground (arith, e, listed)
    | inr (fs, e) ↦ scan_files-alive mc.expired 0 fs [] alive (ground (arith, e, b))
  ]

  walk-HoldsTree :
      (t : State) (table : PpidMap) (h : Heap)
      → ((n : ℕ) → mc.expired n ≡ false)
      → build_ppid_map mc ≡ scanned table
      → walk mc t.host table fuel asked (alone t) (map (pend 0) (children_of table pid)) ≡ walked h
      → HoldsTree h 0 (node t (descendants mc now pid t))
  unfolding HoldsTree cell_at
  walk-HoldsTree t table h alive b w =
      let sub : ℕ → Forest = below mc t.host (rows mc) now in
      let cs : List ℕ = children_of table pid in
      let (bs, i, k) =
        walk-Fills mc t.host table sub alive (full t table b) fuel asked (alone t) h
          (map (pend 0) cs) w (pending-children mc t.host table sub alive (full t table b) 0 cs) 0 t
          [] refl in
      (
        bs,
        i,
        subst (Holds h bs)
            (forest_for-kids (readable mc t.host) sub 0 cs ∙ sym (full t table b pid)) k,
      )

  -- Unless it breaks at a nil dereference or a line of /proc without a space, FillProcessState leaves
  -- the state of the process over the tree of its descendants, as a recursion over the processes
  -- describes it: the children of a process are those that name it as their parent, in the order of
  -- /proc, and one that cannot be read is left out with what is below it. It returns nil exactly if the
  -- host is known. (PIDs are distinct, each process has been started after its parent, there are as many
  -- turns as processes, the process itself is read without an error, /proc can be listed, and the
  -- context does not expire.)
  pub fill_process_state-Described :
      (t : State)
      → is_some mc.stat_files ≡ true
      → ((n : ℕ) → mc.expired n ≡ false)
      → fill_process_node mc.procs pid (with_host mc.get_host s) ≡ filled t true
      → Described mc now pid t (fill_process_state mc true fuel pid s)
  unfolding fill_process_state fill_descendants
  fill_process_state-Described t listed alive f = elim (Scanned-cases (build_ppid_map mc)) [
    | inl b ↦ absurd (scan_succeeds listed alive b)
    | inr (inl b) ↦ inl (ground (arith, f, b))
    | inr (inr (table, b)) ↦
        elim (Walked-cases
          (walk mc t.host table fuel asked (alone t) (map (pend 0) (children_of table pid)))) [
            | inl w ↦ absurd (turns_last t table b w)
            | inr (inl w) ↦ inl (deep-walk t table crashed f b w)
            | inr (inr (h, w)) ↦
                inr (h, deep-walk t table (walked h) f b w, walk-HoldsTree t table h alive b w)
          ]
  ]
