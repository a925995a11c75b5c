-- ===== src/Process/Walk.antt =====
-- FillProcessState and buildPPIDMap of pkg/utils/process.go. The states that the walk allocates are
-- cells of a heap, named by their positions; cell 0 is the state that the caller passes.
use cedana.Base.{
  ℕ, zero, suc, ◌==◌, Bool, true, false, Option, none, some, List, [], ◌∷◌, ◌++◌, map, length,
  if◌then◌else◌, is_some,
}
use cedana.Job.{Host}
use cedana.Job.Stat.{Parsed, parsed, rejected, panicked, parse_stat}
use cedana.Process.Node.{State, Probe, Filled, filled, panicked as node_panicked, fill_process_node}

-- From a parent's PID to its children's.
abbrev pub PpidMap : Type 0
PpidMap = List (ℕ × List ℕ)

-- m[p], which is nil for a missing key.
unfoldable pub children_of : PpidMap → ℕ → List ℕ
children_of [] p = []
children_of ((q, cs) ∷ m) p = if q == p then cs else children_of m p

unfoldable pub add_child : ℕ → ℕ → PpidMap → PpidMap
add_child p c [] = (p, c ∷ []) ∷ []
add_child p c ((q, cs) ∷ m) = if q == p then (q, cs ++ c ∷ []) ∷ m else (q, cs) ∷ add_child p c m

abbrev pub add_line : Parsed → PpidMap → Option PpidMap
add_line (parsed pid ppid) m = some (add_child ppid pid m)
add_line rejected m = some m
add_line panicked m = none

-- One turn of the loop over the files; `none` is a slice out of range.
unfoldable pub add_file : Option (List ℕ) → PpidMap → Option PpidMap
add_file none m = some m
add_file (some []) m = some m
add_file (some (b ∷ bs)) m = add_line (parse_stat (b ∷ bs)) m

-- buildPPIDMap, its results.
pub data Scanned : Type 0 where
  scanned : PpidMap → Scanned
  scan_failed scan_panicked : Scanned

-- What the machine answers: GetHost, the queries about a process, the files /proc/[0-9]*/stat (each
-- `none` if reading it fails), and whether ctx.Err is set when it is asked for the n-th time.
pub record Machine : Type 0 where
  pub get_host : Option Host
  pub procs : ℕ → Option Probe
  pub stat_files : Option (List (Option (List ℕ)))
  pub expired : ℕ → Bool

-- The loop of buildPPIDMap, which has asked for ctx.Err `k` times.
unfoldable pub scan_files : (ℕ → Bool) → ℕ → List (Option (List ℕ)) → PpidMap → Scanned
unfolding add_file
scan_files expired k [] m = scanned m
scan_files expired k (f ∷ fs) m =
    if expired k
    then scan_failed
    else elim (add_file f m) [ none ↦ scan_panicked | some m' ↦ scan_files expired (suc k) fs m' ]

unfoldable pub build_ppid_map : Machine → Scanned
unfolding scan_files
build_ppid_map mc = elim mc.stat_files [
  | none ↦ scan_failed
  | some fs ↦ scan_files mc.expired 0 fs []
]

-- The state of a process, and where the states of its children are.
pub record Cell : Type 0 where
  pub state : State
  pub children : List ℕ

abbrev pub Heap : Type 0
Heap = List Cell

unfoldable pub cell_at : ℕ → Heap → Option Cell
cell_at a [] = none
cell_at zero (c ∷ h) = some c
cell_at (suc a) (c ∷ h) = cell_at a h

-- parent.Children = append(parent.Children, child).
unfoldable pub append_child : ℕ → ℕ → Heap → Heap
append_child a n [] = []
append_child zero n (c ∷ h) = record c { children = c.children ++ n ∷ [] } ∷ h
append_child (suc a) n (c ∷ h) = c ∷ append_child a n h

-- A descendant to visit, and where the state of its parent is.
pub record Pending : Type 0 where
  pub pid : ℕ
  pub parent : ℕ

abbrev pub pend : ℕ → ℕ → Pending
pend a c = record { pid = c; parent = a }

-- &daemon.ProcessState{Host: host}.
abbrev pub blank : Option Host → State
blank host = record {
  pid = 0;
  is_running = false;
  host = host;
  cmdline = "";
  start_time = 0;
  sid = 0;
  uids = [];
  gids = [];
  groups = [];
  open_files = [];
  mounts = [];
  open_connections = [];
  status = "";
  working_dir = "";
}

-- The end of a turn of the walk, once the node of `cur` is filled in; `none` is a nil dereference.
unfoldable pub end_turn :
    PpidMap → Pending → Heap → List Pending → Filled → Option (Heap × List Pending)
unfolding children_of append_child
end_turn table cur h queue node_panicked = none
end_turn table cur h queue (filled s false) = some (h, queue)
end_turn table cur h queue (filled s true) = some (
  append_child cur.parent (length h) (h ++ record { state = s; children = [] } ∷ []),
  queue ++ map (pend (length h)) (children_of table cur.pid),
)

pub data Walked : Type 0 where
  walked : Heap → Walked
  crashed out_of_fuel : Walked

-- The loop over the queue, which has asked for ctx.Err `k` times.
unfoldable pub walk : Machine → Option Host → PpidMap → ℕ → ℕ → Heap → List Pending → Walked
unfolding end_turn
walk mc host table fuel k h [] = walked h
walk mc host table zero k h (cur ∷ queue) = out_of_fuel
walk mc host table (suc fuel) k h (cur ∷ queue) =
    if mc.expired k
    then walked h
    else elim (end_turn table cur h queue (fill_process_node mc.procs cur.pid (blank host))) [
      | none ↦ crashed
      | some (h', queue') ↦ walk mc host table fuel (suc k) h' queue'
    ]

-- The states that FillProcessState leaves, with that of the process first, and whether it returns nil.
pub data Outcome : Type 0 where
  returned : Heap → Bool → Outcome
  broken unfinished : Outcome

abbrev pub end_walk : Bool → Walked → Outcome
end_walk ok (walked h) = returned h ok
end_walk ok crashed = broken
end_walk ok out_of_fuel = unfinished

abbrev pub alone : State → Heap
alone s = record { state = s; children = [] } ∷ []

-- FillProcessState from the line that resets the children, with the states filled in so far, and
-- whether there was no error so far.
unfoldable pub fill_descendants : Machine → ℕ → ℕ → State → Bool → Outcome
unfolding build_ppid_map walk
fill_descendants mc fuel pid s ok = elim (build_ppid_map mc) [
  | scan_failed ↦ returned (alone s) false
  | scan_panicked ↦ broken
  | scanned table ↦ end_walk ok (
      walk mc s.host table fuel (elim mc.stat_files [ none ↦ 0 | some fs ↦ length fs ]) (alone s)
        (map (pend 0) (children_of table pid)))
]

abbrev pub with_host : Option Host → State → State
with_host none s = s
with_host (some h) s = record s { host = some h }

-- FillProcessState, of a state that is not nil and has no children; `deep` is tree[0].
unfoldable pub fill_process_state : Machine → Bool → ℕ → ℕ → State → Outcome
unfolding fill_descendants
fill_process_state mc deep fuel pid s =
    elim (fill_process_node mc.procs pid (with_host mc.get_host s)) [
      | node_panicked ↦ broken
      | filled t false ↦ returned (alone (record t { pid = pid })) false
      | filled t true ↦
          if deep
          then fill_descendants mc fuel pid t (is_some mc.get_host)
          else returned (alone t) (is_some mc.get_host)
    ]
