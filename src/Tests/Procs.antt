-- ===== src/Tests/Procs.antt =====
-- A shell with two children, one of which has a child and cannot be read.
use cedana.Base.{
  ℕ, ◌<◌, ◌==◌, ◌≡◌, ◌≢◌, refl, sym, subst, true, false, none, some, [], ◌∷◌, In, arith,
  if◌then◌else◌,
}
use cedana.Io.Compression.{codes}
use cedana.Job.Stat.{parse_stat}
use cedana.Process.Rows.{Distinct, pids}
use cedana.Process.Node.{State, Probe, filled, fill_process_node}
use cedana.Process.Walk.{Machine, blank, unfinished, fill_process_state, with_host}
use cedana.Process.Table.{rows_of}
use cedana.Process.Forest.{Aged}
use cedana.Process.Descendants.{
  rows, Described, fill_process_state_ends, fill_process_state-Described,
}

abbrev readable_process : Probe
readable_process = record {
  read_cmdline = some "sh";
  read_create_time = some 100;
  read_sid = none;
  read_uids = some (0 ∷ []);
  read_gids = some (0 ∷ []);
  read_groups = some [];
  read_open_files = some [];
  read_mountinfo = some (some []);
  read_connections = some [];
  read_status = some "sleep";
  read_cwd = some "/";
}

abbrev hidden_process : Probe
hidden_process = record readable_process { read_cwd = none }

abbrev machine : Machine
machine = record {
  get_host = none;
  procs = λ p. if p == 8 then some hidden_process else some readable_process;
  stat_files = some (
      some (codes "5 (sh) S 1 5")
      ∷ some (codes "7 (a b) R 5 5")
      ∷ none
      ∷ some (codes "8 (c) S 5 5")
      ∷ some (codes "9 (d) S 8 5")
      ∷ []);
  expired = λ n. false;
}

abbrev shell : State
shell = record (blank none) {
  pid = 5;
  is_running = true;
  cmdline = "sh";
  start_time = 100;
  uids = 0 ∷ [];
  gids = 0 ∷ [];
  status = "sleep";
  working_dir = "/";
}

shell_read :
    fill_process_node machine.procs 5 (with_host machine.get_host (blank none)) ≡ filled shell true
unfolding fill_process_node
shell_read = refl

machine-rows : rows machine ≡ (5, 1) ∷ (7, 5) ∷ (8, 5) ∷ (9, 8) ∷ []
unfolding rows_of parse_stat
machine-rows = refl

older :
    (c p : ℕ) → In {A = ℕ × ℕ} (c, p) ((5, 1) ∷ (7, 5) ∷ (8, 5) ∷ (9, 8) ∷ []) → (p < c) × (c < 10)
older c p i = grind arith

Aged-machine : Aged (rows machine) (λ p. p) 10
Aged-machine = record {
  after = λ c p i. (older c p (subst (In {A = ℕ × ℕ} (c, p)) machine-rows i)).0;
  past = λ c p i. (older c p (subst (In {A = ℕ × ℕ} (c, p)) machine-rows i)).1;
}

Distinct-machine : Distinct (pids (rows machine))
Distinct-machine =
    subst (λ rs. Distinct (pids rs)) (sym machine-rows)
      (λ i. omega (arith, i), (λ i. omega (arith, i), (λ i. omega (arith, i), (λ i. i, tt))))

fill_process_state_ends_example : fill_process_state machine true 4 5 (blank none) ≢ unfinished
fill_process_state_ends_example =
    fill_process_state_ends machine (λ p. p) 10 5 4 (blank none) Aged-machine Distinct-machine
      (rw machine-rows (omega arith))

fill_process_state-Described_example :
    Described machine 10 5 shell (fill_process_state machine true 4 5 (blank none))
fill_process_state-Described_example =
    fill_process_state-Described machine (λ p. p) 10 5 4 (blank none) Aged-machine Distinct-machine
      (rw machine-rows (omega arith)) shell refl (λ n. refl) shell_read
