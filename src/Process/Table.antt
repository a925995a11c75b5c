-- ===== src/Process/Table.antt =====
-- What buildPPIDMap makes of the files: under a PID the processes whose line names it as the parent.
use mathlib.Core.List.{append_assoc, append-nil}
use cedana.Base.{
  ℕ, suc, ◌==◌, ◌≡◌, refl, ap, sym, ◌∙◌, Bool, Option, none, some, List, [], ◌∷◌, ◌++◌, In, inl,
  inr, arith, if◌then◌else◌, Option-cases,
}
use cedana.Job.Stat.{Parsed, parsed, rejected, panicked, parse_stat}
use cedana.Process.Walk.{
  PpidMap, children_of, add_child, add_line, add_file, scanned, Machine, scan_files, build_ppid_map,
}

-- The PID and the parent's PID of a line that is parsed.
abbrev pub rows_in : Parsed → List (ℕ × ℕ)
rows_in (parsed pid ppid) = (pid, ppid) ∷ []
rows_in rejected = []
rows_in panicked = []

abbrev pub file_rows : Option (List ℕ) → List (ℕ × ℕ)
file_rows none = []
file_rows (some []) = []
file_rows (some (b ∷ bs)) = rows_in (parse_stat (b ∷ bs))

-- The processes of the files, in the order of the files.
unfoldable pub rows_of : List (Option (List ℕ)) → List (ℕ × ℕ)
rows_of [] = []
rows_of (f ∷ fs) = file_rows f ++ rows_of fs

-- The processes whose parent is `p`.
unfoldable pub pids_of : ℕ → List (ℕ × ℕ) → List ℕ
pids_of p [] = []
pids_of p ((c, q) ∷ rows) = let rest = pids_of p rows in if q == p then c ∷ rest else rest

pub In-pids_of : (c p : ℕ) (rows : List (ℕ × ℕ)) → In c (pids_of p rows) → In (c, p) rows
unfolding pids_of
In-pids_of c p [] i = i
In-pids_of c p ((d, q) ∷ rows) i = ground (arith, In-pids_of c p rows)

pids_of-append :
    (p : ℕ) (rs ss : List (ℕ × ℕ)) → pids_of p (rs ++ ss) ≡ pids_of p rs ++ pids_of p ss
unfolding pids_of
pids_of-append p [] ss = refl
pids_of-append p ((c, q) ∷ rs) ss = ground (arith, pids_of-append p rs ss)

children_of-add_child :
    (p q c : ℕ) (m : PpidMap)
    → children_of (add_child q c m) p ≡ children_of m p ++ pids_of p ((c, q) ∷ [])
unfolding children_of add_child pids_of
children_of-add_child p q c [] = refl
children_of-add_child p q c ((r, cs) ∷ m) =
    ground (arith, children_of-add_child p q c m, append-nil cs, append-nil (children_of m p))

children_of-line :
    (p : ℕ) (l : Parsed) (m m' : PpidMap)
    → add_line l m ≡ some m'
    → children_of m' p ≡ children_of m p ++ pids_of p (rows_in l)
unfolding pids_of
children_of-line p (parsed pid ppid) m m' e = ground (arith, children_of-add_child p ppid pid m, e)
children_of-line p rejected m m' e = ground (arith, e, append-nil (children_of m p))
children_of-line p panicked m m' e = ground (arith, e)

children_of-add_file :
    (p : ℕ) (f : Option (List ℕ)) (m m' : PpidMap)
    → add_file f m ≡ some m'
    → children_of m' p ≡ children_of m p ++ pids_of p (file_rows f)
unfolding add_file pids_of
children_of-add_file p none m m' e = ground (arith, append-nil (children_of m p))
children_of-add_file p (some []) m m' e = ground (arith, append-nil (children_of m p))
children_of-add_file p (some (b ∷ bs)) m m' e = children_of-line p (parse_stat (b ∷ bs)) m m' e

children_of-scan_files :
    (expired : ℕ → Bool) (k p : ℕ) (fs : List (Option (List ℕ))) (m m' : PpidMap)
    → scan_files expired k fs m ≡ scanned m'
    → children_of m' p ≡ children_of m p ++ pids_of p (rows_of fs)
unfolding scan_files rows_of pids_of
children_of-scan_files expired k p [] m m' e = ground (arith, append-nil (children_of m p))
children_of-scan_files expired k p (f ∷ fs) m m' e = elim (Option-cases (add_file f m)) [
  | inl u ↦ ground (arith, u, e)
  | inr (m1, u) ↦
      let on = children_of-scan_files expired (suc k) p fs m1 m' (ground (arith, u, e)) in
      on
      ∙ ap (λ cs. cs ++ pids_of p (rows_of fs)) (children_of-add_file p f m m1 u)
      ∙ append_assoc (children_of m p) (pids_of p (file_rows f)) (pids_of p (rows_of fs))
      ∙ ap (λ cs. children_of m p ++ cs) (sym (pids_of-append p (file_rows f) (rows_of fs)))
]

-- The children that the map has of a process are exactly those whose line names it as the parent, in the
-- order of the files.
pub build_ppid_map-children_of :
    (mc : Machine) (fs : List (Option (List ℕ))) (table : PpidMap) (p : ℕ)
    → mc.stat_files ≡ some fs
    → build_ppid_map mc ≡ scanned table
    → children_of table p ≡ pids_of p (rows_of fs)
unfolding build_ppid_map children_of
build_ppid_map-children_of mc fs table p e b =
    children_of-scan_files mc.expired 0 p fs [] table (ground (arith, e, b))
