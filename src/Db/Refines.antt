-- ===== src/Db/Refines.antt =====
-- internal/db/db_sqlite.go: the table of jobs as the map from ids to rows that the job manager takes the
-- database for (Manager/Sync).
use cedana.Base.{
  String, ◌≡◌, refl, sym, Bool, true, false, none, some, List, [], ◌∷◌, map, if◌then◌else◌, arith,
  All, is_some, Option-cases, Bool-cases, inl, inr, Dict, load, store, delete, load-store,
  load-delete,
}
use cedana.Db.Keys.{
  row_of-remove, row_of-none, row_of-has, row_of-check, written, row_of-written, All-written,
  All-remove,
}
use cedana.Db.Tables.{row_of, insert, update}
use cedana.Db.Rows.{HostRow, JobRow, Db, job_key, job_check, host_key}
use cedana.Db.Sqlite.{put_job_row, delete_job, query_jobs_by_ids, with_jobs}
use cedana.Db.Invariant.{IsDb, put_job_row-IsDb, delete_job-IsDb}
use cedana.Db.RoundTrip.{query-row_of, query-none}

-- A call that writes jobs, with the row that it writes.
pub data JobCall : Type 0 where
  put_row : JobRow → JobCall
  drop_row : String → JobCall

-- A call on the tables, with whether it succeeds; one that fails leaves the tables.
unfoldable pub call_tables : JobCall → Db → Db × Bool
call_tables (put_row r) db = elim (put_job_row r db) [
  | none ↦ (db, false)
  | some next ↦ (next, true)
]
call_tables (drop_row k) db = (delete_job k db, true)

unfoldable pub run_tables : List JobCall → Db → Db × List Bool
run_tables [] db = (db, [])
run_tables (c ∷ cs) db =
    let (db', good) = call_tables c db in
    let (last, rest) = run_tables cs db' in (last, good ∷ rest)

-- The same calls on a map, which refuses the rows that the table has constraints against.
unfoldable pub call_map : JobCall → Dict JobRow → Dict JobRow × Bool
unfolding job_check
call_map (put_row r) m = if job_check r then (store r.jid r m, true) else (m, false)
call_map (drop_row k) m = (delete k m, true)

unfoldable pub run_map : List JobCall → Dict JobRow → Dict JobRow × List Bool
run_map [] m = (m, [])
run_map (c ∷ cs) m =
    let (m', good) = call_map c m in let (last, rest) = run_map cs m' in (last, good ∷ rest)

-- The host of the row is in the table of hosts.
abbrev pub is_hosted : List HostRow → JobRow → Bool
is_hosted hosts r = is_some (row_of host_key r.host_id hosts)

-- The call puts no row without a host.
abbrev pub IsHosted : List HostRow → JobCall → Type 0
IsHosted hosts (put_row r) = is_hosted hosts r ≡ true
IsHosted hosts (drop_row k) = Unit

-- The table has of each id the row that the map has; keys differ, and every row has its host.
pub record Simulates (db : Db) (m : Dict JobRow) : Type 0 where
  pub is_db : IsDb db
  pub hosted : All (λ r. is_hosted db.hosts r ≡ true) db.jobs
  pub rows : (k : String) → row_of job_key k db.jobs ≡ load k m

-- What a PutJob writes and answers, with the hosts of all rows there.
put_job_row-written :
    (row : JobRow) (db : Db)
    → IsDb db
    → All (λ r. is_hosted db.hosts r ≡ true) db.jobs
    → put_job_row row db
      ≡ (if job_check row then some (record db { jobs = written job_key row db.jobs }) else none)
unfolding put_job_row with_jobs insert update
put_job_row-written row db inv hosted = elim (Option-cases (row_of job_key row.jid db.jobs)) [
  | inl e ↦
      rw (query-none row.jid db inv.jobs.0 e, row_of-none job_key row.jid db.jobs e)
        (ground (arith, Bool-cases (job_check row)))
  | inr (r, e) ↦
      let there : is_hosted db.hosts r ≡ true =
        row_of-check job_key (is_hosted db.hosts) row.jid db.jobs r hosted e in
      elim (Option-cases (row_of host_key r.host_id db.hosts)) [
        | inl q ↦ absurd (ground (arith, q, there))
        | inr (h, q) ↦
            rw (query-row_of row.jid db r h inv.jobs.0 e q, row_of-has job_key row.jid db.jobs r e)
              (ground (arith, Bool-cases (job_check row)))
      ]
]

put-Simulates :
    (row : JobRow) (db : Db) (m : Dict JobRow)
    → Simulates db m
    → is_hosted db.hosts row ≡ true
    → put_job_row row db ≡ some (record db { jobs = written job_key row db.jobs })
    → Simulates (record db { jobs = written job_key row db.jobs }) (store row.jid row m)
put-Simulates row db m s hosted e = record {
  is_db = put_job_row-IsDb db (record db { jobs = written job_key row db.jobs }) s.is_db row e;
  hosted = All-written job_key (is_hosted db.hosts) row db.jobs hosted s.hosted;
  rows = λ k. rw (row_of-written job_key row db.jobs k, load-store row.jid k row m, s.rows k) refl;
}

drop-Simulates :
    (jid : String) (db : Db) (m : Dict JobRow)
    → Simulates db m
    → Simulates (delete_job jid db) (delete jid m)
unfolding delete_job
drop-Simulates jid db m s = record {
  is_db = delete_job-IsDb jid db s.is_db;
  hosted = All-remove job_key (is_hosted db.hosts) jid db.jobs s.hosted;
  rows = λ k. rw (row_of-remove job_key k jid db.jobs, load-delete jid k m, s.rows k) refl;
}

-- A call does the same to both, gives the same answer, and leaves the hosts.
call-Simulates :
    (c : JobCall) (db : Db) (m : Dict JobRow)
    → Simulates db m
    → IsHosted db.hosts c
    → Simulates (call_tables c db).0 (call_map c m).0
      × ((call_tables c db).1 ≡ (call_map c m).1)
      × ((call_tables c db).0.hosts ≡ db.hosts)
unfolding call_tables call_map
call-Simulates (put_row r) db m s h =
    let e = put_job_row-written r db s.is_db s.hosted in
    elim (Bool-cases (job_check r)) [
      | inl c ↦
          let w = rw c at e in
          rw (w, c, call_tables, call_map) (put-Simulates r db m s h w, refl, refl)
      | inr c ↦ let w = rw c at e in rw (w, c, call_tables, call_map) (s, refl, refl)
    ]
call-Simulates (drop_row k) db m s h = (drop-Simulates k db m s, refl, unfold delete_job in refl)

run-Simulates :
    (cs : List JobCall) (db : Db) (m : Dict JobRow)
    → Simulates db m
    → All (IsHosted db.hosts) cs
    → Simulates (run_tables cs db).0 (run_map cs m).0 × ((run_tables cs db).1 ≡ (run_map cs m).1)
unfolding run_tables run_map
run-Simulates [] db m s h = (s, refl)
run-Simulates (c ∷ cs) db m s h =
    let (next, good, same) = call-Simulates c db m s h.0 in
    let (last, rest) = run-Simulates cs (call_tables c db).0 (call_map c m).0 next (rw same h.1) in
    (last, rw (good, rest) refl)

-- What a query by an id reads is the row of the map.
query-Simulates :
    (db : Db) (m : Dict JobRow) (k : String)
    → Simulates db m
    → map (λ p. p.0) (query_jobs_by_ids (k ∷ []) db)
      ≡ elim (load k m) [ none ↦ [] | some r ↦ r ∷ [] ]
query-Simulates db m k s = elim (Option-cases (row_of job_key k db.jobs)) [
  | inl e ↦ rw (query-none k db s.is_db.jobs.0 e, sym (s.rows k), e) refl
  | inr (r, e) ↦
      let there : is_hosted db.hosts r ≡ true =
        row_of-check job_key (is_hosted db.hosts) k db.jobs r s.hosted e in
      elim (Option-cases (row_of host_key r.host_id db.hosts)) [
        | inl q ↦ absurd (ground (arith, q, there))
        | inr (h, q) ↦ rw (query-row_of k db r h s.is_db.jobs.0 e q, sym (s.rows k), e) refl
      ]
]

-- Where the table of jobs has the rows of a map, with distinct keys and with the hosts of all rows in the
-- table of hosts, any calls that put rows with such hosts, or delete rows, do to the table what they do to
-- the map, and give the same answers: a put overwrites or adds the row and succeeds, or fails and
-- changes nothing exactly if the row does not pass the constraints. A query by an id then
-- reads the row that the map has, and no other.
pub run_tables-Simulates :
    (cs : List JobCall) (db : Db) (m : Dict JobRow) (k : String)
    → Simulates db m
    → All (IsHosted db.hosts) cs
    → let (last, answers) = run_tables cs db in
      let (map_last, map_answers) = run_map cs m in
      Simulates last map_last
      × (answers ≡ map_answers)
      × (map (λ p. p.0) (query_jobs_by_ids (k ∷ []) last)
          ≡ elim (load k map_last) [ none ↦ [] | some r ↦ r ∷ [] ])
run_tables-Simulates cs db m k s h =
    let (last, same) = run-Simulates cs db m s h in
    (last, same, query-Simulates (run_tables cs db).0 (run_map cs m).0 k last)
