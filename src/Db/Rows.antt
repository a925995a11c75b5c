-- ===== src/Db/Rows.antt =====
-- internal/db/sql/schema.sql and models.go: the rows, their CHECK constraints, and the queries of
-- host.sql, job.sql and checkpoint.sql that join or sort. Foreign keys are not enforced (SQLite
-- enforces them only on request). 64-bit numbers are their bit patterns, below 2^64.
use cedana.Base.{
  ℕ, String, ◌^◌, ltb, str_eq, Bool, true, not, ◌&&◌, none, some, List, [], ◌∷◌, if◌then◌else◌,
}
use cedana.Db.Tables.{row_of}

pub record HostRow : Type 0 where
  pub id : String
  pub mac : String
  pub hostname : String
  pub os : String
  pub platform : String
  pub kernel_version : String
  pub kernel_arch : String
  pub cpu_physical_id : String
  pub cpu_vendor_id : String
  pub cpu_family : String
  pub cpu_count : ℕ
  pub mem_total : ℕ

unfoldable pub host_check : HostRow → Bool
host_check h =
    not (str_eq h.mac "")
    && not (str_eq h.hostname "")
    && not (str_eq h.os "")
    && not (str_eq h.platform "")
    && not (str_eq h.kernel_version "")
    && not (str_eq h.kernel_arch "")

-- The lists of ids are texts, as bytes; the details are whatever they are encoded as.
pub record JobRow : Type 0 where
  pub jid : String
  pub type : String
  pub gpu_enabled : ℕ
  pub log : String
  pub details : String
  pub pid : ℕ
  pub cmdline : String
  pub start_time : ℕ
  pub working_dir : String
  pub status : String
  pub is_running : ℕ
  pub host_id : String
  pub uids : List ℕ
  pub gids : List ℕ
  pub groups : List ℕ

-- A positive 64-bit number.
abbrev pub positive : ℕ → Bool
positive n = ltb 0 n && ltb n (2 ^ 63)

unfoldable pub job_check : JobRow → Bool
job_check j = not (str_eq j.type "") && positive j.pid && not (str_eq j.host_id "")

pub record CheckpointRow : Type 0 where
  pub id : String
  pub jid : String
  pub path : String
  pub time : ℕ
  pub size : ℕ

unfoldable pub checkpoint_check : CheckpointRow → Bool
checkpoint_check c = not (str_eq c.jid "")

abbrev pub host_key : HostRow → String
host_key h = h.id

abbrev pub job_key : JobRow → String
job_key j = j.jid

abbrev pub checkpoint_key : CheckpointRow → String
checkpoint_key c = c.id

-- FROM jobs JOIN hosts ON hosts.ID = jobs.HostID.
unfoldable pub join : List HostRow → List JobRow → List (JobRow × HostRow)
unfolding row_of
join hosts [] = []
join hosts (j ∷ js) = elim (row_of host_key j.host_id hosts) [
  | none ↦ join hosts js
  | some h ↦ (j, h) ∷ join hosts js
]

-- The order of signed numbers.
unfoldable pub signed_lt : ℕ → ℕ → Bool
signed_lt a b =
    if ltb a (2 ^ 63) then ltb a b && ltb b (2 ^ 63) else (if ltb b (2 ^ 63) then true else ltb a b)

unfoldable pub place : CheckpointRow → List CheckpointRow → List CheckpointRow
unfolding signed_lt
place c [] = c ∷ []
place c (d ∷ ds) = let rest = place c ds in if signed_lt c.time d.time then d ∷ rest else c ∷ d ∷ ds

-- ORDER BY Time DESC.
unfoldable pub by_time : List CheckpointRow → List CheckpointRow
unfolding place
by_time [] = []
by_time (c ∷ cs) = place c (by_time cs)

pub record Db : Type 0 where
  pub hosts : List HostRow
  pub jobs : List JobRow
  pub checkpoints : List CheckpointRow
