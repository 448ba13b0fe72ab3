-- ===== src/JobScheduler/Table.antt =====
-- The job-scheduler table (features/job-scheduler/job-scheduler.entity.ts) and the statements that
-- the service runs on it: an insert that ignores a conflict on the unique lock key, and updates
-- under a condition.
use sdcorejs_nestjs.Base.{
  ℕ, suc, Bool, Option, none, some, List, [], ◌∷◌, ◌++◌, Text, text_eq, if◌then◌else◌, String,
}
use sdcorejs_nestjs.JobScheduler.Options.{JobType}

pub data Status : Type 0 where
  running success fail : Status

-- The `data` column: null, or a note of the job's outcome.
pub record Row : Type 0 where
  pub id : Text
  pub lock_key : Text
  pub code : Text
  pub name : Option Text
  pub job_type : JobType
  pub status : Status
  pub owner_token : Text
  pub payload : Option String
  pub modified_at : ℕ

abbrev pub Table : Type 0
Table = List Row

unfoldable pub has_key : Text → Row → Bool
unfolding text_eq
has_key key r = text_eq r.lock_key key

unfoldable pub find_key : Text → Table → Option Row
unfolding has_key
find_key key [] = none
find_key key (r ∷ rs) = if has_key key r then some r else find_key key rs

-- INSERT … ON CONFLICT DO NOTHING RETURNING id; the row's id is a new random one, so that the lock key
-- is the only conflict that is modelled.
unfoldable pub insert_or_ignore : Row → Table → Option Text × Table
unfolding find_key
insert_or_ignore row table = elim (find_key row.lock_key table) [
  | none ↦ (some row.id, table ++ row ∷ [])
  | some taken ↦ (none, table)
]

-- UPDATE … SET change WHERE test
unfoldable pub update_where : (Row → Bool) → (Row → Row) → Table → Table
update_where test change [] = []
update_where test change (r ∷ rs) = (if test r then change r else r) ∷ update_where test change rs

-- The rows that an update touched: its `affected` and its `RETURNING id`.
unfoldable pub affected : (Row → Bool) → Table → ℕ
affected test [] = 0
affected test (r ∷ rs) = let rest = affected test rs in if test r then suc rest else rest

unfoldable pub returned_id : (Row → Bool) → Table → Option Text
returned_id test [] = none
returned_id test (r ∷ rs) = if test r then some r.id else returned_id test rs
