-- ===== src/JobScheduler/Rows.antt =====
-- Lemmas on the statements over the job-scheduler table.
use sdcorejs_nestjs.Base.{
  ◌≡◌, refl, ap, ◌∙◌, Bool, true, Option, none, some, [], ◌∷◌, ◌++◌, Text, text_eq_iff,
  if◌then◌else◌, arith,
}
use sdcorejs_nestjs.JobScheduler.Table.{Row, Table, has_key, find_key, update_where}

-- The unique constraint on the lock key.
abbrev pub IsUnique : Table → Type 0
IsUnique [] = Unit
IsUnique (r ∷ rs) = (find_key r.lock_key rs ≡ none) × IsUnique rs

abbrev pub map_row : (Row → Row) → Option Row → Option Row
map_row f none = none
map_row f (some r) = some (f r)

abbrev pub changed : (Row → Bool) → (Row → Row) → Row → Row
changed test change r = if test r then change r else r

-- A change that keeps the lock key.
abbrev pub KeepsKey : (Row → Row) → Type 0
KeepsKey change = (r : Row) → (change r).lock_key ≡ r.lock_key

changed-key :
    (test : Row → Bool) (change : Row → Row) (r : Row)
    → KeepsKey change
    → (changed test change r).lock_key ≡ r.lock_key
changed-key test change r k = ground (arith, k r)

-- An update of all rows updates the one that a lock key finds.
pub find_key-update_where :
    (test : Row → Bool) (change : Row → Row) (key : Text) (table : Table)
    → KeepsKey change
    → find_key key (update_where test change table)
      ≡ map_row (changed test change) (find_key key table)
unfolding find_key update_where has_key
find_key-update_where test change key [] k = refl
find_key-update_where test change key (r ∷ rs) k =
    ground (arith, changed-key test change r k, find_key-update_where test change key rs k)

pub find_key-append :
    (key : Text) (row : Row) (table : Table)
    → find_key key table ≡ none
    → find_key key (table ++ row ∷ []) ≡ (if has_key key row then some row else none)
unfolding find_key
find_key-append key row [] h = refl
find_key-append key row (r ∷ rs) h = ground (arith, find_key-append key row rs)

pub find_key-append_found :
    (key : Text) (row r : Row) (table : Table)
    → find_key key table ≡ some r
    → find_key key (table ++ row ∷ []) ≡ some r
unfolding find_key
find_key-append_found key row s [] h = cc
find_key-append_found key row s (r ∷ rs) h = ground (arith, find_key-append_found key row s rs)

pub find_key-has_key :
    (key : Text) (table : Table) (r : Row) → find_key key table ≡ some r → has_key key r ≡ true
unfolding find_key
find_key-has_key key [] r h = cc
find_key-has_key key (s ∷ rs) r h = ground (arith, find_key-has_key key rs r)

pub IsUnique-append :
    (row : Row) (table : Table)
    → find_key row.lock_key table ≡ none
    → IsUnique table
    → IsUnique (table ++ row ∷ [])
unfolding find_key has_key
IsUnique-append row [] h u = (refl, tt)
IsUnique-append row (r ∷ rs) h (n, u) = (
  ground (
    arith,
    find_key-append r.lock_key row rs,
    text_eq_iff r.lock_key row.lock_key,
    text_eq_iff row.lock_key r.lock_key,
  ),
  IsUnique-append row rs (ground arith) u,
)

pub IsUnique-update_where :
    (test : Row → Bool) (change : Row → Row) (table : Table)
    → KeepsKey change
    → IsUnique table
    → IsUnique (update_where test change table)
unfolding update_where
IsUnique-update_where test change [] k u = tt
IsUnique-update_where test change (r ∷ rs) k (n, u) = (
  ap (λ key. find_key key (update_where test change rs)) (changed-key test change r k)
      ∙ find_key-update_where test change r.lock_key rs k
      ∙ ap (map_row (changed test change)) n,
  IsUnique-update_where test change rs k u,
)
