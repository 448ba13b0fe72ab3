-- ===== src/Repository/Exact.antt =====
-- What the success of `softDelete` and `restore` of core/orm/base-repository.ts says.
use sdcorejs_nestjs.Base.{ℕ, ◌≡◌, Bool, true, Option, some, List, Text, length, ok}
use sdcorejs_nestjs.Filter.Syntax.{Checked}
use sdcorejs_nestjs.Repository.Audit.{soft_delete, Strategy, Target, Audited}
use sdcorejs_nestjs.Repository.Runner.{Call, Driver, Session, Work}
use sdcorejs_nestjs.Repository.Committing.{IsCommitted, IsReleased}
use sdcorejs_nestjs.Repository.Clause.{IsClause}
use sdcorejs_nestjs.Repository.Removal.{Where, Store, mutation_where, change_rows}

module _ {W : Type 0} (driver : Driver W) (store : Store W) (scoped : Audited Where)
    (statement : Where → W → Checked (Option ℕ) × W) where
  -- The statement ran under the scope's clause, after a count under the same clause, and each
  -- reported exactly the expected number of rows.
  pub record IsExact (s : Session W) (expected : ℕ) : Type 0 where
    pub clause : Where
    pub in_scope : (scoped s.audits).0 ≡ ok clause
    pub counted : (store.count clause s.world).0 ≡ ok expected
    pub changed : (statement clause (store.count clause s.world).1).0 ≡ ok (some expected)

module _ {W : Type 0} (driver : Driver W) (store : Store W) (strategy : Option Strategy)
    (target : Target) (now : ℕ) where
  abbrev pub soft_deleting : List Text → Work W Bool
  soft_deleting ids =
      change_rows driver store (mutation_where strategy target soft_delete now ids)
        store.soft_delete (length ids)

  -- The mutation of the identifiers was committed, and exact.
  pub record IsDone (ids : List Text) (s : Session W) (ended : List Call) : Type 0 where
    pub calls : List Call
    pub done : IsCommitted driver (soft_deleting ids) s true calls
    pub ended_with : IsReleased calls ended
    pub exact :
        IsExact driver store
          (mutation_where strategy target soft_delete now ids)
          store.soft_delete
          done.inside
          (length ids)
    pub clause_is : IsClause strategy target soft_delete now done.inside.audits ids exact.clause
