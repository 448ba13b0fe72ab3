-- ===== src/Repository/Runner.antt =====
-- Transactions of core/orm/base-repository.ts: a mutation owns its runner unless the caller gave
-- one. The driver's calls are parameters over the state of a world, and each call is logged.
use sdcorejs_nestjs.Base.{Bool, true, false, List, ◌∷◌, ok, err, if◌then◌else◌}
use sdcorejs_nestjs.Filter.Syntax.{RepositoryError, Checked}
use sdcorejs_nestjs.Repository.Audit.{AuditEvent, Audited}

-- A call of the runner that was made; for those that may fail, whether it succeeded.
pub data Call : Type 0 where
  connected started committed rolled_back released : Bool → Call

-- What the runner does. Its flags are read from the world.
pub record Driver (W : Type 0) : Type 0 where
  pub connect : W → Checked (Unit {0}) × W
  pub start_transaction : W → Checked (Unit {0}) × W
  pub commit_transaction : W → Checked (Unit {0}) × W
  pub rollback_transaction : W → Checked (Unit {0}) × W
  pub release : W → Checked (Unit {0}) × W
  pub is_transaction_active : W → Bool
  pub is_released : W → Bool

-- The latest call stands first.
pub record Session (W : Type 0) : Type 0 where
  pub world : W
  pub calls : List Call
  pub audits : List AuditEvent

abbrev pub Work : Type 0 → Type 0 → Type 0
Work W A = Session W → Checked A × Session W

abbrev pub return : {W A : Type 0} → A → Work W A
return a s = (ok a, s)

abbrev pub throw : {W A : Type 0} → RepositoryError → Work W A
throw e s = (err e, s)

abbrev pub continue : {W A B : Type 0} → Checked A → (A → Work W B) → Work W B
continue (err e) f s = (err e, s)
continue (ok a) f s = f a s

infixl 5 ◌>>=◌ ◌>>◌
abbrev pub ◌>>=◌ : {W A B : Type 0} → Work W A → (A → Work W B) → Work W B
◌>>=◌ m f s = continue (m s).0 f (m s).1

abbrev pub ◌>>◌ : {W A B : Type 0} → Work W A → Work W B → Work W B
m >> n = m >>= λ _. n

abbrev pub succeeded : {A : Type 0} → Checked A → Bool
succeeded (ok a) = true
succeeded (err e) = false

-- A call of the entity manager, which is not the runner's.
abbrev pub access : {W A : Type 0} → (W → Checked A × W) → Work W A
access f s = ((f s.world).0, record s { world = (f s.world).1 })

abbrev pub audited : {W A : Type 0} → Audited A → Work W A
audited m s = ((m s.audits).0, record s { audits = (m s.audits).1 })

-- One logged call of the runner.
abbrev pub perform : {W : Type 0} → (Bool → Call) → (W → Checked (Unit {0}) × W) → Work W (Unit {0})
perform call f s = (
  (f s.world).0,
  record s { world = (f s.world).1; calls = call (succeeded (f s.world).0) ∷ s.calls },
)

module _ {W A : Type 0} (driver : Driver W) where
  -- The body of `try`.
  unfoldable pub attempt : Work W A → Work W A
  attempt work = do
    perform connected driver.connect
    perform started driver.start_transaction
    result ← work
    perform committed driver.commit_transaction
    return result

  -- `catch`: a failing rollback throws its own error in place of the first.
  abbrev pub rethrow : RepositoryError → Checked (Unit {0}) → Checked A
  rethrow e (ok u) = err e
  rethrow e (err f) = err f

  unfoldable pub roll_back : RepositoryError → Session W → Checked A × Session W
  roll_back e s =
      if driver.is_transaction_active s.world
      then (
        rethrow e (perform rolled_back driver.rollback_transaction s).0,
        (perform rolled_back driver.rollback_transaction s).1,
      )
      else (err e, s)

  unfoldable pub caught : Checked A × Session W → Checked A × Session W
  unfolding roll_back
  caught (ok a, s) = (ok a, s)
  caught (err e, s) = roll_back e s

  -- `finally`: a failing release throws its own error.
  abbrev pub finish : Checked A → Checked (Unit {0}) → Checked A
  finish r (ok u) = r
  finish r (err f) = err f

  unfoldable pub let_go : Checked A × Session W → Checked A × Session W
  let_go (r, s) =
      if driver.is_released s.world
      then (r, s)
      else (finish r (perform released driver.release s).0, (perform released driver.release s).1)

  unfoldable pub own_runner : Work W A → Work W A
  unfolding attempt caught let_go
  own_runner work s = let_go (caught (attempt work s))

  -- withMutationRunner; the caller's runner is used only inside its active transaction.
  unfoldable pub with_mutation_runner : Bool → RepositoryError → Work W A → Work W A
  unfolding own_runner
  with_mutation_runner false inactive work s = own_runner work s
  with_mutation_runner true inactive work s =
      if driver.is_transaction_active s.world then work s else (err inactive, s)
