-- ===== src/Repository/Aborting.antt =====
-- A mutation of core/orm/base-repository.ts whose work fails does not commit.
use sdcorejs_nestjs.Base.{
  ◌≡◌, refl, ◌∙◌, ap, any, Bool, true, false, List, ◌∷◌, ok, err, Bool-cases, Result-cases, inl,
  inr,
}
use sdcorejs_nestjs.Filter.Syntax.{RepositoryError, Checked}
use sdcorejs_nestjs.Repository.Runner.{
  Call, connected, started, committed, rolled_back, released, Driver, Session, Work, attempt,
  roll_back, caught, let_go, own_runner,
}

-- The work leaves the runner's own calls to the runner.
abbrev pub KeepsCalls : {W A : Type 0} → Work W A → Type 0
KeepsCalls {W} work = (s : Session W) → (work s).1.calls ≡ s.calls

-- An attempt to commit, successful or not.
abbrev pub is_commit : Call → Bool
is_commit (committed b) = true
is_commit (connected b) = false
is_commit (started b) = false
is_commit (rolled_back b) = false
is_commit (released b) = false

abbrev pub tried_commit : List Call → Bool
tried_commit = any is_commit

module _ {W : Type 0} (A : Type 0) (driver : Driver W) where
  roll_back-uncommitted :
      (e : RepositoryError) (s : Session W)
      → tried_commit (roll_back {A = A} driver e s).1.calls ≡ tried_commit s.calls
  unfolding roll_back
  roll_back-uncommitted e s = elim (Bool-cases (driver.is_transaction_active s.world)) [
    | inl active ↦ rw active refl
    | inr over ↦ rw over refl
  ]

module _ {W A : Type 0} (driver : Driver W) where
  attempt-uncommitted :
      (work : Work W A) (s : Session W)
      → KeepsCalls work
      → ((v : Session W) → (e : RepositoryError) × ((work v).0 ≡ err e))
      → tried_commit (attempt driver work s).1.calls ≡ tried_commit s.calls
  unfolding attempt
  attempt-uncommitted work s keeps fails = elim (Result-cases (driver.connect s.world).0) [
    | inr (e, bad) ↦ rw bad refl
    | inl (u, good) ↦
        let s1 : Session W = record {
          world = (driver.connect s.world).1;
          calls = connected true ∷ s.calls;
          audits = s.audits;
        } in
        elim (Result-cases (driver.start_transaction s1.world).0) [
          | inr (e, bad) ↦ rw (good, bad) refl
          | inl (v, going) ↦
              let s2 : Session W = record {
                world = (driver.start_transaction s1.world).1;
                calls = started true ∷ s1.calls;
                audits = s1.audits;
              } in
              let (e, failed) = fails s2 in rw (good, going, failed) (ap tried_commit (keeps s2))
        ]
  ]

  caught-uncommitted :
      (x : Checked A × Session W) → tried_commit (caught driver x).1.calls ≡ tried_commit x.1.calls
  unfolding caught
  caught-uncommitted (ok a, s) = refl
  caught-uncommitted (err e, s) = roll_back-uncommitted A driver e s

  let_go-uncommitted :
      (x : Checked A × Session W) → tried_commit (let_go driver x).1.calls ≡ tried_commit x.1.calls
  unfolding let_go
  let_go-uncommitted (r, s) = elim (Bool-cases (driver.is_released s.world)) [
    | inl gone ↦ rw gone refl
    | inr held ↦ rw held refl
  ]

  -- A mutation whose work fails, whatever the state it runs in, and leaves the runner's calls to the
  -- runner, makes no attempt to commit.
  pub own_runner-uncommitted :
      (work : Work W A) (s : Session W)
      → KeepsCalls work
      → ((v : Session W) → (e : RepositoryError) × ((work v).0 ≡ err e))
      → tried_commit (own_runner driver work s).1.calls ≡ tried_commit s.calls
  unfolding own_runner
  own_runner-uncommitted work s keeps fails =
      let_go-uncommitted (caught driver (attempt driver work s))
      ∙ caught-uncommitted (attempt driver work s)
      ∙ attempt-uncommitted work s keeps fails
