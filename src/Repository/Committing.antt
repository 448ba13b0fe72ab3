-- ===== src/Repository/Committing.antt =====
-- When a mutation of core/orm/base-repository.ts commits its own transaction.
use sdcorejs_nestjs.Base.{
  ◌≡◌, refl, ◌∙◌, ap, subst, true, List, ◌∷◌, ok, err, Bool-cases, Result-cases, inl, inr, ◌⊎◌,
}
use sdcorejs_nestjs.Filter.Syntax.{RepositoryError, Checked}
use sdcorejs_nestjs.Repository.Runner.{
  Call, connected, started, committed, released, Driver, Session, Work, ◌>>=◌, attempt, roll_back,
  caught, let_go, own_runner,
}

module _ {W A B : Type 0} where
  -- A chain that succeeds has succeeded at its first step, and is the rest of it from there.
  pub >>=-ok :
      (m : Work W A) (f : A → Work W B) (s : Session W) (b : B)
      → ((m >>= f) s).0 ≡ ok b
      → (a : A) × ((m s).0 ≡ ok a) × ((m >>= f) s ≡ f a (m s).1)
  >>=-ok m f s b h = elim (Result-cases (m s).0) [
    | inl (a, e) ↦ (a, e, rw e refl)
    | inr (x, e) ↦ cc (rw e at h)
  ]

-- The calls are followed by at most the release.
abbrev pub IsReleased : List Call → List Call → Type 0
IsReleased calls ended = (ended ≡ calls) ⊎ (ended ≡ released true ∷ calls)

module _ {W A : Type 0} (driver : Driver W) (work : Work W A) where
  -- The session in which the work ran, and the calls about it.
  pub record IsCommitted (s : Session W) (a : A) (calls : List Call) : Type 0 where
    pub inside : Session W
    pub opened : inside.calls ≡ started true ∷ connected true ∷ s.calls
    pub worked : (work inside).0 ≡ ok a
    pub closed : calls ≡ committed true ∷ (work inside).1.calls

  attempt-IsCommitted :
      (s : Session W) (a : A)
      → (attempt driver work s).0 ≡ ok a
      → IsCommitted s a (attempt driver work s).1.calls
  unfolding attempt
  attempt-IsCommitted s a h = elim (Result-cases (driver.connect s.world).0) [
    | inr (e, bad) ↦ cc (rw bad at h)
    | inl (u, good) ↦
        let s1 : Session W = record {
          world = (driver.connect s.world).1;
          calls = connected true ∷ s.calls;
          audits = s.audits;
        } in
        elim (Result-cases (driver.start_transaction s1.world).0) [
          | inr (e, bad) ↦ cc (rw (good, bad) at h)
          | inl (v, going) ↦
              let s2 : Session W = record {
                world = (driver.start_transaction s1.world).1;
                calls = started true ∷ s1.calls;
                audits = s1.audits;
              } in
              elim (Result-cases (work s2).0) [
                | inr (e, bad) ↦ cc (rw (good, going, bad) at h)
                | inl (b, done) ↦
                    elim (Result-cases (driver.commit_transaction (work s2).1.world).0) [
                      | inr (e, bad) ↦ cc (rw (good, going, done, bad) at h)
                      | inl (w, kept) ↦
                          let same : b ≡ a = cc (rw (good, going, done, kept) at h) in
                          record {
                            inside = s2;
                            opened = refl;
                            worked = done ∙ ap ok same;
                            closed = rw (good, going, done, kept) refl;
                          }
                    ]
              ]
        ]
  ]

  roll_back-thrown :
      (e : RepositoryError) (s : Session W) (a : A) → (roll_back driver e s).0 ≡ ok a → ⊥
  unfolding roll_back
  roll_back-thrown e s a h = elim (Bool-cases (driver.is_transaction_active s.world)) [
    | inr over ↦ cc (rw over at h)
    | inl active ↦ elim (Result-cases (driver.rollback_transaction s.world).0) [
      | inl (u, good) ↦ cc (rw (active, good) at h)
      | inr (f, bad) ↦ cc (rw (active, bad) at h)
    ]
  ]

  caught-ok :
      (x : Checked A × Session W) (a : A)
      → (caught driver x).0 ≡ ok a
      → (x.0 ≡ ok a) × (caught driver x ≡ x)
  unfolding caught
  caught-ok (ok b, s) a h = (h, refl)
  caught-ok (err e, s) a h = elim (roll_back-thrown e s a h) [ ]

  let_go-ok :
      (x : Checked A × Session W) (a : A)
      → (let_go driver x).0 ≡ ok a
      → (x.0 ≡ ok a) × IsReleased x.1.calls (let_go driver x).1.calls
  unfolding let_go
  let_go-ok (r, s) a h = elim (Bool-cases (driver.is_released s.world)) [
    | inl gone ↦ (rw gone at h, inl (rw gone refl))
    | inr held ↦ elim (Result-cases (driver.release s.world).0) [
      | inl (u, good) ↦ (rw (held, good) at h, inr (rw (held, good) refl))
      | inr (f, bad) ↦ cc (rw (held, bad) at h)
    ]
  ]

  -- A mutation that owns its runner and succeeds has connected, begun a transaction, done all its
  -- work with success in it, committed it as the very next call of the runner, and then made no
  -- other call than the release.
  pub own_runner-IsCommitted :
      (s : Session W) (a : A)
      → (own_runner driver work s).0 ≡ ok a
      → (calls : List Call) × IsCommitted s a calls
        × IsReleased calls (own_runner driver work s).1.calls
  unfolding own_runner
  own_runner-IsCommitted s a h =
      let (caught_ok, ended) = let_go-ok (caught driver (attempt driver work s)) a h in
      let (attempt_ok, same) = caught-ok (attempt driver work s) a caught_ok in
      let kept : (caught driver (attempt driver work s)).1.calls ≡ (attempt driver work s).1.calls =
        λ i. (same i).1.calls in
      (
        (attempt driver work s).1.calls,
        attempt-IsCommitted s a attempt_ok,
        subst (λ c. IsReleased c (own_runner driver work s).1.calls) kept ended,
      )
