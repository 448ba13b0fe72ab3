-- ===== src/Auth/Granted.antt =====
-- What the guard of auth/permission/auth.guard.ts decides with.
use sdcorejs_nestjs.Base.{
  ◌≡◌, refl, sym, ◌∙◌, ap, subst, Bool, true, some, List, [], ◌∷◌, Text, any, In, or_default, ok,
  arith, Bool-cases, Option-cases, Result-cases, inl, inr,
}
use sdcorejs_nestjs.Context.Identity.{Identity}
use sdcorejs_nestjs.Context.Store.{empty_store}
use sdcorejs_nestjs.Auth.Guard.{
  Request, Session, Strategy, Guarded, ◌>>=◌, verified_identity, sync_verified_identity,
  resolve_codes, check_of, decide, demand_codes, check_permissions,
}
use sdcorejs_nestjs.Auth.Owner.{IsOwned, sync_verified_identity-IsSynced}

-- One of the required codes passes the check against codes that are marked as the user's.
pub record IsGranted (strategy : Strategy) (required : List Text) (s s' : Session) : Type 0 where
  pub identity : Identity
  pub verified : verified_identity strategy s.request.user ≡ ok identity
  pub codes : List Text
  pub code : Text
  pub kept : s'.request.permissions ≡ some codes
  pub owner : s'.request.resolved_for ≡ identity.user_id
  pub asked : In code required
  pub passed : check_of strategy codes code ≡ true

any-In : (p : Text → Bool) (xs : List Text) → any p xs ≡ true → (t : Text) × In t xs × (p t ≡ true)
any-In p [] h = cc
any-In p (x ∷ xs) h = elim (Bool-cases (p x)) [
  | inl passes ↦ (x, inl refl, passes)
  | inr fails ↦ let (t, here, passed) = any-In p xs (ground arith) in (t, inr here, passed)
]

-- Codes that are answered stand on the request, as the user's.
resolve_codes-IsOwned :
    (strategy : Strategy) (i : Identity) (s : Session) (codes : List Text)
    → IsOwned i.user_id s.request
    → (resolve_codes strategy i s).0 ≡ ok codes
    → ((resolve_codes strategy i s).1.request.permissions ≡ some codes)
      × ((resolve_codes strategy i s).1.request.resolved_for ≡ i.user_id)
unfolding resolve_codes
resolve_codes-IsOwned strategy i s codes o h = elim (Option-cases s.request.permissions) [
  | inr (known, e) ↦
      let same : known ≡ codes = cc (rw e at h) in rw e (ap some same, o.owner known e)
  | inl missing ↦ elim (Result-cases (strategy.load (or_default s.store empty_store))) [
    | inl (loaded, e) ↦
        let same : loaded ≡ codes = cc (rw (missing, e) at h) in
        rw (missing, e) (ap some same, refl)
    | inr (e, bad) ↦ cc (rw (missing, bad) at h)
  ]
]

decide-granted :
    (strategy : Strategy) (required codes : List Text) (s s' : Session) (u : Unit {0})
    → decide strategy required codes s ≡ (ok u, s')
    → (any (check_of strategy codes) required ≡ true) × (s.request ≡ s'.request)
unfolding decide
decide-granted strategy required codes s s' u h =
    elim (Bool-cases (any (check_of strategy codes) required)) [
      | inl passed ↦ (passed, λ k. ((rw passed at h) k).1.request)
      | inr refused ↦ cc (rw refused at h)
    ]

>>=-ok :
    {A B : Type 0} (m : Guarded A) (f : A → Guarded B) (s s' : Session) (b : B)
    → (m >>= f) s ≡ (ok b, s')
    → (a : A) × ((m s).0 ≡ ok a) × (f a (m s).1 ≡ (ok b, s'))
>>=-ok m f s s' b h = elim (Result-cases (m s).0) [
  | inl (a, e) ↦ (a, e, rw e at h)
  | inr (x, e) ↦ cc (rw e at h)
]

-- A route that requires codes is opened only if one of them passes the check against codes that
-- stand on the request and are marked as those of the user to whom this request's principal maps:
-- codes that were resolved for another user never decide.
pub check_permissions-IsGranted :
    (strategy : Strategy) (r : Text) (rs : List Text) (s s' : Session)
    → check_permissions strategy (some (r ∷ rs)) s ≡ (ok tt, s')
    → IsGranted strategy (r ∷ rs) s s'
unfolding check_permissions
check_permissions-IsGranted strategy r rs s s' h =
    let (i, synced, h1) =
      >>=-ok (sync_verified_identity strategy) (demand_codes strategy (r ∷ rs)) s s' tt h in
    let middle = (sync_verified_identity strategy s).1 in
    let known = sync_verified_identity-IsSynced strategy s middle i (λ k. (synced k, middle)) in
    let (codes, resolved, h2) =
      >>=-ok (resolve_codes strategy i) (decide strategy (r ∷ rs)) middle s' tt h1 in
    let user = known.established.user in
    let owned : IsOwned i.user_id middle.request =
      subst (λ u. IsOwned u middle.request) (sym user) known.established.owned in
    let (kept, owner) = resolve_codes-IsOwned strategy i middle codes owned resolved in
    let (granted, same) =
      decide-granted strategy (r ∷ rs) codes (resolve_codes strategy i middle).1 s' tt h2 in
    let (code, asked, passed) = any-In (check_of strategy codes) (r ∷ rs) granted in
    record {
      identity = known.verified;
      verified = known.mapped;
      codes = codes;
      code = code;
      kept = ap (λ (x : Request). x.permissions) (sym same) ∙ kept;
      owner = ap (λ (x : Request). x.resolved_for) (sym same) ∙ owner ∙ user;
      asked = asked;
      passed = passed;
    }
