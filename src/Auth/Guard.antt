-- ===== src/Auth/Guard.antt =====
-- AuthGuard of auth/permission/auth.guard.ts, from the verified principal on. The authentication by
-- Passport is not part of it; the mapper of principals and the permission strategy are parameters.
use sdcorejs_nestjs.Base.{
  String, Bool, true, false, Option, none, some, List, [], ◌∷◌, Text, text_eq, any, includes,
  or_default, Result, ok, err, if◌then◌else◌,
}
use sdcorejs_nestjs.Context.Identity.{
  Checked, Claims, Identity, or_else, resolve_principal, claims_of, normalize_identity,
}
use sdcorejs_nestjs.Context.Store.{
  Principal, Source, trusted_headers, verified_principal, Store, empty_store, merged_custom,
  set_identity, pick_identity,
}
use sdcorejs_nestjs.Auth.Conflict.{has_conflict}

pub data AuthError : Type 0 where
  principal_missing principal_invalid identity_conflict : AuthError
  forbidden : List Text → AuthError
  failed : String → AuthError

-- The fields that the guard keeps on the request.
pub record Request : Type 0 where
  pub user : Option Principal
  pub permissions : Option (List Text)
  pub resolved_for : Option Text
  pub trusted : Option Identity

-- The request and the store of its context, if there is one.
pub record Session : Type 0 where
  pub request : Request
  pub store : Option Store

-- What the application configures. The mapper answers an unknown value.
pub record Strategy : Type 0 where
  pub principal_resolver : Option (Principal → Checked (Option Claims))
  pub load : Store → Checked (List Text)
  pub check : Option (List Text → Text → Bool)

abbrev pub Guarded : Type 0 → Type 0
Guarded A = Session → Result AuthError A × Session

abbrev pub continue : {A B : Type 0} → Result AuthError A → (A → Guarded B) → Guarded B
continue (err e) f s = (err e, s)
continue (ok a) f s = f a s

infixl 5 ◌>>=◌
abbrev pub ◌>>=◌ : {A B : Type 0} → Guarded A → (A → Guarded B) → Guarded B
◌>>=◌ m f s = continue (m s).0 f (m s).1

abbrev pub as_claims : Checked Identity → Checked (Option Claims)
as_claims (err e) = err e
as_claims (ok i) = ok (some (claims_of i))

abbrev pub resolved_by :
    Option (Principal → Checked (Option Claims)) → Principal → Checked (Option Claims)
resolved_by none principal = as_claims (resolve_principal principal)
resolved_by (some resolver) principal = resolver principal

abbrev pub or_invalid : Checked Identity → Result AuthError Identity
or_invalid (err e) = err principal_invalid
or_invalid (ok i) = ok i

abbrev pub normalized : Checked (Option Claims) → Checked Identity
normalized (err e) = err e
normalized (ok claims) = normalize_identity claims true

unfoldable pub verified_identity : Strategy → Option Principal → Result AuthError Identity
unfolding resolve_principal claims_of normalize_identity
verified_identity strategy none = err principal_missing
verified_identity strategy (some principal) =
    or_invalid (normalized (resolved_by strategy.principal_resolver principal))

abbrev pub is_trusted_source : Option Source → Bool
is_trusted_source (some trusted_headers) = true
is_trusted_source _ = false

-- The gateway's identity, which is kept on the request once the store has it.
abbrev pub trusted_of : Option Store → Option Identity → Option Identity
trusted_of none known = known
trusted_of (some store) known =
    if is_trusted_source store.identity_source then some (pick_identity store) else known

abbrev pub conflicts : Option Identity → Identity → Bool
conflicts none verified = false
conflicts (some trusted) verified = has_conflict trusted verified

abbrev pub no_identity : Identity
no_identity = pick_identity empty_store

abbrev pub is_for : Option Text → Option Text → Bool
is_for none none = true
is_for (some s) (some t) = text_eq s t
is_for _ _ = false

-- The permissions that were resolved for the same user earlier.
abbrev pub cached : Request → Identity → Option (List Text)
cached request verified =
    if is_for request.resolved_for verified.user_id then request.permissions else none

unfoldable pub merge_identity : Request → Option Identity → Identity → Identity
merge_identity request known verified =
    let trusted = or_default known no_identity in
    record {
      user_id = verified.user_id;
      tenant = or_else verified.tenant trusted.tenant;
      roles = or_else verified.roles trusted.roles;
      permissions =
          or_else verified.permissions (or_else trusted.permissions (cached request verified));
      permission_version = or_else verified.permission_version trusted.permission_version;
      custom = merged_custom trusted.custom verified.custom;
    }

-- The permissions kept on the request: the identity's, or those resolved for its user.
unfoldable pub keep_permissions : Identity → Request → Request
keep_permissions i request = elim i.permissions [
  | some codes ↦ record request { permissions = some codes; resolved_for = i.user_id }
  | none ↦
      if is_for request.resolved_for i.user_id
      then request
      else record request { permissions = none; resolved_for = none }
]

abbrev pub with_identity : Identity → Option Principal → Option Store → Option Store
with_identity i user none = none
with_identity i user (some store) = some (set_identity i verified_principal user store)

abbrev pub adopt : Identity → Guarded Identity
adopt i s = (
  ok i,
  record { request = keep_permissions i s.request; store = with_identity i s.request.user s.store },
)

abbrev pub recall : Session → Session
recall s = record s {
  request = record s.request { trusted = trusted_of s.store s.request.trusted };
}

unfoldable pub accept : Identity → Guarded Identity
unfolding has_conflict merge_identity keep_permissions set_identity
accept verified s =
    if conflicts s.request.trusted verified
    then (err identity_conflict, s)
    else adopt (merge_identity s.request s.request.trusted verified) s

-- syncVerifiedIdentity
abbrev pub accept_verified : Result AuthError Identity → Guarded Identity
accept_verified (err e) s = (err e, s)
accept_verified (ok verified) s = accept verified (recall s)

unfoldable pub sync_verified_identity : Strategy → Guarded Identity
unfolding verified_identity accept
sync_verified_identity strategy s = accept_verified (verified_identity strategy s.request.user) s

-- The permission codes: those on the request, or those that the strategy loads for the store.
abbrev pub keep_loaded : Identity → Checked (List Text) → Guarded (List Text)
keep_loaded i (err e) s = (err (failed e), s)
keep_loaded i (ok codes) s = (
  ok codes,
  record s { request = record s.request { permissions = some codes; resolved_for = i.user_id } },
)

unfoldable pub resolve_codes : Strategy → Identity → Guarded (List Text)
resolve_codes strategy i s = elim s.request.permissions [
  | some codes ↦ (ok codes, s)
  | none ↦ keep_loaded i (strategy.load (or_default s.store empty_store)) s
]

abbrev pub mirrored : List Text → Option Store → Option Store
mirrored codes none = none
mirrored codes (some store) = some (record store { permissions = some codes })

abbrev pub check_of : Strategy → List Text → Text → Bool
check_of strategy codes = or_default strategy.check includes codes

unfoldable pub decide : Strategy → List Text → List Text → Guarded (Unit {0})
unfolding includes
decide strategy required codes s =
    if any (check_of strategy codes) required
    then (ok tt, record s { store = mirrored codes s.store })
    else (err (forbidden required), record s { store = mirrored codes s.store })

abbrev pub demand_codes : Strategy → List Text → Identity → Guarded (Unit {0})
demand_codes strategy [] i s = (ok tt, s)
demand_codes strategy (r ∷ rs) i s = (resolve_codes strategy i >>= decide strategy (r ∷ rs)) s

-- checkPermissions; without metadata no code is required.
unfoldable pub check_permissions : Strategy → Option (List Text) → Guarded (Unit {0})
unfolding sync_verified_identity resolve_codes decide
check_permissions strategy required =
    sync_verified_identity strategy >>= demand_codes strategy (or_default required [])
