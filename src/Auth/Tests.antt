-- ===== src/Auth/Tests.antt =====
-- The guards of auth/permission over a small request.
use sdcorejs_nestjs.Base.{
  ◌≡◌, ◌↔◌, refl, true, false, some, none, [], ◌∷◌, Text, lit, ok, err, text_eq, trim, SameItems,
}
use sdcorejs_nestjs.Context.Identity.{Claims, text, array, Identity}
use sdcorejs_nestjs.Context.Store.{trusted_headers, Store, empty_store}
use sdcorejs_nestjs.Auth.Conflict.{arrays_conflict}
use sdcorejs_nestjs.Auth.Agreement.{arrays_conflict-SameItems}
use sdcorejs_nestjs.Auth.Guard.{
  Session, Strategy, sync_verified_identity, check_permissions, identity_conflict, forbidden,
}
use sdcorejs_nestjs.Auth.Owner.{IsSynced, sync_verified_identity-IsSynced}
use sdcorejs_nestjs.Auth.Granted.{IsGranted, check_permissions-IsGranted}
use sdcorejs_nestjs.Auth.Internal.{Provider, single, can_activate_internal}
use sdcorejs_nestjs.Auth.Secret.{Opens, can_activate_internal-Opens}

abbrev principal : Claims
principal =
    (lit "sub", text (lit "u1")) ∷ (lit "roles", array (some (lit "b") ∷ some (lit "a") ∷ [])) ∷ []

abbrev gateway : Text → Store
gateway user = record empty_store {
  user_id = some user;
  tenant = some (lit "t1");
  roles = some (lit "a" ∷ lit "b" ∷ []);
  identity_source = some trusted_headers;
}

-- Codes are left on the request by another user.
abbrev session : Text → Session
session user = record {
  request = record {
    user = some (some principal);
    permissions = some (lit "admin" ∷ []);
    resolved_for = some (lit "u0");
    trusted = none;
  };
  store = some (gateway user);
}

abbrev strategy : Strategy
strategy = record { principal_resolver = none; load = λ store. ok (lit "read" ∷ []); check = none }

abbrev identity : Identity
identity = record {
  user_id = some (lit "u1");
  tenant = some (lit "t1");
  roles = some (lit "b" ∷ lit "a" ∷ []);
  permissions = none;
  permission_version = none;
  custom = none;
}

sync_verified_identity-IsSynced_example :
    IsSynced strategy
      (session (lit "u1"))
      identity
      (sync_verified_identity strategy (session (lit "u1"))).1
unfolding sync_verified_identity trim text_eq
sync_verified_identity-IsSynced_example =
    sync_verified_identity-IsSynced strategy (session (lit "u1"))
      (sync_verified_identity strategy (session (lit "u1"))).1 identity refl

-- The gateway names another user.
conflict_run : (sync_verified_identity strategy (session (lit "u2"))).0 ≡ err identity_conflict
unfolding sync_verified_identity trim text_eq
conflict_run = refl

check_permissions-IsGranted_example :
    IsGranted strategy
      (lit "read" ∷ [])
      (session (lit "u1"))
      (check_permissions strategy (some (lit "read" ∷ [])) (session (lit "u1"))).1
unfolding check_permissions trim text_eq
check_permissions-IsGranted_example =
    check_permissions-IsGranted strategy (lit "read") [] (session (lit "u1"))
      (check_permissions strategy (some (lit "read" ∷ [])) (session (lit "u1"))).1 refl

-- The code that the other user left does not open the route.
leak_run :
    (check_permissions strategy (some (lit "admin" ∷ [])) (session (lit "u1"))).0
    ≡ err (forbidden (lit "admin" ∷ []))
unfolding check_permissions trim text_eq
leak_run = refl

arrays_conflict-SameItems_example :
    (arrays_conflict (some (lit "a" ∷ lit "b" ∷ [])) (some (lit "b" ∷ lit "a" ∷ [])) ≡ false)
    ↔ SameItems (lit "a" ∷ lit "b" ∷ []) (lit "b" ∷ lit "a" ∷ [])
arrays_conflict-SameItems_example =
    arrays_conflict-SameItems (lit "a" ∷ lit "b" ∷ []) (lit "b" ∷ lit "a" ∷ [])

abbrev provider : Provider
provider = record { get_keys = some (ok (lit "old" ∷ lit "new" ∷ [])); get_key = ok (lit "new") }

can_activate_internal-Opens_example :
    (can_activate_internal (λ s. s) (some provider) (single (lit "new")) (ok tt) ≡ ok true)
    ↔ Opens (λ s. s) provider (single (lit "new"))
can_activate_internal-Opens_example =
    can_activate_internal-Opens (λ s. s) provider (single (lit "new"))
