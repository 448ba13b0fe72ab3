-- ===== src/Context/Store.antt =====
-- core/context/context.service.ts and types.ts: the store of a request and its identity.
use sdcorejs_nestjs.Base.{Option, none, some, List, [], ◌∷◌, Text, insert, or_default}
use sdcorejs_nestjs.Values.Datum.{Datum}
use sdcorejs_nestjs.Context.Identity.{Claims, Identity}

-- IdentityContextSource
pub data Source : Type 0 where
  trusted_headers verified_principal : Source

-- A principal; `none` is a value that is not an object.
abbrev pub Principal : Type 0
Principal = Option Claims

-- The fields of RequestContext that the framework reads.
pub record Store : Type 0 where
  pub user_id : Option Text
  pub tenant : Option Text
  pub roles : Option (List Text)
  pub lang : Option Text
  pub token : Option Text
  pub user : Option Principal
  pub permissions : Option (List Text)
  pub permission_version : Option Text
  pub identity_source : Option Source
  pub custom : Option (List (Text × Datum))

abbrev pub empty_store : Store
empty_store = record {
  user_id = none;
  tenant = none;
  roles = none;
  lang = none;
  token = none;
  user = none;
  permissions = none;
  permission_version = none;
  identity_source = none;
  custom = none;
}

-- `{ ...base, ...more }`
unfoldable pub spread_onto : List (Text × Datum) → List (Text × Datum) → List (Text × Datum)
unfolding insert
spread_onto base [] = base
spread_onto base ((k, d) ∷ more) = spread_onto (insert k d base) more

abbrev pub merged_custom :
    Option (List (Text × Datum)) → Option (List (Text × Datum)) → Option (List (Text × Datum))
merged_custom old none = old
merged_custom old (some more) = some (spread_onto (or_default old []) more)

-- setIdentity on a store: every identity field is cleared first.
unfoldable pub set_identity : Identity → Source → Option Principal → Store → Store
unfolding spread_onto
set_identity i source user store = record store {
  user_id = i.user_id;
  tenant = i.tenant;
  roles = i.roles;
  permissions = i.permissions;
  permission_version = i.permission_version;
  identity_source = some source;
  user = user;
  custom = merged_custom store.custom i.custom;
}

-- AuthGuard.pickIdentity
abbrev pub pick_identity : Store → Identity
pick_identity store = record {
  user_id = store.user_id;
  tenant = store.tenant;
  roles = store.roles;
  permissions = store.permissions;
  permission_version = store.permission_version;
  custom = store.custom;
}
