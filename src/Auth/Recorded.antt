-- ===== src/Auth/Recorded.antt =====
-- What the merge of custom claims keeps, and what the context's store holds once AuthGuard of
-- auth/permission/auth.guard.ts has set its identity.
use sdcorejs_nestjs.Base.{
  ◌≡◌, refl, ◌∙◌, ap, subst, Bool, true, false, Option, none, some, List, [], ◌∷◌, Text, text_eq,
  lookup, insert, lookup-insert, or_default, if◌then◌else◌,
}
use sdcorejs_nestjs.Uploads.Bytes.{some_inj}
use sdcorejs_nestjs.Values.Datum.{Datum}
use sdcorejs_nestjs.Context.Identity.{Identity, or_else}
use sdcorejs_nestjs.Context.Store.{
  Principal, Store, verified_principal, spread_onto, merged_custom, set_identity,
}
use sdcorejs_nestjs.Auth.Guard.{with_identity}

-- The value that a list of properties gives a key last.
abbrev pub last_value : Text → List (Text × Datum) → Option Datum
last_value k [] = none
last_value k ((j, d) ∷ more) = or_else (last_value k more) (if text_eq j k then some d else none)

lookup-spread_onto :
    (k : Text) (base more : List (Text × Datum))
    → lookup k (spread_onto base more) ≡ or_else (last_value k more) (lookup k base)
unfolding spread_onto
lookup-spread_onto k base [] = refl
lookup-spread_onto k base ((j, d) ∷ more) =
    lookup-spread_onto k (insert j d base) more
    ∙ rw (lookup-insert j k d base) (chosen (last_value k more) (text_eq j k) d (lookup k base))
  where
    chosen :
        (later : Option Datum) (b : Bool) (d : Datum) (old : Option Datum)
        → or_else later (if b then some d else old)
          ≡ or_else (or_else later (if b then some d else none)) old
    chosen (some e) b d old = refl
    chosen none true d old = refl
    chosen none false d old = refl

-- Every custom value of the one stands under its key in the other.
abbrev pub CustomWins : Option (List (Text × Datum)) → Option (List (Text × Datum)) → Type 0
CustomWins custom merged =
    (values : List (Text × Datum)) (k : Text) (d : Datum)
    → custom ≡ some values
    → last_value k values ≡ some d
    → lookup k (or_default merged []) ≡ some d

pub merged_custom-CustomWins :
    (old custom : Option (List (Text × Datum))) → CustomWins custom (merged_custom old custom)
merged_custom-CustomWins old none values k d e h = cc
merged_custom-CustomWins old (some more) values k d e h =
    let same : more ≡ values = some_inj more values e in
    lookup-spread_onto k (or_default old []) more
    ∙ ap (λ v. or_else v (lookup k (or_default old [])))
        (ap (λ (m : List (Text × Datum)). last_value k m) same ∙ h)

-- The context's store holds the identity, as that of a verified principal.
pub record IsRecorded (i : Identity) (t : Store) : Type 0 where
  pub user : t.user_id ≡ i.user_id
  pub tenant : t.tenant ≡ i.tenant
  pub roles : t.roles ≡ i.roles
  pub permissions : t.permissions ≡ i.permissions
  pub permission_version : t.permission_version ≡ i.permission_version
  pub source : t.identity_source ≡ some verified_principal
  pub custom : CustomWins i.custom t.custom

set_identity-IsRecorded :
    (i : Identity) (user : Option Principal) (store : Store)
    → IsRecorded i (set_identity i verified_principal user store)
unfolding set_identity
set_identity-IsRecorded i user store = record {
  user = refl;
  tenant = refl;
  roles = refl;
  permissions = refl;
  permission_version = refl;
  source = refl;
  custom = merged_custom-CustomWins store.custom i.custom;
}

pub with_identity-IsRecorded :
    (i : Identity) (user : Option Principal) (store : Option Store) (t : Store)
    → with_identity i user store ≡ some t
    → IsRecorded i t
with_identity-IsRecorded i user none t h = cc
with_identity-IsRecorded i user (some store) t h =
    subst (IsRecorded i) (some_inj (set_identity i verified_principal user store) t h)
      (set_identity-IsRecorded i user store)
