-- ===== src/Context/Complete.antt =====
-- What the identity that core/context/identity.resolver.ts accepts says of the claims.
use sdcorejs_nestjs.Base.{
  String, ◌≡◌, refl, subst, Bool, true, false, Option, none, some, lit, is_some, ok, >>=-eq-ok,
}
use sdcorejs_nestjs.Context.Identity.{
  Claims, claim_at, is_given, Identity, identity_of, demand, normalize_identity,
}

-- A claim that is given is kept.
pub record IsKept {A : Type 0} (given : Bool) (value : Option A) : Type 0 where
  pub present : given ≡ true → is_some value ≡ true

demand-IsKept :
    {A : Type 0} (given : Bool) (value : Option A) (message : String) (u : Unit {0})
    → demand given value message ≡ ok u
    → IsKept given value
demand-IsKept true (some a) message u h = record { present = λ e. refl }
demand-IsKept true none message u h = cc
demand-IsKept false value message u h = record { present = λ e. cc }

-- Each given claim is in the identity, and a required user is there.
pub record IsComplete (claims : Claims) (required : Bool) (i : Identity) : Type 0 where
  pub user_required : IsKept required i.user_id
  pub user : IsKept (is_given (claim_at (lit "userId") claims)) i.user_id
  pub tenant : IsKept (is_given (claim_at (lit "tenant") claims)) i.tenant
  pub roles : IsKept (is_given (claim_at (lit "roles") claims)) i.roles
  pub permissions : IsKept (is_given (claim_at (lit "permissions") claims)) i.permissions
  pub permission_version :
      IsKept (is_given (claim_at (lit "permissionVersion") claims)) i.permission_version
  pub custom : IsKept (is_given (claim_at (lit "custom") claims)) i.custom
  pub same : i ≡ identity_of claims

-- An identity that is accepted has every claim that was given: none of them is dropped because it is
-- malformed, and a required user is there.
pub normalize_identity-IsComplete :
    (claims : Claims) (required : Bool) (i : Identity)
    → normalize_identity (some claims) required ≡ ok i
    → IsComplete claims required i
unfolding normalize_identity
normalize_identity-IsComplete claims required i h =
    let d = identity_of claims in
    let (u1, a1, h1) =
      >>=-eq-ok
        (demand required d.user_id "Resolved verified identity must contain a non-empty userId") _
        h in
    let (u2, a2, h2) =
      >>=-eq-ok
        (demand (is_given (claim_at (lit "userId") claims)) d.user_id
          "Resolved identity userId must be a non-empty string")
        _ h1 in
    let (u3, a3, h3) =
      >>=-eq-ok
        (demand (is_given (claim_at (lit "tenant") claims)) d.tenant
          "Resolved identity tenant must be a non-empty string")
        _ h2 in
    let (u4, a4, h4) =
      >>=-eq-ok
        (demand (is_given (claim_at (lit "roles") claims)) d.roles
          "Resolved identity roles must be a string array")
        _ h3 in
    let (u5, a5, h5) =
      >>=-eq-ok
        (demand (is_given (claim_at (lit "permissions") claims)) d.permissions
          "Resolved identity permissions must be a string array")
        _ h4 in
    let (u6, a6, h6) =
      >>=-eq-ok
        (demand (is_given (claim_at (lit "permissionVersion") claims)) d.permission_version
          "Resolved identity permissionVersion must be a non-empty string")
        _ h5 in
    let (u7, a7, h7) =
      >>=-eq-ok
        (demand (is_given (claim_at (lit "custom") claims)) d.custom
          "Resolved identity custom values must be an object")
        _ h6 in
    let same : d ≡ i = cc in
    subst (IsComplete claims required) same (record {
      user_required = demand-IsKept required d.user_id _ u1 a1;
      user = demand-IsKept (is_given (claim_at (lit "userId") claims)) d.user_id _ u2 a2;
      tenant = demand-IsKept (is_given (claim_at (lit "tenant") claims)) d.tenant _ u3 a3;
      roles = demand-IsKept (is_given (claim_at (lit "roles") claims)) d.roles _ u4 a4;
      permissions =
          demand-IsKept (is_given (claim_at (lit "permissions") claims)) d.permissions _ u5 a5;
      permission_version =
          demand-IsKept (is_given (claim_at (lit "permissionVersion") claims)) d.permission_version
            _ u6 a6;
      custom = demand-IsKept (is_given (claim_at (lit "custom") claims)) d.custom _ u7 a7;
      same = refl;
    })
