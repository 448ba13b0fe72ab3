-- ===== src/Context/Identity.antt =====
-- core/context/identity.resolver.ts: the mapper of verified principals and the check of identities.
use sdcorejs_nestjs.Base.{
  String, Bool, true, false, not, ◌||◌, Option, none, some, List, [], ◌∷◌, map, Text, lit, trim,
  is_empty, lookup, or_default, is_some, ok, err, Result, ◌>>◌, guard, if◌then◌else◌,
}
use sdcorejs_nestjs.Values.Datum.{Datum}

-- The unknown value of a claim. A finite number is its text; an entry of an array that is not a
-- string is `none`; `opaque` is any other value, null and the other numbers included.
pub data Claim : Type 0 where
  absent opaque : Claim
  text number : Text → Claim
  array : List (Option Text) → Claim
  object : List (Text × Datum) → Claim

abbrev pub Claims : Type 0
Claims = List (Text × Claim)

abbrev pub claim_at : Text → Claims → Claim
claim_at name claims = or_default (lookup name claims) absent

abbrev pub is_given : Claim → Bool
is_given absent = false
is_given opaque = true
is_given (text s) = true
is_given (number s) = true
is_given (array es) = true
is_given (object fields) = true

-- stringOf
unfoldable pub string_of : Claim → Option Text
unfolding trim
string_of (text s) = if is_empty (trim s) then none else some s
string_of (number s) = some s
string_of _ = none

abbrev pub with_entry : Option Text → Option (List Text) → Option (List Text)
with_entry (some s) (some texts) = some (s ∷ texts)
with_entry _ _ = none

abbrev pub all_texts : List (Option Text) → Option (List Text)
all_texts [] = some []
all_texts (e ∷ es) = with_entry e (all_texts es)

-- stringsOf
unfoldable pub strings_of : Claim → Option (List Text)
strings_of (array es) = all_texts es
strings_of _ = none

-- recordOf
abbrev pub record_of : Claim → Option (List (Text × Datum))
record_of (object fields) = some fields
record_of _ = none

-- `a ?? b`
abbrev pub or_else : {A : Type 0} → Option A → Option A → Option A
or_else (some a) b = some a
or_else none b = b

-- ResolvedContextIdentity
pub record Identity : Type 0 where
  pub user_id : Option Text
  pub tenant : Option Text
  pub roles : Option (List Text)
  pub permissions : Option (List Text)
  pub permission_version : Option Text
  pub custom : Option (List (Text × Datum))

abbrev pub Checked : Type 0 → Type 0
Checked = Result String

-- `if (given && !value) throw`
abbrev pub demand : {A : Type 0} → Bool → Option A → String → Checked (Unit {0})
demand given value message = guard (not given || is_some value) message

abbrev pub user_of : Claims → Option Text
user_of claims =
    or_else (string_of (claim_at (lit "sub") claims)) (
      or_else (string_of (claim_at (lit "userId") claims)) (string_of (claim_at (lit "id") claims)))

abbrev pub tenant_of : Claims → Option Text
tenant_of claims =
    or_else (string_of (claim_at (lit "tenant") claims))
      (string_of (claim_at (lit "tenantId") claims))

-- defaultVerifiedPrincipalResolver; `none` is a principal that is not an object.
unfoldable pub resolve_principal : Option Claims → Checked Identity
unfolding string_of strings_of lookup
resolve_principal none =
    err "Verified principal does not contain a non-empty sub, userId, or id claim"
resolve_principal (some claims) = do
  let user = user_of claims
  let tenant = tenant_of claims
  let roles = claim_at (lit "roles") claims
  let permissions = claim_at (lit "permissions") claims
  let version = claim_at (lit "permissionVersion") claims
  demand true user "Verified principal does not contain a non-empty sub, userId, or id claim"
  demand (is_given (claim_at (lit "tenant") claims) || is_given (claim_at (lit "tenantId") claims))
      tenant "Verified principal tenant must be a non-empty identifier"
  demand (is_given roles) (strings_of roles) "Verified principal roles must be a string array"
  demand (is_given permissions) (strings_of permissions)
      "Verified principal permissions must be a string array"
  demand (is_given version) (string_of version)
      "Verified principal permissionVersion must be a non-empty identifier"
  ok (record {
    user_id = user;
    tenant = tenant;
    roles = strings_of roles;
    permissions = strings_of permissions;
    permission_version = string_of version;
    custom = none;
  })

abbrev pub identity_of : Claims → Identity
identity_of claims = record {
  user_id = string_of (claim_at (lit "userId") claims);
  tenant = string_of (claim_at (lit "tenant") claims);
  roles = strings_of (claim_at (lit "roles") claims);
  permissions = strings_of (claim_at (lit "permissions") claims);
  permission_version = string_of (claim_at (lit "permissionVersion") claims);
  custom = record_of (claim_at (lit "custom") claims);
}

-- normalizeContextIdentity
unfoldable pub normalize_identity : Option Claims → Bool → Checked Identity
unfolding string_of strings_of lookup
normalize_identity none required = err "Resolved identity must be an object"
normalize_identity (some claims) required = do
  let identity = identity_of claims
  demand required identity.user_id "Resolved verified identity must contain a non-empty userId"
  demand (is_given (claim_at (lit "userId") claims)) identity.user_id
      "Resolved identity userId must be a non-empty string"
  demand (is_given (claim_at (lit "tenant") claims)) identity.tenant
      "Resolved identity tenant must be a non-empty string"
  demand (is_given (claim_at (lit "roles") claims)) identity.roles
      "Resolved identity roles must be a string array"
  demand (is_given (claim_at (lit "permissions") claims)) identity.permissions
      "Resolved identity permissions must be a string array"
  demand (is_given (claim_at (lit "permissionVersion") claims)) identity.permission_version
      "Resolved identity permissionVersion must be a non-empty string"
  demand (is_given (claim_at (lit "custom") claims)) identity.custom
      "Resolved identity custom values must be an object"
  ok identity

-- An identity as the unknown value that the check of identities takes.
abbrev pub text_claim : Option Text → Claim
text_claim none = absent
text_claim (some s) = text s

abbrev pub array_claim : Option (List Text) → Claim
array_claim none = absent
array_claim (some texts) = array (map some texts)

abbrev pub object_claim : Option (List (Text × Datum)) → Claim
object_claim none = absent
object_claim (some fields) = object fields

unfoldable pub claims_of : Identity → Claims
claims_of i =
    (lit "userId", text_claim i.user_id)
    ∷ (lit "tenant", text_claim i.tenant)
    ∷ (lit "roles", array_claim i.roles)
    ∷ (lit "permissions", array_claim i.permissions)
    ∷ (lit "permissionVersion", text_claim i.permission_version)
    ∷ (lit "custom", object_claim i.custom)
    ∷ []
