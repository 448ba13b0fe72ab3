-- ===== src/Context/Middleware.antt =====
-- core/context/context.middleware.ts: the store of a request. `toLowerCase`, the gateway's test and the
-- application's resolver are parameters; the raw request and response, which the store also holds, are
-- not modelled.
use sdcorejs_nestjs.Base.{
  String, Bool, false, not, Option, none, some, List, [], ◌∷◌, ◌++◌, Text, lit, any, is_some,
  lookup, insert, or_default, Result, ok, err, if◌then◌else◌,
}
use sdcorejs_nestjs.Values.Datum.{Datum}
use sdcorejs_nestjs.Context.Identity.{
  text_claim, object_claim, Claims, Identity, Checked, normalize_identity,
}
use sdcorejs_nestjs.Context.Store.{trusted_headers, Store, empty_store}

-- The value of a header of an incoming message.
pub data HeaderValue : Type 0 where
  one : Text → HeaderValue
  many : List Text → HeaderValue

-- The headers by their names in lower case.
abbrev pub Headers : Type 0
Headers = List (Text × HeaderValue)

-- HeadersConfig
pub record HeadersConfig : Type 0 where
  pub tenant : Option Text
  pub user_id : Option Text
  pub lang : Option (List Text)
  pub custom_headers : Option (List (Text × Text))

-- What the application configures for a gateway. The resolver may throw, answer nothing, or answer any
-- value, which is `none` inside if it is not an object.
pub record TrustedHeaders : Type 0 where
  pub is_trusted_request : Headers → Bool
  pub resolve : Option (Headers → Checked (Option (Option Claims)))

pub data ContextError : Type 0 where
  untrusted_request : ContextError
  invalid_identity : String → ContextError

abbrev pub first_text : List Text → Option Text
first_text [] = none
first_text (s ∷ texts) = some s

-- `Array.isArray(raw) ? raw[0] : raw`
abbrev pub single_value : Option HeaderValue → Option Text
single_value none = none
single_value (some (one s)) = some s
single_value (some (many texts)) = first_text texts

-- `!!name` on an optional name
abbrev pub names_of : Option Text → List Text
names_of none = []
names_of (some []) = []
names_of (some (c ∷ s)) = (c ∷ s) ∷ []

module _ (to_lower_case : Text → Text) (config : HeadersConfig) where
  unfoldable pub header_at : Text → Headers → Option HeaderValue
  unfolding lookup
  header_at name headers = lookup (to_lower_case name) headers

  -- `read`: no name and the empty name read nothing.
  abbrev pub read_all : List Text → Headers → Option Text
  read_all [] headers = none
  read_all (name ∷ names) headers = single_value (header_at name headers)

  abbrev pub custom_pairs : List (Text × Text)
  custom_pairs = or_default config.custom_headers []

  abbrev pub custom_names : List (Text × Text) → List Text
  custom_names [] = []
  custom_names ((key, name) ∷ pairs) = names_of (some name) ++ custom_names pairs

  abbrev pub identity_names : List Text
  identity_names = names_of config.tenant ++ names_of config.user_id ++ custom_names custom_pairs

  unfoldable pub has_identity_headers : Headers → Bool
  unfolding header_at
  has_identity_headers headers = any (λ name. is_some (header_at name headers)) identity_names

  abbrev pub with_custom : Text → Option Text → List (Text × Datum) → List (Text × Datum)
  with_custom key none custom = custom
  with_custom key (some s) custom = insert key (Datum.text s) custom

  unfoldable pub collect_custom :
      Headers → List (Text × Text) → List (Text × Datum) → List (Text × Datum)
  unfolding header_at insert
  collect_custom headers [] custom = custom
  collect_custom headers ((key, name) ∷ pairs) custom =
      collect_custom headers pairs (with_custom key (single_value (header_at name headers)) custom)

  abbrev pub unless_empty : List (Text × Datum) → Option (List (Text × Datum))
  unless_empty [] = none
  unless_empty (field ∷ fields) = some (field ∷ fields)

  abbrev pub read_custom_headers : Headers → Option (List (Text × Datum))
  read_custom_headers headers = unless_empty (collect_custom headers custom_pairs [])

  abbrev pub or_next : Option Text → Option Text → Option Text
  or_next (some (c ∷ s)) next = some (c ∷ s)
  or_next _ next = next

  -- The first of the names that has a value that is not empty.
  abbrev pub detect_from : Headers → List Text → Option Text
  detect_from headers [] = none
  detect_from headers (name ∷ names) =
      or_next (single_value (header_at name headers)) (detect_from headers names)

  abbrev pub detect_lang : Headers → Option Text
  detect_lang headers =
      detect_from headers (or_default config.lang (lit "accept-language" ∷ lit "x-language" ∷ []))

  abbrev pub only_single : Option HeaderValue → Option Text
  only_single (some (one s)) = some s
  only_single _ = none

  abbrev pub extract_token : Headers → Option Text
  extract_token headers = only_single (lookup (lit "authorization") headers)

  abbrev pub header_claims : Headers → Claims
  header_claims headers =
      (lit "tenant", text_claim (read_all (names_of config.tenant) headers))
      ∷ (lit "userId", text_claim (read_all (names_of config.user_id) headers))
      ∷ (lit "custom", object_claim (read_custom_headers headers))
      ∷ []

  abbrev pub resolved_by :
      Option (Headers → Checked (Option (Option Claims)))
      → Headers
      → Checked (Option (Option Claims))
  resolved_by none headers = ok none
  resolved_by (some resolve) headers = resolve headers

  abbrev pub or_headers : Headers → Option (Option Claims) → Option Claims
  or_headers headers none = some (header_claims headers)
  or_headers headers (some claims) = claims

  abbrev pub normalized : Headers → Checked (Option (Option Claims)) → Checked Identity
  normalized headers (err e) = err e
  normalized headers (ok resolved) = normalize_identity (or_headers headers resolved) false

  -- The store without an identity.
  abbrev pub bare_store : Headers → Store
  bare_store headers = record empty_store {
    lang = detect_lang headers;
    token = extract_token headers;
  }

  -- `Object.assign(store, resolved, { identitySource })`
  abbrev pub stored : Headers → Identity → Store
  stored headers i = record (bare_store headers) {
    user_id = i.user_id;
    tenant = i.tenant;
    roles = i.roles;
    permissions = i.permissions;
    permission_version = i.permission_version;
    custom = i.custom;
    identity_source = some trusted_headers;
  }

  abbrev pub assigned : Headers → Checked Identity → Result ContextError Store
  assigned headers (err e) = err (invalid_identity e)
  assigned headers (ok i) = ok (stored headers i)

  abbrev pub trusted_identity : TrustedHeaders → Headers → Checked Identity
  trusted_identity gateway headers = normalized headers (resolved_by gateway.resolve headers)

  unfoldable pub build_trusted : TrustedHeaders → Headers → Result ContextError Store
  unfolding has_identity_headers collect_custom header_at normalize_identity
  build_trusted gateway headers =
      if not (has_identity_headers headers)
      then ok (bare_store headers)
      else if not (gateway.is_trusted_request headers)
      then err untrusted_request
      else assigned headers (trusted_identity gateway headers)

  -- buildStore
  unfoldable pub build_store : Option TrustedHeaders → Headers → Result ContextError Store
  unfolding build_trusted
  build_store none headers = ok (bare_store headers)
  build_store (some gateway) headers = build_trusted gateway headers
