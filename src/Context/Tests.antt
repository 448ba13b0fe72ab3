-- ===== src/Context/Tests.antt =====
-- Identities of core/context/identity.resolver.ts.
use sdcorejs_nestjs.Base.{
  true, ◌≡◌, ◌⊎◌, some, none, [], ◌∷◌, lit, map, lookup, lower_unit, is_some, is_space, trim_left,
  trim, text_eq, refl, ok, err,
}
use sdcorejs_nestjs.Context.Identity.{
  Claims, text, array, identity_of, string_of, strings_of, normalize_identity,
}
use sdcorejs_nestjs.Context.Store.{Store, empty_store, trusted_headers}
use sdcorejs_nestjs.Context.Middleware.{
  Headers, HeadersConfig, TrustedHeaders, one, untrusted_request, header_at, has_identity_headers,
  collect_custom, build_trusted, build_store,
}
use sdcorejs_nestjs.Context.Trusted.{IsAnonymous, IsFromGateway, build_store-origin}
use sdcorejs_nestjs.Context.Complete.{IsComplete, normalize_identity-IsComplete}

abbrev claims : Claims
claims = (lit "userId", text (lit "u1")) ∷ (lit "roles", array (some (lit "admin") ∷ [])) ∷ []

normalize_identity-IsComplete_example : IsComplete claims true (identity_of claims)
unfolding normalize_identity trim text_eq
normalize_identity-IsComplete_example =
    normalize_identity-IsComplete claims true (identity_of claims) refl

-- A gateway that vouches for requests with its mark.
abbrev config : HeadersConfig
config = record {
  tenant = some (lit "x-tenant");
  user_id = some (lit "X-User");
  lang = none;
  custom_headers = none;
}

abbrev gateway : TrustedHeaders
gateway = record {
  is_trusted_request = λ headers. is_some (lookup (lit "x-mark") headers);
  resolve = none;
}

abbrev headers : Headers
headers =
    (lit "x-user", one (lit "u1"))
    ∷ (lit "x-mark", one (lit "m"))
    ∷ (lit "x-language", one (lit "vi"))
    ∷ []

abbrev store : Store
store = record empty_store {
  user_id = some (lit "u1");
  lang = some (lit "vi");
  identity_source = some trusted_headers;
}

store_run : build_store (map lower_unit) config (some gateway) headers ≡ ok store
unfolding build_store header_at has_identity_headers collect_custom build_trusted normalize_identity
    string_of strings_of trim trim_left is_space lookup lower_unit text_eq
store_run = refl

untrusted_run :
    build_store (map lower_unit) config (some gateway) ((lit "x-user", one (lit "u1")) ∷ [])
    ≡ err untrusted_request
unfolding build_store header_at has_identity_headers build_trusted lookup lower_unit text_eq
untrusted_run = refl

build_store-origin_example :
    IsAnonymous store ⊎ IsFromGateway (map lower_unit) config (some gateway) headers store
build_store-origin_example =
    build_store-origin (map lower_unit) config (some gateway) headers store store_run
