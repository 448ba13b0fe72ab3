-- ===== src/Context/Trusted.antt =====
-- Where the identity in the store of core/context/context.middleware.ts comes from.
use sdcorejs_nestjs.Base.{
  ◌≡◌, ◌⊎◌, inl, inr, refl, sym, ap, true, Option, none, some, Text, Result, ok, Bool-cases,
  Result-cases,
}
use sdcorejs_nestjs.Context.Identity.{Identity}
use sdcorejs_nestjs.Context.Store.{trusted_headers, Store, empty_store, pick_identity}
use sdcorejs_nestjs.Context.Middleware.{
  Headers, HeadersConfig, TrustedHeaders, ContextError, has_identity_headers, bare_store, stored,
  assigned, trusted_identity, build_trusted, build_store,
}

-- The store has no identity.
pub record IsAnonymous (store : Store) : Type 0 where
  pub identity : pick_identity store ≡ pick_identity empty_store
  pub source : store.identity_source ≡ none

same_ok : (r : Result ContextError Store) (a b : Store) → r ≡ ok a → r ≡ ok b → a ≡ b
same_ok r a b g h = cc (g, h)

module _ (to_lower_case : Text → Text) (config : HeadersConfig) where
  -- The identity is the checked one of a request that the configured gateway's test has passed.
  pub record IsFromGateway (trusted : Option TrustedHeaders) (headers : Headers) (store : Store)
      : Type 0 where
    pub gateway : TrustedHeaders
    pub configured : trusted ≡ some gateway
    pub passed : gateway.is_trusted_request headers ≡ true
    pub identity : Identity
    pub checked : trusted_identity to_lower_case config gateway headers ≡ ok identity
    pub taken : pick_identity store ≡ identity
    pub source : store.identity_source ≡ some trusted_headers

  assigned-taken :
      (headers : Headers) (i : Identity) (store : Store)
      → assigned to_lower_case config headers (ok i) ≡ ok store
      → (pick_identity store ≡ i) × (store.identity_source ≡ some trusted_headers)
  assigned-taken headers i store h =
      let same : stored to_lower_case config headers i ≡ store =
        same_ok (assigned to_lower_case config headers (ok i))
          (stored to_lower_case config headers i) store refl h in
      (ap pick_identity (sym same), ap (λ (s : Store). s.identity_source) (sym same))

  bare_store-IsAnonymous :
      (headers : Headers) (r : Result ContextError Store) (store : Store)
      → r ≡ ok (bare_store to_lower_case config headers)
      → r ≡ ok store
      → IsAnonymous store
  bare_store-IsAnonymous headers r store bare h =
      let same : bare_store to_lower_case config headers ≡ store =
        same_ok r (bare_store to_lower_case config headers) store bare h in
      record {
        identity = ap pick_identity (sym same);
        source = ap (λ (s : Store). s.identity_source) (sym same);
      }

  build_trusted-origin :
      (gateway : TrustedHeaders) (headers : Headers) (store : Store)
      → build_trusted to_lower_case config gateway headers ≡ ok store
      → IsAnonymous store ⊎ IsFromGateway (some gateway) headers store
  unfolding build_trusted
  build_trusted-origin gateway headers store h =
      elim (Bool-cases (has_identity_headers to_lower_case config headers)) [
        | inr bare ↦ inl (
            bare_store-IsAnonymous headers (build_trusted to_lower_case config gateway headers)
              store (rw bare refl) h)
        | inl given ↦ elim (Bool-cases (gateway.is_trusted_request headers)) [
          | inr untrusted ↦ cc (rw (given, untrusted) at h)
          | inl passed ↦
              elim (Result-cases (trusted_identity to_lower_case config gateway headers)) [
                | inr (e, bad) ↦ cc (rw (given, passed, bad) at h)
                | inl (i, checked) ↦
                    let (taken, source) =
                      assigned-taken headers i store (rw (given, passed, checked) at h) in
                    inr (record {
                      gateway = gateway;
                      configured = refl;
                      passed = passed;
                      identity = i;
                      checked = checked;
                      taken = taken;
                      source = source;
                    })
              ]
        ]
      ]

-- A store that a request gets either has no identity, no source and no permissions, or a gateway is
-- configured, its test has passed for this very request, and the identity is exactly the one that was
-- read for it and checked: headers of other requests never become an identity.
pub build_store-origin :
    (to_lower_case : Text → Text) (config : HeadersConfig) (trusted : Option TrustedHeaders)
    (headers : Headers) (store : Store)
    → build_store to_lower_case config trusted headers ≡ ok store
    → IsAnonymous store ⊎ IsFromGateway to_lower_case config trusted headers store
unfolding build_store
build_store-origin to_lower_case config none headers store h = inl (
    bare_store-IsAnonymous to_lower_case config headers
      (build_store to_lower_case config none headers) store refl h)
build_store-origin to_lower_case config (some gateway) headers store h =
    build_trusted-origin to_lower_case config gateway headers store h
