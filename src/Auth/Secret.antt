-- ===== src/Auth/Secret.antt =====
-- When the guard of auth/permission/internal.guard.ts opens a route.
use sdcorejs_nestjs.Base.{
  ℕ, ◌≡◌, ◌↔◌, refl, ap, true, false, some, List, [], ◌∷◌, Text, length, any, is_empty, In, ok,
  arith, text_eq_sound, text_eq_self, Bool-cases, Result-cases, inl, inr,
}
use sdcorejs_nestjs.Auth.Internal.{
  Header, Provider, provided, expected_keys, safe_equal_secret, can_activate_internal,
}

module _ (utf8 : Text → List ℕ) where
  safe_equal_secret-same : (a b : Text) → (safe_equal_secret utf8 a b ≡ true) ↔ (utf8 a ≡ utf8 b)
  unfolding safe_equal_secret
  safe_equal_secret-same a b = (
    λ h. text_eq_sound (utf8 a) (utf8 b) (ground arith),
    λ e. let lengths = ap length e in rw e (ground (arith, text_eq_self (utf8 b))),
  )

  -- One of the keys has the bytes of the secret.
  abbrev pub Holds : Text → List Text → Type 0
  Holds secret keys = (key : Text) × In key keys × (utf8 secret ≡ utf8 key)

  any-Holds :
      (secret : Text) (keys : List Text)
      → any (safe_equal_secret utf8 secret) keys ≡ true
      → Holds secret keys
  any-Holds secret [] h = cc
  any-Holds secret (k ∷ keys) h = elim (Bool-cases (safe_equal_secret utf8 secret k)) [
    | inl same ↦ (k, inl refl, (safe_equal_secret-same secret k).0 same)
    | inr other ↦
        let (key, here, same) = any-Holds secret keys (ground arith) in (key, inr here, same)
  ]

  Holds-any :
      (secret key : Text) (keys : List Text)
      → In key keys
      → utf8 secret ≡ utf8 key
      → any (safe_equal_secret utf8 secret) keys ≡ true
  Holds-any secret key [] here same = elim here [ ]
  Holds-any secret key (k ∷ keys) (inl e) same =
      ground
        (arith, (safe_equal_secret-same secret key).1 same, ap (safe_equal_secret utf8 secret) e)
  Holds-any secret key (k ∷ keys) (inr here) same =
      ground (arith, Holds-any secret key keys here same)

  -- What opens a route: a secret that is not empty, and a key of the provider with its bytes.
  abbrev pub Opens : Provider → Header → Type 0
  Opens p header =
      (is_empty (provided header) ≡ false)
      × ((keys : List Text) × (expected_keys p ≡ ok keys) × Holds (provided header) keys)

  -- With a provider, and where the enricher does not throw, the guard opens a route exactly if the
  -- header carries a secret that is not empty and the provider answers a key with the same bytes.
  pub can_activate_internal-Opens :
      (p : Provider) (header : Header)
      → (can_activate_internal utf8 (some p) header (ok tt) ≡ ok true) ↔ Opens p header
  unfolding can_activate_internal
  can_activate_internal-Opens p header = (
    λ h. elim (Bool-cases (is_empty (provided header))) [
      | inl nothing ↦ cc (rw nothing at h)
      | inr given ↦ elim (Result-cases (expected_keys p)) [
        | inr (e, bad) ↦ cc (rw (given, bad) at h)
        | inl (keys, good) ↦
            elim (Bool-cases (any (safe_equal_secret utf8 (provided header)) keys)) [
              | inl found ↦ (given, (keys, good, any-Holds (provided header) keys found))
              | inr missing ↦ cc (rw (given, good, missing) at h)
            ]
      ]
    ],
    λ (given, (keys, good, (key, here, same))).
        rw (given, good, Holds-any (provided header) key keys here same) refl,
  )
