-- ===== src/Uploads/Hops.antt =====
-- What one hop of a fetch in features/uploaded-file/remote-fetcher.ts sends and keeps.
use sdcorejs_nestjs.Base.{
  ℕ, zero, suc, ◌+◌, ◌≡◌, ◌≤◌, ◌||◌, ◌⊎◌, inl, inr, refl, true, false, Option, none, some, List, [],
  ◌∷◌, Text, lit, text_eq, text_eq_sound, is_empty, includes, all, All, In, length, arith,
  Bool-cases, or-true, ltb, leb,
}
use sdcorejs_nestjs.Uploads.Fetch.{
  Url, Address, Request, Response, Fetched, Platform, Network, Session, Limits, Fetch, host_of,
  has_host, has_scheme, is_allowed_url, is_public, is_redirect, is_too_large, target_of, follow,
  receive, received, request_to, requested, send, resolve, looked_up, visit, hop,
}

includes-In : (hosts : List Text) (host : Text) → includes hosts host ≡ true → In host hosts
unfolding includes
includes-In [] host h = cc
includes-In (x ∷ hosts) host h = elim (Bool-cases (text_eq x host)) [
  | inl e ↦ let same : x ≡ host = text_eq_sound x host e in inl (rw same refl)
  | inr e ↦ inr (includes-In hosts host (rw e at h))
]

-- The scheme, the credentials and the host of a request's URL.
pub record IsAllowed (platform : Platform) (limits : Limits) (url : Url) : Type 0 where
  pub scheme : (url.protocol ≡ lit "http:") ⊎ (url.protocol ≡ lit "https:")
  pub no_user : is_empty url.username ≡ true
  pub no_password : is_empty url.password ≡ true
  pub host : (limits.hosts ≡ []) ⊎ In (host_of platform url.hostname) limits.hosts

is_empty-nil : {A : Type 0} (xs : List A) → is_empty xs ≡ true → xs ≡ []
is_empty-nil [] h = refl
is_empty-nil (x ∷ xs) h = cc

has_host-listed :
    (platform : Platform) (limits : Limits) (url : Url)
    → has_host platform limits url ≡ true
    → (limits.hosts ≡ []) ⊎ In (host_of platform url.hostname) limits.hosts
unfolding has_host
has_host-listed platform limits url h =
    elim (or-true (is_empty limits.hosts) (includes limits.hosts (host_of platform url.hostname))
      h) [
        | inl e ↦ inl (is_empty-nil limits.hosts e)
        | inr e ↦ inr (includes-In limits.hosts (host_of platform url.hostname) e)
      ]

has_scheme_lem :
    (url : Url)
    → has_scheme url ≡ true
    → (url.protocol ≡ lit "http:") ⊎ (url.protocol ≡ lit "https:")
has_scheme_lem url h =
    elim (or-true (text_eq url.protocol (lit "http:")) (text_eq url.protocol (lit "https:")) h) [
      | inl e ↦ inl (text_eq_sound url.protocol (lit "http:") e)
      | inr e ↦ inr (text_eq_sound url.protocol (lit "https:") e)
    ]

is_allowed_url-IsAllowed :
    (platform : Platform) (limits : Limits) (url : Url)
    → is_allowed_url platform limits url ≡ true
    → IsAllowed platform limits url
unfolding is_allowed_url
is_allowed_url-IsAllowed platform limits url h =
    let host : has_host platform limits url ≡ true = ground arith in
    let scheme : has_scheme url ≡ true = ground arith in
    record {
      scheme = has_scheme_lem url scheme;
      no_user = ground arith;
      no_password = ground arith;
      host = has_host-listed platform limits url host;
    }

abbrev pub IsSmall : Limits → Option Fetched → Type 0
IsSmall limits none = Unit
IsSmall limits (some f) = length f.buffer ≤ limits.bytes

module _ (platform : Platform) {W : Type 0} (network : Network W) (limits : Limits) where
  -- A request goes to an allowed URL, pinned to the first of the addresses that its host has just been
  -- resolved to, all of them public.
  pub record IsGuarded (r : Request) : Type 0 where
    pub allowed : IsAllowed platform limits r.url
    pub world : W
    pub others : List Address
    pub resolved :
        (network.lookup (host_of platform r.url.hostname) world).0 ≡ some (r.address ∷ others)
    pub all_public : all (is_public platform) (r.address ∷ others) ≡ true
    pub timeout : r.timeout_ms ≡ limits.timeout
    pub bytes : r.max_bytes ≡ limits.bytes

  -- A run sends at most n further requests, all of them guarded.
  pub record Keeps (n : ℕ) (s : Session W) (r : Option Fetched × Session W) : Type 0 where
    pub guarded : All IsGuarded s.requests → All IsGuarded r.1.requests
    pub count : length r.1.requests ≤ n + length s.requests
    pub small : IsSmall limits r.0

  stops : (n : ℕ) (s : Session W) → Keeps n s (none, s)
  stops n s = record { guarded = λ g. g; count = omega arith; small = tt }

  abbrev NextKeeps : ℕ → Option (Url → Fetch W Fetched) → Type 0
  NextKeeps n none = Unit
  NextKeeps n (some next) = (url : Url) (s : Session W) → Keeps n s (next url s)

  follow-Keeps :
      (n : ℕ) (next : Option (Url → Fetch W Fetched))
      → NextKeeps n next
      → (target : Option Url) (s : Session W)
      → Keeps n s (follow platform network limits next target s)
  follow-Keeps n none k target s = stops n s
  follow-Keeps n (some next) k none s = stops n s
  follow-Keeps n (some next) k (some url) s = k url s

  is_too_large-length :
      (r : Response) → is_too_large platform limits r ≡ false → length r.body ≤ limits.bytes
  unfolding is_too_large
  is_too_large-length r h = ground arith

  receive-Keeps :
      (n : ℕ) (next : Option (Url → Fetch W Fetched))
      → NextKeeps n next
      → (url : Url) (r : Response) (s : Session W)
      → Keeps n s (receive platform network limits next url r s)
  unfolding receive
  receive-Keeps n next k url r s = elim (Bool-cases (is_too_large platform limits r)) [
    | inl e ↦ rw e (stops n s)
    | inr small ↦ elim (Bool-cases (is_redirect r.status)) [
      | inl e ↦ rw (small, e) (follow-Keeps n next k (target_of platform url r.location) s)
      | inr e ↦ elim (Bool-cases (ltb r.status 200 || leb 300 r.status)) [
        | inl f ↦ rw (small, e, f) (stops n s)
        | inr f ↦
            rw (small, e, f)
              (record {
                guarded = λ g. g;
                count = omega arith;
                small = is_too_large-length r small;
              })
      ]
    ]
  ]

  received-Keeps :
      (n : ℕ) (next : Option (Url → Fetch W Fetched))
      → NextKeeps n next
      → (url : Url) (r : Option Response) (s : Session W)
      → Keeps n s (received platform network limits next url r s)
  received-Keeps n next k url none s = stops n s
  received-Keeps n next k url (some r) s = receive-Keeps n next k url r s

  send-Keeps :
      (n : ℕ) (next : Option (Url → Fetch W Fetched))
      → NextKeeps n next
      → (url : Url) (r : Request) → IsGuarded r
      → (s : Session W) → Keeps (suc n) s (send platform network limits next url r s)
  unfolding send
  send-Keeps n next k url r g s =
      let rest =
        received-Keeps n next k url (network.request r s.world).0
          (requested platform network limits r s) in
      record {
        guarded = λ known. rest.guarded (g, known);
        count = omega (arith, rest.count);
        small = rest.small;
      }

  resolve-Keeps :
      (n : ℕ) (next : Option (Url → Fetch W Fetched))
      → NextKeeps n next
      → (url : Url) → IsAllowed platform limits url
      → (answer : Option (List Address)) (w : W)
      → (network.lookup (host_of platform url.hostname) w).0 ≡ answer
      → (s : Session W) → Keeps (suc n) s (resolve platform network limits next url answer s)
  unfolding resolve
  resolve-Keeps n next k url ok none w e s = stops (suc n) s
  resolve-Keeps n next k url ok (some []) w e s = stops (suc n) s
  resolve-Keeps n next k url ok (some (a ∷ others)) w e s =
      elim (Bool-cases (all (is_public platform) (a ∷ others))) [
        | inr bad ↦ rw bad (stops (suc n) s)
        | inl good ↦ rw good (
            send-Keeps n next k url (request_to platform network limits url a)
              (record {
                allowed = ok;
                world = w;
                others = others;
                resolved = e;
                all_public = good;
                timeout = refl;
                bytes = refl;
              })
              s)
      ]

  visit-Keeps :
      (n : ℕ) (next : Option (Url → Fetch W Fetched))
      → NextKeeps n next
      → (url : Url) (s : Session W) → Keeps (suc n) s (visit platform network limits next url s)
  unfolding visit
  visit-Keeps n next k url s = elim (Bool-cases (is_allowed_url platform limits url)) [
    | inr bad ↦ rw bad (stops (suc n) s)
    | inl good ↦
        let host = host_of platform url.hostname in
        let known =
          resolve-Keeps n next k url (is_allowed_url-IsAllowed platform limits url good)
            (network.lookup host s.world).0 s.world refl
            (looked_up platform network limits host s) in
        rw good (record { guarded = known.guarded; count = known.count; small = known.small })
  ]

  pub hop-Keeps :
      (left : ℕ) (url : Url) (s : Session W)
      → Keeps (suc left) s (hop platform network limits left url s)
  unfolding hop
  hop-Keeps zero url s = visit-Keeps 0 none tt url s
  hop-Keeps (suc left) url s =
      visit-Keeps (suc left) (some (hop platform network limits left)) (hop-Keeps left) url s
