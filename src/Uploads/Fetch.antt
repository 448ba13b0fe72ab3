-- ===== src/Uploads/Fetch.antt =====
-- secureFetchRemote of features/uploaded-file/remote-fetcher.ts. Parsing of URLs, `isIP`, the conversion
-- of a header to a number and the network are parameters; the network's calls of `request` are logged.
use sdcorejs_nestjs.Base.{
  ℕ, zero, suc, ◌*◌, Bool, true, false, ◌&&◌, ◌||◌, Option, none, some, List, [], ◌∷◌, map, min,
  max, or_default, Text, text_eq, lit, length, is_empty, any, all, includes, ltb, leb, ◌==◌,
  if◌then◌else◌, split_on, trim,
}
use sdcorejs_nestjs.Uploads.Address6.{Family, is_public_network_address, first_part}

-- The parts of a URL that the code reads, and its text.
pub record Url : Type 0 where
  pub protocol : Text
  pub username : Text
  pub password : Text
  pub hostname : Text
  pub href : Text

-- ResolvedRemoteAddress
pub record Address : Type 0 where
  pub address : Text
  pub family : Family

-- RemoteTransportRequest, less the constant header
pub record Request : Type 0 where
  pub url : Url
  pub address : Address
  pub timeout_ms : ℕ
  pub max_bytes : ℕ

-- RemoteTransportResponse
pub record Response : Type 0 where
  pub status : ℕ
  pub location : Option Text
  pub content_type : Option Text
  pub content_length : Option Text
  pub body : List ℕ

-- RemoteFetchResult
pub record Fetched : Type 0 where
  pub buffer : List ℕ
  pub content_type : Option Text
  pub final_url : Url

-- A setting: an absent or infinite one takes the default; a finite one is rounded down.
pub data Setting : Type 0 where
  default : Setting
  finite below_zero : ℕ → Setting

-- RemoteCloneOptions
pub record CloneOptions : Type 0 where
  pub enabled : Option Bool
  pub timeout_ms : Setting
  pub max_bytes : Setting
  pub max_redirects : Setting
  pub allowed_hosts : Option (List Text)

-- `new URL(text)`, `new URL(text, base)`, `isIP`, `toLowerCase`, and `Number(text)` rounded up, which is
-- none if it is not finite and 0 below zero.
pub record Platform : Type 0 where
  pub new_url : Text → Option Url
  pub relative_url : Text → Url → Option Url
  pub is_ip : Text → Family
  pub to_lower_case : Text → Text
  pub ceiling : Text → Option ℕ

-- RemoteFetchDependencies; `none` if the call throws.
pub record Network (W : Type 0) : Type 0 where
  pub lookup : Text → W → Option (List Address) × W
  pub request : Request → W → Option Response × W

-- The latest request stands first.
pub record Session (W : Type 0) : Type 0 where
  pub world : W
  pub requests : List Request

unfoldable pub bounded_integer : Setting → ℕ → ℕ → ℕ → ℕ
bounded_integer default fallback minimum maximum = max minimum (min fallback maximum)
bounded_integer (finite n) fallback minimum maximum = max minimum (min n maximum)
bounded_integer (below_zero n) fallback minimum maximum = minimum

-- `.replace(/\.$/, '')`
abbrev pub without_dot : Text → Text
without_dot [] = []
without_dot (c ∷ []) = if c == b'.' then [] else c ∷ []
without_dot (c ∷ d ∷ s) = c ∷ without_dot (d ∷ s)

abbrev pub is_redirect : ℕ → Bool
is_redirect status = any (λ s. s == status) (301 ∷ 302 ∷ 303 ∷ 307 ∷ 308 ∷ [])

-- The limits that are settled before the first request.
pub record Limits : Type 0 where
  pub timeout : ℕ
  pub bytes : ℕ
  pub redirects : ℕ
  pub hosts : List Text

-- A fetch throws nothing but its own error, which is `none`.
abbrev pub Fetch : Type 0 → Type 0 → Type 0
Fetch W A = Session W → Option A × Session W

abbrev pub is_enabled : Option Bool → Bool
is_enabled (some true) = true
is_enabled _ = false

abbrev pub has_scheme : Url → Bool
has_scheme url = text_eq url.protocol (lit "http:") || text_eq url.protocol (lit "https:")

module _ (platform : Platform) where
  abbrev pub host_of : Text → Text
  host_of host = without_dot (platform.to_lower_case host)

  unfoldable pub limits_of : CloneOptions → Limits
  unfolding bounded_integer
  limits_of options = record {
    timeout = bounded_integer options.timeout_ms 5000 1 30000;
    bytes = bounded_integer options.max_bytes (10 * 1024 * 1024) 1 (25 * 1024 * 1024);
    redirects = bounded_integer options.max_redirects 3 0 5;
    hosts = map host_of (or_default options.allowed_hosts []);
  }

  unfoldable pub has_host : Limits → Url → Bool
  unfolding includes
  has_host limits url = is_empty limits.hosts || includes limits.hosts (host_of url.hostname)

  -- The scheme, the credentials and the host of a URL.
  unfoldable pub is_allowed_url : Limits → Url → Bool
  unfolding has_host
  is_allowed_url limits url =
      has_scheme url && is_empty url.username && is_empty url.password && has_host limits url

  abbrev pub is_public : Address → Bool
  is_public a = is_public_network_address platform.is_ip a.address

  abbrev pub declares_more : Option Text → ℕ → Bool
  declares_more none bytes = false
  declares_more (some header) bytes = ltb bytes (or_default (platform.ceiling header) 0)

  unfoldable pub is_too_large : Limits → Response → Bool
  is_too_large limits r =
      declares_more r.content_length limits.bytes || ltb limits.bytes (length r.body)

  abbrev pub media_type : Text → Text
  media_type header = platform.to_lower_case (trim (first_part (split_on b';' header)))

  abbrev pub typed : Option Text → Option Text
  typed none = none
  typed (some header) = some (media_type header)

  abbrev pub target_of : Url → Option Text → Option Url
  target_of url none = none
  target_of url (some location) =
      if is_empty location then none else platform.relative_url location url

  module _ {W : Type 0} (network : Network W) (limits : Limits) where
    -- Goes on with the redirect's target; there is no `next` at the last hop.
    abbrev pub follow : Option (Url → Fetch W Fetched) → Option Url → Fetch W Fetched
    follow none target s = (none, s)
    follow (some next) none s = (none, s)
    follow (some next) (some url) s = next url s

    unfoldable pub receive : Option (Url → Fetch W Fetched) → Url → Response → Fetch W Fetched
    unfolding is_too_large
    receive next url r s =
        if is_too_large limits r
        then (none, s)
        else if is_redirect r.status
        then follow next (target_of url r.location) s
        else if ltb r.status 200 || leb 300 r.status
        then (none, s)
        else (
          some (record { buffer = r.body; content_type = typed r.content_type; final_url = url }),
          s,
        )

    abbrev pub received : Option (Url → Fetch W Fetched) → Url → Option Response → Fetch W Fetched
    received next url none s = (none, s)
    received next url (some r) s = receive next url r s

    abbrev pub request_to : Url → Address → Request
    request_to url a = record {
      url = url;
      address = a;
      timeout_ms = limits.timeout;
      max_bytes = limits.bytes;
    }

    abbrev pub requested : Request → Session W → Session W
    requested r s = record { world = (network.request r s.world).1; requests = r ∷ s.requests }

    unfoldable pub send : Option (Url → Fetch W Fetched) → Url → Request → Fetch W Fetched
    unfolding receive
    send next url r s = received next url (network.request r s.world).0 (requested r s)

    -- The first of the addresses is used, and all have to be public.
    unfoldable pub resolve :
        Option (Url → Fetch W Fetched) → Url → Option (List Address) → Fetch W Fetched
    unfolding send
    resolve next url (some (a ∷ others)) s =
        if all is_public (a ∷ others) then send next url (request_to url a) s else (none, s)
    resolve next url _ s = (none, s)

    abbrev pub looked_up : Text → Session W → Session W
    looked_up host s = record s { world = (network.lookup host s.world).1 }

    unfoldable pub visit : Option (Url → Fetch W Fetched) → Url → Fetch W Fetched
    unfolding is_allowed_url resolve
    visit next url s =
        if is_allowed_url limits url
        then resolve next url (network.lookup (host_of url.hostname) s.world).0
            (looked_up (host_of url.hostname) s)
        else (none, s)

    -- The loop, by the number of redirects that may still be followed.
    unfoldable pub hop : ℕ → Url → Fetch W Fetched
    unfolding visit
    hop zero = visit none
    hop (suc left) = visit (some (hop left))

    abbrev pub start : Option Url → Fetch W Fetched
    start none s = (none, s)
    start (some url) s = hop limits.redirects url s

  unfoldable pub secure_fetch_remote :
      {W : Type 0} → Network W → Text → CloneOptions → Fetch W Fetched
  unfolding limits_of hop
  secure_fetch_remote network input options s =
      if is_enabled options.enabled
      then start network (limits_of options) (platform.new_url input) s
      else (none, s)
