-- ===== src/Uploads/Guarded.antt =====
-- What the fetches of features/uploaded-file/remote-fetcher.ts send requests to.
use sdcorejs_nestjs.Base.{
  ℕ, ◌*◌, ◌≡◌, ◌≤◌, inl, inr, refl, true, false, Option, none, some, [], Text, All, length, arith,
  Bool-cases,
}
use sdcorejs_nestjs.Uploads.Fetch.{
  Url, Fetched, CloneOptions, Platform, Network, Session, Setting, default, finite, below_zero,
  bounded_integer, limits_of, start, is_enabled, secure_fetch_remote,
}
use sdcorejs_nestjs.Uploads.Hops.{IsGuarded, IsSmall, hop-Keeps}

bounded_integer-within :
    (v : Setting) (fallback low high : ℕ)
    → low ≤ high
    → (low ≤ bounded_integer v fallback low high) × (bounded_integer v fallback low high ≤ high)
unfolding bounded_integer
bounded_integer-within default fallback low high h = (ground arith, ground arith)
bounded_integer-within (finite n) fallback low high h = (ground arith, ground arith)
bounded_integer-within (below_zero n) fallback low high h = (ground arith, ground arith)

-- What a fetch from no request on has done.
pub record IsSafe {W : Type 0} (platform : Platform) (network : Network W) (options : CloneOptions)
    (r : Option Fetched × Session W) : Type 0 where
  pub guarded : All (IsGuarded platform network (limits_of platform options)) r.1.requests
  pub count : length r.1.requests ≤ 6
  pub timeout : (limits_of platform options).timeout ≤ 30000
  pub small : IsSmall (limits_of platform options) r.0
  pub bytes : (limits_of platform options).bytes ≤ 25 * 1024 * 1024
  pub off : is_enabled options.enabled ≡ false → (r.0 ≡ none) × (r.1.requests ≡ [])

limits_of_lem :
    (platform : Platform) (options : CloneOptions)
    → ((limits_of platform options).redirects ≤ 5)
      × ((limits_of platform options).timeout ≤ 30000)
      × ((limits_of platform options).bytes ≤ 25 * 1024 * 1024)
unfolding limits_of
limits_of_lem platform options = (
  (bounded_integer-within options.max_redirects 3 0 5 (omega arith)).1,
  (bounded_integer-within options.timeout_ms 5000 1 30000 (omega arith)).1,
  (bounded_integer-within options.max_bytes (10 * 1024 * 1024) 1 (25 * 1024 * 1024)
      (omega arith)).1,
)

module _ {W : Type 0} (platform : Platform) (network : Network W) (options : CloneOptions)
    (w : W) where
  unsent-IsSafe : IsSafe platform network options (none, record { world = w; requests = [] })
  unsent-IsSafe =
      let (redirects, timeout, bytes) = limits_of_lem platform options in
      record {
        guarded = tt;
        count = omega arith;
        timeout = timeout;
        small = tt;
        bytes = bytes;
        off = λ e. (refl, refl);
      }

  start-IsSafe :
      (url : Option Url)
      → is_enabled options.enabled ≡ true
      → IsSafe platform network options (
          start platform network
            (limits_of platform options)
            url
            (record { world = w; requests = [] }))
  start-IsSafe none on = unsent-IsSafe
  start-IsSafe (some url) on =
      let limits = limits_of platform options in
      let (redirects, timeout, bytes) = limits_of_lem platform options in
      let known =
        hop-Keeps platform network limits limits.redirects url
          (record { world = w; requests = [] }) in
      record {
        guarded = known.guarded tt;
        count = omega (arith, known.count, redirects);
        timeout = timeout;
        small = known.small;
        bytes = bytes;
        off = λ e. absurd (cc (rw on at e));
      }

-- Whatever the network answers and wherever it redirects, a fetch sends at most six requests. Each goes
-- to an http or https URL without credentials, to an allowed host if any are listed, and to the first
-- of the addresses to which that host has just been resolved, all of them public. A body that is
-- returned is within the limit of bytes, at most 25 MiB; a fetch that is not enabled sends nothing.
pub secure_fetch_remote-IsSafe :
    {W : Type 0} (platform : Platform) (network : Network W) (input : Text) (options : CloneOptions)
    (w : W)
    → IsSafe platform network options
        (secure_fetch_remote platform network input options (record { world = w; requests = [] }))
unfolding secure_fetch_remote
secure_fetch_remote-IsSafe platform network input options w =
    elim (Bool-cases (is_enabled options.enabled)) [
      | inl on ↦ rw on (start-IsSafe platform network options w (platform.new_url input) on)
      | inr off ↦ rw off (unsent-IsSafe platform network options w)
    ]
