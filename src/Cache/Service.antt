-- ===== src/Cache/Service.antt =====
-- CacheService of services/cache/cache.service.ts over a backend that may fail or not answer. A value
-- is optional, `none` for undefined. A call finds the pending flights of Cache/Flights, each with what
-- its work comes to: it joins the flight of its key, or its own work runs.
use sdcorejs_nestjs.Base.{
  ℕ, Bool, Option, none, some, Text, String, Result, ok, err, ltb, if◌then◌else◌,
}
use sdcorejs_nestjs.Cache.Flights.{Flights, Ran, joined, started, run_flight}

-- How a call of the backend goes: it answers in time, it throws, or it does not settle in time.
pub data Attempt (A : Type 0) : Type 0 where
  answered : A → Attempt A
  failed : Attempt A
  unsettled : Attempt A

-- What a caller sees of a promise: `hangs` if it never settles.
pub data Outcome (A : Type 0) : Type 0 where
  settled : A → Outcome A
  hangs : Outcome A

-- The backend's calls over the state of a world. A set has its interval, if one is given.
pub record Backend (W V : Type 0) : Type 0 where
  pub get : Text → W → Attempt (Option V) × W
  pub set : Text → V → Option ℕ → W → Attempt (Unit {0}) × W
  pub del : Text → W → Attempt (Unit {0}) × W
  pub clear : W → Attempt (Unit {0}) × W
  pub size : W → Attempt ℕ × W

-- The race of a call with the timer; with an interval of 0 there is no timer.
unfoldable pub guarded : {A : Type 0} → ℕ → A → Attempt A → Outcome A
guarded timeout fallback (answered a) = settled a
guarded timeout fallback failed = settled fallback
guarded timeout fallback unsettled = if ltb 0 timeout then settled fallback else hangs

-- The pending flights that a call finds, and what each flight's work comes to.
pub record Sharing (A : Type 0) : Type 0 where
  pub flights : Flights
  pub comes_to : ℕ → Outcome A

abbrev pub join_or_work :
    {W A : Type 0} → (ℕ → Outcome A) → (W → Outcome A × W) → W → Ran → Outcome A × W
join_or_work comes_to work w (joined flight) = (comes_to flight, w)
join_or_work comes_to work w (started flight) = work w

-- `flights.run(key, work)` as the caller sees it.
unfoldable pub share : {W A : Type 0} → Text → Sharing A → (W → Outcome A × W) → W → Outcome A × W
unfolding run_flight
share key s work w = join_or_work s.comes_to work w (run_flight key s.flights).0

-- A factory may throw.
abbrev pub Factory : Type 0 → Type 0 → Type 0
Factory W V = W → Result String (Option V) × W

module _ {W V : Type 0} (backend : Backend W V) (timeout : ℕ) where
  abbrev pub get_work : Text → W → Outcome (Option V) × W
  get_work key w = (guarded timeout none (backend.get key w).0, (backend.get key w).1)

  unfoldable pub cache_get : Text → Sharing (Option V) → W → Outcome (Option V) × W
  unfolding guarded share
  cache_get key gets w = share key gets (get_work key) w

  unfoldable pub cache_set : Text → V → Option ℕ → W → Outcome (Unit {0}) × W
  unfolding guarded
  cache_set key value ttl w =
      (guarded timeout tt (backend.set key value ttl w).0, (backend.set key value ttl w).1)

  unfoldable pub cache_del : Text → W → Outcome (Unit {0}) × W
  unfolding guarded
  cache_del key w = (guarded timeout tt (backend.del key w).0, (backend.del key w).1)

  unfoldable pub cache_clear : W → Outcome (Unit {0}) × W
  unfolding guarded
  cache_clear w = (guarded timeout tt (backend.clear w).0, (backend.clear w).1)

  unfoldable pub cache_size : W → Outcome ℕ × W
  unfolding guarded
  cache_size w = (guarded timeout 0 (backend.size w).0, (backend.size w).1)

  -- `await set(...)`, then the value.
  abbrev pub after_set : V → Outcome (Unit {0}) × W → Outcome (Result String (Option V)) × W
  after_set value (settled u, w) = (settled (ok (some value)), w)
  after_set value (hangs, w) = (hangs, w)

  abbrev pub after_factory :
      Text → Option ℕ → Result String (Option V) × W → Outcome (Result String (Option V)) × W
  after_factory key ttl (err e, w) = (settled (err e), w)
  after_factory key ttl (ok none, w) = (settled (ok none), w)
  after_factory key ttl (ok (some value), w) = after_set value (cache_set key value ttl w)

  abbrev pub load_work : Text → Factory W V → Option ℕ → W → Outcome (Result String (Option V)) × W
  load_work key factory ttl w = after_factory key ttl (factory w)

  abbrev pub after_get :
      Text
      → Sharing (Result String (Option V))
      → Factory W V
      → Option ℕ
      → Outcome (Option V) × W
      → Outcome (Result String (Option V)) × W
  after_get key loads factory ttl (hangs, w) = (hangs, w)
  after_get key loads factory ttl (settled (some value), w) = (settled (ok (some value)), w)
  after_get key loads factory ttl (settled none, w) = share key loads (load_work key factory ttl) w

  -- `load`, with the flights of `get` at the call, and those of `load` when the get has settled.
  unfoldable pub load :
      Text
      → Sharing (Option V)
      → Sharing (Result String (Option V))
      → Factory W V
      → Option ℕ
      → W
      → Outcome (Result String (Option V)) × W
  unfolding cache_get cache_set share
  load key gets loads factory ttl w = after_get key loads factory ttl (cache_get key gets w)

-- The choice of the backend by the constructor.
pub data Kind : Type 0 where
  memory redis : Kind

-- How the construction of the Redis backend goes.
pub data Construction : Type 0 where
  constructed invalid_prefix : Construction
  unavailable : String → Construction

pub data ConfigError : Type 0 where
  invalid_key_prefix : ConfigError
  redis_unavailable : String → ConfigError

unfoldable pub choose_backend : Kind → Bool → Construction → Result ConfigError Kind
choose_backend memory fallback outcome = ok memory
choose_backend redis fallback constructed = ok redis
choose_backend redis fallback invalid_prefix = err invalid_key_prefix
choose_backend redis fallback (unavailable e) =
    if fallback then ok memory else err (redis_unavailable e)
