-- ===== src/Cache/Loading.antt =====
-- What `load` of services/cache/cache.service.ts answers, whatever the backend does.
use sdcorejs_nestjs.Base.{
  ℕ, ◌<◌, ◌≡◌, refl, Option, none, some, Text, String, Result, ok, err, lookup, arith, Option-cases,
  inl, inr,
}
use sdcorejs_nestjs.Cache.Flights.{run_flight}
use sdcorejs_nestjs.Cache.Service.{
  Attempt, answered, failed, unsettled, Outcome, settled, hangs, Sharing, share, Backend, guarded,
  Factory, get_work, cache_get, cache_set, after_factory, load_work, after_get, load,
}

-- What a lookup of the backend finds: only a value that it answers in time.
abbrev pub hit_of : {V : Type 0} → Attempt (Option V) → Option V
hit_of (answered value) = value
hit_of failed = none
hit_of unsettled = none

guarded-hit_of :
    {V : Type 0} (timeout : ℕ) (a : Attempt (Option V))
    → 0 < timeout
    → guarded timeout none a ≡ settled (hit_of a)
unfolding guarded
guarded-hit_of timeout (answered a) h = refl
guarded-hit_of timeout failed h = refl
guarded-hit_of timeout unsettled h = ground arith

guarded-done :
    (timeout : ℕ) (a : Attempt (Unit {0})) → 0 < timeout → guarded timeout tt a ≡ settled tt
unfolding guarded
guarded-done timeout (answered u) h = refl
guarded-done timeout failed h = refl
guarded-done timeout unsettled h = ground arith

share-joined :
    {W A : Type 0} (key : Text) (s : Sharing A) (work : W → Outcome A × W) (w : W) (flight : ℕ)
    → lookup key s.flights.flights ≡ some flight
    → share key s work w ≡ (s.comes_to flight, w)
unfolding share run_flight
share-joined key s work w flight e = rw e refl

share-worked :
    {W A : Type 0} (key : Text) (s : Sharing A) (work : W → Outcome A × W) (w : W)
    → lookup key s.flights.flights ≡ none
    → share key s work w ≡ work w
unfolding share run_flight
share-worked key s work w e = rw e refl

module _ {W V : Type 0} (backend : Backend W V) (timeout : ℕ) (key : Text)
    (gets : Sharing (Option V)) (loads : Sharing (Result String (Option V))) (factory : Factory W V)
    (ttl : Option ℕ) where
  -- What the get of the key comes to, and the world after it.
  pub data Found (w : W) : Outcome (Option V) × W → Type 0 where
    joined_get :
        (flight : ℕ)
        → lookup key gets.flights.flights ≡ some flight
        → Found w (gets.comes_to flight, w)
    asked :
        lookup key gets.flights.flights ≡ none
        → Found w (settled (hit_of (backend.get key w).0), (backend.get key w).1)

  -- The world after the factory: a value is written once, under the key and with the interval.
  abbrev pub written : Result String (Option V) × W → W
  written (err e, w) = w
  written (ok none, w) = w
  written (ok (some value), w) = (backend.set key value ttl w).1

  -- What a load comes to, and the world after it.
  pub data Answers (w : W) : Outcome (Result String (Option V)) × W → Type 0 where
    cached :
        (value : V) (after : W)
        → Found w (settled (some value), after)
        → Answers w (settled (ok (some value)), after)
    joined_load :
        (flight : ℕ) (after : W)
        → Found w (settled none, after)
        → lookup key loads.flights.flights ≡ some flight
        → Answers w (loads.comes_to flight, after)
    loaded :
        (after : W)
        → Found w (settled none, after)
        → lookup key loads.flights.flights ≡ none
        → Answers w (settled (factory after).0, written (factory after))
    stuck : (after : W) → Found w (hangs, after) → Answers w (hangs, after)

  cache_get-Found : (w : W) → 0 < timeout → Found w (cache_get backend timeout key gets w)
  unfolding cache_get
  cache_get-Found w h = elim (Option-cases (lookup key gets.flights.flights)) [
    | inr (flight, e) ↦
        rw (share-joined key gets (get_work backend timeout key) w flight e) (joined_get flight e)
    | inl e ↦
        rw
          (
            share-worked key gets (get_work backend timeout key) w e,
            guarded-hit_of timeout (backend.get key w).0 h,
          )
          (asked e)
  ]

  after_factory-written :
      (x : Result String (Option V) × W)
      → 0 < timeout
      → after_factory backend timeout key ttl x ≡ (settled x.0, written x)
  unfolding cache_set
  after_factory-written (err e, w) h = refl
  after_factory-written (ok none, w) h = refl
  after_factory-written (ok (some value), w) h =
      rw (guarded-done timeout (backend.set key value ttl w).0 h) refl

  after_get-Answers :
      (w : W) (x : Outcome (Option V) × W)
      → 0 < timeout
      → Found w x
      → Answers w (after_get backend timeout key loads factory ttl x)
  after_get-Answers w (hangs, after) h found = stuck after found
  after_get-Answers w (settled (some value), after) h found = cached value after found
  after_get-Answers w (settled none, after) h found =
      elim (Option-cases (lookup key loads.flights.flights)) [
        | inr (flight, e) ↦
            rw (share-joined key loads (load_work backend timeout key factory ttl) after flight e)
              (joined_load flight after found e)
        | inl e ↦
            rw
              (
                share-worked key loads (load_work backend timeout key factory ttl) after e,
                after_factory-written (factory after) h,
              )
              (loaded after found e)
      ]

  -- With a timer, and a factory that settles, the outcome of a load is fixed by what its calls find.
  -- The get joins a pending get of its key and has that one's answer; otherwise it finds exactly the
  -- value that the backend answers in time, and a failure or a delay of the backend is a miss. A
  -- value that was found is answered, and no factory is called. After a miss, the caller joins a
  -- pending load of its key, has that one's answer and calls no factory; otherwise it answers exactly
  -- what its own factory does, errors included, and a value, but nothing else, is written once under
  -- the key with its interval, where a failure or a delay of the write changes nothing of the answer.
  -- The caller hangs only with a flight that it joined.
  pub load-Answers :
      (w : W) → 0 < timeout → Answers w (load backend timeout key gets loads factory ttl w)
  unfolding load
  load-Answers w h =
      after_get-Answers w (cache_get backend timeout key gets w) h (cache_get-Found w h)
