-- ===== src/Cache/Tests.antt =====
-- The cache of services/cache and the flights of utils/single-flight.service.ts at small states.
use sdcorejs_nestjs.Base.{
  ℕ, ◌≡◌, refl, String, Result, insert, Option, some, none, [], ◌++◌, lit, ok, text_eq, lookup,
  length, inl, arith, ◌-◌,
}
use sdcorejs_nestjs.Cache.Flights.{Flights, no_flights, joined, started, run_flight, clean_up}
use sdcorejs_nestjs.Cache.Sharing.{Reach, runs, run_flight-shared, one_flight}
use sdcorejs_nestjs.Cache.Sharing as Sharing
use sdcorejs_nestjs.Cache.Memory.{Store, Limits, memory_get, memory_set, evict}
use sdcorejs_nestjs.Cache.Recency.{IsValid, Reach-IsValid}
use sdcorejs_nestjs.Cache.Recency as Recency
use sdcorejs_nestjs.Cache.Answers.{evict-oldest, memory_get-memory_set}
use sdcorejs_nestjs.Cache.Service.{
  failed, unsettled, settled, hangs, Sharing, Backend, Factory, load,
}
use sdcorejs_nestjs.Cache.Loading.{Answers, load-Answers}

abbrev one_running : Flights
one_running = (run_flight (lit "k") no_flights).1

running_reached : Reach one_running
running_reached = Sharing.later Sharing.start (runs (lit "k"))

run_flight-shared_example :
    (run_flight (lit "k") one_running ≡ (joined 0, one_running))
    × ((run_flight (lit "k") (clean_up (lit "k") 0 one_running)).0 ≡ started 1)
unfolding run_flight
run_flight-shared_example = run_flight-shared running_reached (lit "k") 0 (inl refl)

abbrev limits : Limits
limits = record { max_entries = 2; default_ttl = 60 }

abbrev two : Store ℕ
two = memory_set limits (lit "b") 2 none 0 (memory_set limits (lit "a") 1 none 0 [])

abbrev three : Store ℕ
three = memory_set limits (lit "c") 3 (some 0) 10 two

three_reached : Recency.Reach limits three
three_reached =
    Recency.later
      (Recency.later (Recency.later Recency.start (Recency.sets (lit "a") 1 none 0))
        (Recency.sets (lit "b") 2 none 0))
      (Recency.sets (lit "c") 3 (some 0) 10)

Reach-IsValid_example : IsValid limits three
Reach-IsValid_example = Reach-IsValid three_reached

-- The oldest entry has gone.
evicted_run : lookup (lit "a") three ≡ none
unfolding memory_set lookup text_eq
evicted_run = refl

evict-oldest_example : (old : Store ℕ) × (two ≡ old ++ evict 1 two) × (length old ≡ length two - 1)
evict-oldest_example = evict-oldest 1 two

memory_get-memory_set_example :
    (memory_get (lit "d") 5000 (memory_set limits (lit "d") 4 (some 5) 0 two)).0 ≡ some 4
memory_get-memory_set_example =
    memory_get-memory_set limits (lit "d") 4 (some 5) 0 5000 two (omega arith) refl

-- A backend that never answers in time.
abbrev stalled : Backend ℕ ℕ
stalled = record {
  get = λ key w. (unsettled, w);
  set = λ key value ttl w. (failed, w);
  del = λ key w. (failed, w);
  clear = λ w. (failed, w);
  size = λ w. (failed, w);
}

abbrev answer_seven : Factory ℕ ℕ
answer_seven w = (ok (some 7), w)

-- Another caller's load of the key is pending, and will answer 9.
abbrev no_gets : Sharing (Option ℕ)
no_gets = record { flights = no_flights; comes_to = λ flight. hangs }

abbrev one_load : Sharing (Result String (Option ℕ))
one_load = record { flights = one_running; comes_to = λ flight. settled (ok (some 9)) }

joined_run :
    (load stalled 1000 (lit "k") no_gets one_load answer_seven none 0).0 ≡ settled (ok (some 9))
unfolding load run_flight lookup insert text_eq
joined_run = refl

load-Answers_example :
    Answers stalled 1000
      (lit "k")
      no_gets
      one_load
      answer_seven
      none
      0
      (load stalled 1000 (lit "k") no_gets one_load answer_seven none 0)
load-Answers_example =
    load-Answers stalled 1000 (lit "k") no_gets one_load answer_seven none 0 (omega arith)
