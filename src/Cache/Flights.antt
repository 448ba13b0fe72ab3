-- ===== src/Cache/Flights.antt =====
-- SingleFlightService of utils/single-flight.service.ts as a machine whose steps are the calls of
-- `run`, the settling of a flight's work, and the clean-up that follows it.
use sdcorejs_nestjs.Base.{
  ℕ, ◌+◌, Bool, false, not, Option, none, some, List, [], ◌∷◌, Text, text_eq, lookup, insert, keep,
  ◌==◌, if◌then◌else◌,
}

-- `flights` maps a key to its registered flight; a flight is known by its number.
pub record Flights : Type 0 where
  pub flights : List (Text × ℕ)
  pub pending : List (Text × ℕ)
  pub next : ℕ

abbrev pub no_flights : Flights
no_flights = record { flights = []; pending = []; next = 0 }

-- What a call of `run` does: it joins a flight, or registers one and then calls its factory.
pub data Ran : Type 0 where
  joined started : ℕ → Ran

abbrev pub begin : Text → Flights → Flights
begin key f = record {
  flights = insert key f.next f.flights;
  pending = (key, f.next) ∷ f.pending;
  next = f.next + 1;
}

abbrev pub join_or_begin : Text → Flights → Option ℕ → Ran × Flights
join_or_begin key f (some flight) = (joined flight, f)
join_or_begin key f none = (started f.next, begin key f)

unfoldable pub run_flight : Text → Flights → Ran × Flights
unfolding lookup insert
run_flight key f = join_or_begin key f (lookup key f.flights)

-- `map.delete(key)`
unfoldable pub remove {ℓ} : {V : Type ℓ} → Text → List (Text × V) → List (Text × V)
unfolding text_eq
remove key [] = []
remove key ((k, v) ∷ m) = let rest = remove key m in if text_eq k key then rest else (k, v) ∷ rest

abbrev pub is_flight : Option ℕ → ℕ → Bool
is_flight none flight = false
is_flight (some n) flight = n == flight

abbrev pub unlisted : ℕ → List (Text × ℕ) → List (Text × ℕ)
unlisted flight = keep (λ (p : Text × ℕ). not (p.1 == flight))

-- `pending.finally`: the flight's work has settled, and it is taken off the map if it is still there.
unfoldable pub clean_up : Text → ℕ → Flights → Flights
unfolding remove
clean_up key flight f = record f {
  pending = unlisted flight f.pending;
  flights = if is_flight (lookup key f.flights) flight then remove key f.flights else f.flights;
}
