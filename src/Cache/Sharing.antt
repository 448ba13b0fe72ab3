-- ===== src/Cache/Sharing.antt =====
-- What SingleFlightService of utils/single-flight.service.ts promises of pending work.
use sdcorejs_nestjs.Base.{
  ℕ, ◌<◌, ◌≡◌, refl, ◌∙◌, ap, true, false, none, some, List, [], ◌∷◌, Text, text_eq, text_eq_sound,
  text_eq_iff, lookup, insert, lookup-insert, lookup-insert_self, All, In, ◌==◌, arith, Bool-cases,
  Option-cases, inl, inr,
}
use sdcorejs_nestjs.Cache.Flights.{
  Flights, no_flights, joined, started, run_flight, remove, is_flight, unlisted, clean_up,
}

-- What may happen: a caller runs a key; a flight whose work is pending is cleaned up.
pub data Step (f : Flights) : Flights → Type 0 where
  runs : (key : Text) → Step f (run_flight key f).1
  settles : (key : Text) (flight : ℕ) → In (key, flight) f.pending → Step f (clean_up key flight f)

pub data Reach : Flights → Type 0 where
  start : Reach no_flights
  later : {f g : Flights} → Reach f → Step f g → Reach g

-- A pending flight is the one that its key's map entry names.
abbrev pub Registered : List (Text × ℕ) → (Text × ℕ) → Type 0
Registered flights p = lookup p.0 flights ≡ some p.1

pub record Inv (f : Flights) : Type 0 where
  pub registered : All (Registered f.flights) f.pending
  pub fresh : All (λ (p : Text × ℕ). p.1 < f.next) f.pending

All-In : {A : Type 0} (P : A → Type 0) (a : A) (xs : List A) → In a xs → All P xs → P a
All-In P a [] h k = elim h [ ]
All-In P a (x ∷ xs) (inl e) (h, hs) = rw e h
All-In P a (x ∷ xs) (inr i) (h, hs) = All-In P a xs i hs

All-map :
    {A : Type 0} (P Q : A → Type 0) (xs : List A) → ((a : A) → P a → Q a) → All P xs → All Q xs
All-map P Q [] f h = tt
All-map P Q (x ∷ xs) f (h, hs) = (f x h, All-map P Q xs f hs)

-- A new entry does not disturb the flights of the other keys.
Registered-insert :
    (key : Text) (flight : ℕ) (flights ps : List (Text × ℕ))
    → lookup key flights ≡ none
    → All (Registered flights) ps
    → All (Registered (insert key flight flights)) ps
Registered-insert key flight flights ps free =
    All-map (Registered flights) (Registered (insert key flight flights)) ps (λ p h.
      elim (Bool-cases (text_eq key p.0)) [
        | inl same ↦ let e = text_eq_sound key p.0 same in absurd (cc)
        | inr other ↦ rw (lookup-insert key p.0 flight flights, other) h
      ])

run_flight-Inv : (key : Text) (f : Flights) → Inv f → Inv (run_flight key f).1
unfolding run_flight
run_flight-Inv key f inv = elim (Option-cases (lookup key f.flights)) [
  | inr (flight, e) ↦ rw e inv
  | inl free ↦ rw free (record {
    registered = (
      lookup-insert_self key f.next f.flights,
      Registered-insert key f.next f.flights f.pending free inv.registered,
    );
    fresh = (omega arith, All-map _ _ f.pending (λ p h. omega (arith, h)) inv.fresh);
  })
]

lookup-remove_self : (key : Text) (m : List (Text × ℕ)) → lookup key (remove key m) ≡ none
unfolding lookup remove
lookup-remove_self key [] = refl
lookup-remove_self key ((k, v) ∷ m) = ground (arith, lookup-remove_self key m)

lookup-remove_other :
    (key k : Text) (m : List (Text × ℕ))
    → text_eq key k ≡ false
    → lookup k (remove key m) ≡ lookup k m
unfolding lookup remove
lookup-remove_other key k [] other = refl
lookup-remove_other key k ((j, v) ∷ m) other = ground (
  arith,
  lookup-remove_other key k m other,
  text_eq_iff j key,
  text_eq_iff j k,
  text_eq_iff key k,
)

is_flight_self : (n : ℕ) → is_flight (some n) n ≡ true
is_flight_self n = ground arith

-- Taking a flight off the map leaves the entries of all other pending flights.
Registered-remove :
    (key : Text) (flight : ℕ) (flights ps : List (Text × ℕ))
    → lookup key flights ≡ some flight
    → All (Registered flights) ps
    → All (Registered (remove key flights)) (unlisted flight ps)
Registered-remove key flight flights [] e h = tt
Registered-remove key flight flights ((k, n) ∷ ps) e (h, hs) = elim (Bool-cases (n == flight)) [
  | inl same ↦ rw same (Registered-remove key flight flights ps e hs)
  | inr other ↦ rw other (kept other, Registered-remove key flight flights ps e hs)
]
  where
    kept : (n == flight) ≡ false → lookup k (remove key flights) ≡ some n
    kept other = elim (Bool-cases (text_eq key k)) [
      | inr apart ↦ lookup-remove_other key k flights apart ∙ h
      | inl same ↦
          let found : lookup key flights ≡ some n =
            ap (λ j. lookup j flights) (text_eq_sound key k same) ∙ h in
          let clash : flight ≡ n = cc in absurd (ground arith)
    ]

unlisted-fresh :
    (flight n : ℕ) (ps : List (Text × ℕ))
    → All (λ (p : Text × ℕ). p.1 < n) ps
    → All (λ (p : Text × ℕ). p.1 < n) (unlisted flight ps)
unlisted-fresh flight n [] h = tt
unlisted-fresh flight n ((k, m) ∷ ps) (h, hs) = elim (Bool-cases (m == flight)) [
  | inl same ↦ rw same (unlisted-fresh flight n ps hs)
  | inr other ↦ rw other (h, unlisted-fresh flight n ps hs)
]

registered_flight :
    {f : Flights} (key : Text) (flight : ℕ)
    → Inv f
    → In (key, flight) f.pending
    → lookup key f.flights ≡ some flight
registered_flight {f} key flight inv i =
    All-In (Registered f.flights) (key, flight) f.pending i inv.registered

clean_up-flights :
    (key : Text) (flight : ℕ) (f : Flights)
    → lookup key f.flights ≡ some flight
    → (clean_up key flight f).flights ≡ remove key f.flights
unfolding clean_up
clean_up-flights key flight f e = rw (e, is_flight_self flight) refl

clean_up-Inv :
    (key : Text) (flight : ℕ) (f : Flights)
    → Inv f
    → In (key, flight) f.pending
    → Inv (clean_up key flight f)
unfolding clean_up
clean_up-Inv key flight f inv i =
    let e = registered_flight key flight inv i in
    record {
      registered =
          rw (clean_up-flights key flight f e)
            (Registered-remove key flight f.flights f.pending e inv.registered);
      fresh = unlisted-fresh flight f.next f.pending inv.fresh;
    }

Step-Inv : {f g : Flights} → Step f g → Inv f → Inv g
Step-Inv {f} (runs key) inv = run_flight-Inv key f inv
Step-Inv {f} (settles key flight i) inv = clean_up-Inv key flight f inv i

Reach-Inv : {f : Flights} → Reach f → Inv f
Reach-Inv start = record { registered = tt; fresh = tt }
Reach-Inv (later r s) = Step-Inv s (Reach-Inv r)

-- However calls and settlements interleave, a key has at most one pending flight.
pub one_flight :
    {f : Flights} (reached : Reach f) (key : Text) (a b : ℕ)
    → In (key, a) f.pending
    → In (key, b) f.pending
    → a ≡ b
one_flight reached key a b i j =
    let first = registered_flight key a (Reach-Inv reached) i in
    let second = registered_flight key b (Reach-Inv reached) j in cc

-- While a key's flight is pending, a call with the key joins it: no factory is called and nothing
-- changes. Once the flight is cleaned up, the next call starts a new one: results are not kept.
pub run_flight-shared :
    {f : Flights} (reached : Reach f) (key : Text) (flight : ℕ)
    → In (key, flight) f.pending
    → (run_flight key f ≡ (joined flight, f))
      × ((run_flight key (clean_up key flight f)).0 ≡ started f.next)
unfolding run_flight
run_flight-shared {f} reached key flight i =
    let e = registered_flight key flight (Reach-Inv reached) i in
    (
      rw e refl,
      rw (clean_up-flights key flight f e, lookup-remove_self key f.flights)
          (unfold clean_up in refl),
    )
