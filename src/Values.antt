-- ===== src/Values.antt =====
-- JavaScript values as the tenancy, repository and filter code sees them.
pub mod Datum
use sdcorejs_nestjs.Base.{
  ℕ, ◌/◌, ◌%◌, ◌^◌, ◌≡◌, refl, Bool, true, false, not, ◌&&◌, List, [], ◌∷◌, arith, ◌==◌,
  if◌then◌else◌, Text, text_eq, text_eq_self, text_eq_sound, any, lookup, or_default,
}

-- A number is its IEEE 754 bit pattern, with one pattern for NaN. A date, or any other object, is
-- known by its identity; a date also by whether its time is valid. A nested array is an object.
pub data Item : Type 0 where
  undef : Item
  null : Item
  str : Text → Item
  num : ℕ → Item
  boolean : Bool → Item
  bigint : Bool → ℕ → Item
  date : ℕ → Bool → Item
  other : ℕ → Item

pub data Value : Type 0 where
  one : Item → Value
  many : List Item → Value

-- `value === undefined || value === null`
unfoldable pub is_nullish_item : Item → Bool
is_nullish_item undef = true
is_nullish_item null = true
is_nullish_item _ = false

unfoldable pub is_nullish : Value → Bool
unfolding is_nullish_item
is_nullish (one i) = is_nullish_item i
is_nullish (many is) = false

-- `Number.isFinite`: the exponent is not all ones.
unfoldable pub is_finite : ℕ → Bool
is_finite bits = not (((bits / 2 ^ 52) % 2 ^ 11) == 2047)

abbrev pub bool_eq : Bool → Bool → Bool
bool_eq true b = b
bool_eq false b = not b

-- `Object.is`
unfoldable pub same_value : Item → Item → Bool
unfolding text_eq
same_value undef undef = true
same_value null null = true
same_value (str s) (str t) = text_eq s t
same_value (num a) (num b) = a == b
same_value (boolean a) (boolean b) = bool_eq a b
same_value (bigint a m) (bigint b n) = bool_eq a b && (m == n)
same_value (date r v) (date s w) = (r == s) && bool_eq v w
same_value (other r) (other s) = r == s
same_value _ _ = false

abbrev pub minus_zero : ℕ
minus_zero = 2 ^ 63

-- A `Set` holds zero for both zeros.
unfoldable pub canonical : Item → Item
canonical (num bits) = if bits == minus_zero then num 0 else num bits
canonical i = i

-- `Array.from(new Set(items))`, with the members seen so far.
unfoldable pub unique_from : List Item → List Item → List Item
unfolding same_value canonical
unique_from seen [] = []
unique_from seen (x ∷ xs) = elim (any (same_value (canonical x)) seen) [
  | true ↦ unique_from seen xs
  | false ↦ canonical x ∷ unique_from (canonical x ∷ seen) xs
]

unfoldable pub unique : List Item → List Item
unfolding unique_from
unique xs = unique_from [] xs

-- `object[key]`, with `undefined` for a missing key
unfoldable pub get_prop : Text → List (Text × Value) → Value
unfolding lookup
get_prop k m = or_default (lookup k m) (one undef)

pub same_value_sound : (a b : Item) → same_value a b ≡ true → a ≡ b
unfolding same_value
same_value_sound undef undef h = refl
same_value_sound null null h = refl
same_value_sound (str s) (str t) h = ground (arith, text_eq_sound s t)
same_value_sound (num a) (num b) h = ground arith
same_value_sound (boolean a) (boolean b) h = ground arith
same_value_sound (bigint a m) (bigint b n) h = ground arith
same_value_sound (date r v) (date s w) h = ground arith
same_value_sound (other r) (other s) h = ground arith
same_value_sound a b h = cc

pub same_value_self : (a : Item) → same_value a a ≡ true
unfolding same_value
same_value_self (str s) = text_eq_self s
same_value_self a = ground arith
