-- ===== src/Auth/Internal.antt =====
-- InternalGuard of auth/permission/internal.guard.ts. A secret's bytes in UTF-8 are a parameter; the
-- library's timed comparison of byte strings of one length is equality.
use sdcorejs_nestjs.Base.{
  ℕ, Bool, true, Option, none, some, List, [], ◌∷◌, Text, length, any, text_eq, is_empty, Result,
  ok, err, ◌==◌, if◌then◌else◌, ◌&&◌,
}

pub data InternalError : Type 0 where
  provider_missing secret_missing secret_mismatch : InternalError
  thrown : InternalError

-- The header's raw value, which may be repeated.
pub data Header : Type 0 where
  absent : Header
  single : Text → Header
  repeated : List Text → Header

-- The provider answers several keys, or one; either call may throw.
pub record Provider : Type 0 where
  pub get_keys : Option (Result InternalError (List Text))
  pub get_key : Result InternalError Text

abbrev pub first_of : List Text → Text
first_of [] = []
first_of (s ∷ texts) = s

-- An absent header reads as the empty string, which is refused alike.
abbrev pub provided : Header → Text
provided absent = []
provided (single s) = s
provided (repeated texts) = first_of texts

abbrev pub one_key : Result InternalError Text → Result InternalError (List Text)
one_key (err e) = err e
one_key (ok key) = ok (key ∷ [])

unfoldable pub expected_keys : Provider → Result InternalError (List Text)
expected_keys p = elim p.get_keys [ none ↦ one_key p.get_key | some keys ↦ keys ]

module _ (utf8 : Text → List ℕ) where
  unfoldable pub safe_equal_secret : Text → Text → Bool
  unfolding text_eq
  safe_equal_secret a b = (length (utf8 a) == length (utf8 b)) && text_eq (utf8 a) (utf8 b)

  abbrev pub match_keys :
      Text
      → Result InternalError (Unit {0})
      → Result InternalError (List Text)
      → Result InternalError Bool
  match_keys secret enriched (err e) = err e
  match_keys secret enriched (ok keys) =
      if any (safe_equal_secret secret) keys
      then elim enriched [ ok u ↦ ok true | err e ↦ err e ]
      else err secret_mismatch

  -- canActivate; the last argument is what the enricher answers, if there is one.
  unfoldable pub can_activate_internal :
      Option Provider → Header → Result InternalError (Unit {0}) → Result InternalError Bool
  unfolding expected_keys safe_equal_secret
  can_activate_internal none header enriched = err provider_missing
  can_activate_internal (some p) header enriched =
      if is_empty (provided header)
      then err secret_missing
      else match_keys (provided header) enriched (expected_keys p)
