-- ===== src/Auth/Conflict.antt =====
-- The comparison of a trusted gateway's identity with a verified one in auth/permission/auth.guard.ts.
use sdcorejs_nestjs.Base.{
  ℕ, Bool, true, false, not, ◌&&◌, ◌||◌, ◌+◌, List, [], ◌∷◌, Option, none, some, Text, text_eq,
  lookup, ltb, ◌==◌, sort, same_texts,
}
use sdcorejs_nestjs.Values.{is_finite, bool_eq}
use sdcorejs_nestjs.Values.Datum.{
  Datum, Data, Fields, undefined, null, text, number, boolean, array, object, nil, cons, none_left,
  property, accessor, keys, field_of,
}
use sdcorejs_nestjs.Context.Identity.{Identity}

-- JSON texts of string arrays are equal exactly if the arrays are.
unfoldable pub arrays_conflict : Option (List Text) → Option (List Text) → Bool
unfolding sort same_texts
arrays_conflict (some left) (some right) = not (same_texts (sort left) (sort right))
arrays_conflict _ _ = false

abbrev pub data_length : Data → ℕ
data_length nil = 0
data_length (cons d ds) = data_length ds + 1

-- The keys of both objects agree after sorting.
abbrev same_keys : Fields → Fields → Bool
same_keys l r = same_texts (sort (keys l)) (sort (keys r))

-- safeIdentityValueEqual; the first argument is the depth.
unfoldable mutual
  pub safe_equal : ℕ → Datum → Datum → Bool
  safe_equal depth undefined undefined = not (ltb 32 depth)
  safe_equal depth null null = not (ltb 32 depth)
  safe_equal depth (text s) (text t) = not (ltb 32 depth) && text_eq s t
  safe_equal depth (boolean a) (boolean b) = not (ltb 32 depth) && bool_eq a b
  safe_equal depth (number a) (number b) =
      not (ltb 32 depth) && is_finite a && is_finite b && (a == b)
  safe_equal depth (array ls) (array rs) =
      not (ltb 32 depth) && (data_length ls == data_length rs) && every_equal (depth + 1) ls rs
  safe_equal depth (object ls) (object rs) =
      not (ltb 32 depth) && same_keys ls rs && every_field (depth + 1) ls rs
  safe_equal depth _ _ = false

  pub every_equal : ℕ → Data → Data → Bool
  every_equal depth nil rs = true
  every_equal depth (cons l ls) nil = false
  every_equal depth (cons l ls) (cons r rs) = safe_equal depth l r && every_equal depth ls rs

  -- Each property of the left object is plain on both sides, with equal values.
  pub every_field : ℕ → Fields → Fields → Bool
  every_field depth none_left rs = true
  every_field depth (accessor k ls) rs = false
  every_field depth (property k l ls) rs =
      elim (field_of k rs) [ none ↦ false | some r ↦ safe_equal depth l r ]
      && every_field depth ls rs

abbrev pub differs : Datum → Option Datum → Bool
differs l none = false
differs l (some r) = not (safe_equal 0 l r)

unfoldable pub custom_differs : List (Text × Datum) → List (Text × Datum) → Bool
unfolding lookup safe_equal
custom_differs [] right = false
custom_differs ((k, l) ∷ left) right = differs l (lookup k right) || custom_differs left right

unfoldable pub custom_conflict : Option (List (Text × Datum)) → Option (List (Text × Datum)) → Bool
unfolding custom_differs
custom_conflict (some left) (some right) = custom_differs left right
custom_conflict _ _ = false

unfoldable pub texts_conflict : Option Text → Option Text → Bool
unfolding text_eq
texts_conflict (some s) (some t) = not (text_eq s t)
texts_conflict _ _ = false

-- hasConflict
unfoldable pub has_conflict : Identity → Identity → Bool
unfolding texts_conflict arrays_conflict custom_conflict
has_conflict trusted verified =
    texts_conflict trusted.user_id verified.user_id
    || texts_conflict trusted.tenant verified.tenant
    || texts_conflict trusted.permission_version verified.permission_version
    || arrays_conflict trusted.roles verified.roles
    || arrays_conflict trusted.permissions verified.permissions
    || custom_conflict trusted.custom verified.custom
