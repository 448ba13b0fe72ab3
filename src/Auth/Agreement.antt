-- ===== src/Auth/Agreement.antt =====
-- What it means that no conflict is found in auth/permission/auth.guard.ts.
use sdcorejs_nestjs.Base.{
  ◌≡◌, subst, ◌∙◌, ap, ◌↔◌, Bool-cases, inl, inr, lookup, text_eq, [], ◌∷◌, false, Option, none,
  some, List, Text, text_eq_sound, SameItems, same_texts-sort, arith,
}
use sdcorejs_nestjs.Values.Datum.{Datum}
use sdcorejs_nestjs.Context.Identity.{Identity}
use sdcorejs_nestjs.Uploads.Bytes.{some_inj}
use sdcorejs_nestjs.Auth.Sameness.{Same, safe_equal-Same}
use sdcorejs_nestjs.Auth.Conflict.{
  differs, custom_differs, custom_conflict, arrays_conflict, texts_conflict, has_conflict,
}

-- The arrays of roles or permissions do not conflict exactly if they hold the same strings, each as
-- often, in whatever order.
pub arrays_conflict-SameItems :
    (left right : List Text)
    → (arrays_conflict (some left) (some right) ≡ false) ↔ SameItems left right
unfolding arrays_conflict
arrays_conflict-SameItems left right = (
  λ h. (same_texts-sort left right).0 (ground arith),
  λ h. let e = (same_texts-sort left right).1 h in ground arith,
)

-- Wherever both objects have a value for a key, the two are the same JSON value.
abbrev SameValues : List (Text × Datum) → List (Text × Datum) → Type 0
SameValues left right =
    (k : Text) (l r : Datum) → lookup k left ≡ some l → lookup k right ≡ some r → Same l r

-- Where both identities give a value, the values agree.
abbrev pub Agree : {A : Type 0} → (A → A → Type 0) → Option A → Option A → Type 0
Agree same (some a) (some b) = same a b
Agree same _ _ = Unit

pub record IsConsistent (trusted verified : Identity) : Type 0 where
  pub user_id : Agree (λ (s t : Text). s ≡ t) trusted.user_id verified.user_id
  pub tenant : Agree (λ (s t : Text). s ≡ t) trusted.tenant verified.tenant
  pub permission_version :
      Agree (λ (s t : Text). s ≡ t) trusted.permission_version verified.permission_version
  pub roles : Agree SameItems trusted.roles verified.roles
  pub permissions : Agree SameItems trusted.permissions verified.permissions
  pub custom : Agree SameValues trusted.custom verified.custom

texts_conflict-Agree :
    (s t : Option Text) → texts_conflict s t ≡ false → Agree (λ (s t : Text). s ≡ t) s t
unfolding texts_conflict
texts_conflict-Agree (some s) (some t) h = text_eq_sound s t (ground arith)
texts_conflict-Agree (some s) none h = tt
texts_conflict-Agree none t h = tt

arrays_conflict-Agree :
    (s t : Option (List Text)) → arrays_conflict s t ≡ false → Agree SameItems s t
arrays_conflict-Agree (some s) (some t) h = (arrays_conflict-SameItems s t).0 h
arrays_conflict-Agree (some s) none h = tt
arrays_conflict-Agree none t h = tt

custom_differs-SameValues :
    (left right : List (Text × Datum)) → custom_differs left right ≡ false → SameValues left right
unfolding custom_differs lookup
custom_differs-SameValues [] right h k l r hl hr = cc
custom_differs-SameValues ((j, d) ∷ left) right h k l r hl hr = elim (Bool-cases (text_eq j k)) [
  | inl here ↦
      let same_key : j ≡ k = text_eq_sound j k here in
      let same : d ≡ l = some_inj d l (rw here at hl) in
      let given : lookup j right ≡ some r = ap (λ n. lookup n right) same_key ∙ hr in
      let fine : differs d (some r) ≡ false =
        (let e : differs d (lookup j right) ≡ false = ground arith in rw given at e) in
      subst (λ x. Same x r) same (safe_equal-Same 0 d r (ground arith))
  | inr other ↦ custom_differs-SameValues left right (ground arith) k l r (rw other at hl) hr
]

custom_conflict-Agree :
    (s t : Option (List (Text × Datum))) → custom_conflict s t ≡ false → Agree SameValues s t
unfolding custom_conflict
custom_conflict-Agree (some l) (some r) h = custom_differs-SameValues l r h
custom_conflict-Agree (some l) none h = tt
custom_conflict-Agree none r h = tt

pub has_conflict-IsConsistent :
    (trusted verified : Identity)
    → has_conflict trusted verified ≡ false
    → IsConsistent trusted verified
unfolding has_conflict
has_conflict-IsConsistent trusted verified h = record {
  user_id = texts_conflict-Agree trusted.user_id verified.user_id (ground arith);
  tenant = texts_conflict-Agree trusted.tenant verified.tenant (ground arith);
  permission_version =
      texts_conflict-Agree trusted.permission_version verified.permission_version (ground arith);
  roles = arrays_conflict-Agree trusted.roles verified.roles (ground arith);
  permissions = arrays_conflict-Agree trusted.permissions verified.permissions (ground arith);
  custom = custom_conflict-Agree trusted.custom verified.custom (ground arith);
}
