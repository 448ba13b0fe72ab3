-- ===== src/Auth/Sameness.antt =====
-- What the bounded deep comparison of auth/permission/auth.guard.ts finds equal.
use sdcorejs_nestjs.Base.{
  ℕ, ◌+◌, ◌≡◌, true, false, Bool, some, Text, text_eq_sound, SameItems, same_texts, sort,
  same_texts-sort, Option-cases, inl, inr, arith, ◌==◌, ==_iff, and-true,
}
use sdcorejs_nestjs.Values.{bool_eq}
use sdcorejs_nestjs.Values.Datum.{
  Datum, Data, Fields, undefined, null, text, number, boolean, array, object, nil, cons, none_left,
  property, accessor, keys, field_of,
}
use sdcorejs_nestjs.Auth.Conflict.{safe_equal, every_equal, every_field, data_length}

-- The same JSON value: equal scalars, arrays whose items are the same one by one, and objects of plain
-- properties with the same keys, whose values are the same under each key.
mutual
  pub data Same : Datum → Datum → Type 0 where
    same_undefined : Same undefined undefined
    same_null : Same null null
    same_text : (s : Text) → Same (text s) (text s)
    same_boolean : (b : Bool) → Same (boolean b) (boolean b)
    same_number : (n : ℕ) → Same (number n) (number n)
    same_array : {ls rs : Data} → SameAll ls rs → Same (array ls) (array rs)
    same_object :
        {ls rs : Fields}
        → SameItems (keys ls) (keys rs)
        → SameFields ls rs
        → Same (object ls) (object rs)

  pub data SameAll : Data → Data → Type 0 where
    both_empty : SameAll nil nil
    both_next :
        {l r : Datum} {ls rs : Data} → Same l r → SameAll ls rs → SameAll (cons l ls) (cons r rs)

  pub data SameFields : Fields → Fields → Type 0 where
    no_more : {rs : Fields} → SameFields none_left rs
    field :
        {k : Text} {l r : Datum} {ls rs : Fields}
        → field_of k rs ≡ some r
        → Same l r
        → SameFields ls rs
        → SameFields (property k l ls) rs

number-Same : (m n : ℕ) → (m == n) ≡ true → Same (number m) (number n)
number-Same m n h = let e : m ≡ n = ground arith in rw e (same_number n)

boolean-Same : (a b : Bool) → bool_eq a b ≡ true → Same (boolean a) (boolean b)
boolean-Same true true h = same_boolean true
boolean-Same false false h = same_boolean false
boolean-Same true false h = cc
boolean-Same false true h = cc

mutual
  unfolding safe_equal

  pub safe_equal-Same : (depth : ℕ) (l r : Datum) → safe_equal depth l r ≡ true → Same l r
  safe_equal-Same depth undefined undefined h = same_undefined
  safe_equal-Same depth null null h = same_null
  safe_equal-Same depth (text s) (text t) h =
      let e : s ≡ t = text_eq_sound s t (and-true _ _ h).1 in rw e (same_text t)
  safe_equal-Same depth (boolean a) (boolean b) h = boolean-Same a b (and-true _ _ h).1
  safe_equal-Same depth (number a) (number b) h = number-Same a b (and-true _ (a == b) h).1
  safe_equal-Same depth (array ls) (array rs) h =
      let (shallow, rest) = and-true _ (every_equal (depth + 1) ls rs) h in
      let (in_depth, lengths) = and-true _ (data_length ls == data_length rs) shallow in
      same_array (
        every_equal-SameAll (depth + 1) ls rs ((==_iff (data_length ls) (data_length rs)).0 lengths)
          rest)
  safe_equal-Same depth (object ls) (object rs) h =
      let (shallow, rest) = and-true _ (every_field (depth + 1) ls rs) h in
      let (in_depth, names) = and-true _ (same_texts (sort (keys ls)) (sort (keys rs))) shallow in
      same_object ((same_texts-sort (keys ls) (keys rs)).0 names)
        (every_field-SameFields (depth + 1) ls rs rest)
  safe_equal-Same depth _ _ h = cc

  every_equal-SameAll :
      (depth : ℕ) (ls rs : Data)
      → data_length ls ≡ data_length rs
      → every_equal depth ls rs ≡ true
      → SameAll ls rs
  every_equal-SameAll depth nil nil n h = both_empty
  every_equal-SameAll depth nil (cons r rs) n h = absurd (ground arith)
  every_equal-SameAll depth (cons l ls) nil n h = cc
  every_equal-SameAll depth (cons l ls) (cons r rs) n h =
      let (first, rest) = and-true (safe_equal depth l r) (every_equal depth ls rs) h in
      both_next (safe_equal-Same depth l r first)
        (every_equal-SameAll depth ls rs (omega (arith, n)) rest)

  every_field-SameFields :
      (depth : ℕ) (ls rs : Fields) → every_field depth ls rs ≡ true → SameFields ls rs
  every_field-SameFields depth none_left rs h = no_more
  every_field-SameFields depth (accessor k ls) rs h = cc
  every_field-SameFields depth (property k l ls) rs h = elim (Option-cases (field_of k rs)) [
    | inl missing ↦ cc (rw missing at h)
    | inr (r, found) ↦
        let (first, rest) =
          and-true (safe_equal depth l r) (every_field depth ls rs) (rw found at h) in
        field found (safe_equal-Same depth l r first) (every_field-SameFields depth ls rs rest)
  ]
