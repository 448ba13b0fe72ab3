-- ===== src/Tenancy/Isolation.antt =====
-- What a successful write of core/tenancy/tenancy.helpers.ts guarantees of the stored entity.
use sdcorejs_nestjs.Base.{
  ◌≡◌, refl, true, false, List, [], ◌∷◌, some, inl, inr, sym, subst, ◌∙◌, arith, Text, any, All, In,
  lookup, ok, >>=-eq-ok, Bool-cases, text_eq, text_eq_iff, lookup-insert, lookup-insert_self,
}
use sdcorejs_nestjs.Values.{
  Item, Value, one, many, is_nullish, is_nullish_item, same_value, same_value_sound, get_prop,
}
use sdcorejs_nestjs.Tenancy.Scope.{
  ScopedColumn, Scope, Predicate, is_scalar, normalize_allowed_values,
}
use sdcorejs_nestjs.Tenancy.Write.{Entity, choose_only, select_scope, apply_column, apply_columns}

-- The entity holds one of the values that the predicate allows.
pub record Satisfies (e : Entity) (p : Predicate) : Type 0 where
  pub value : Item
  pub stored : lookup p.property_name e ≡ some (one value)
  pub allowed : In value p.values

pub record Chosen (e : Entity) (name : Text) (allowed : List Item) : Type 0 where
  pub value : Item
  pub stored : lookup name e ≡ some (one value)
  pub member : In value allowed

In-of_any : (item : Item) (xs : List Item) → any (λ a. same_value a item) xs ≡ true → In item xs
In-of_any item [] h = cc
In-of_any item (x ∷ xs) h = elim (Bool-cases (same_value x item)) [
  | inl same ↦ inl (sym (same_value_sound x item same))
  | inr differs ↦ inr (In-of_any item xs (rw differs at h))
]

scalar_stored :
    (name : Text) (e : Entity) (item : Item)
    → get_prop name e ≡ one item
    → is_scalar item ≡ true
    → lookup name e ≡ some (one item)
unfolding get_prop is_scalar
scalar_stored name e item g s = ground arith

choose_only-Chosen :
    (name : Text) (e e' : Entity) (allowed : List Item)
    → choose_only name e allowed ≡ ok e'
    → Chosen e' name allowed
unfolding choose_only
choose_only-Chosen name e e' (a ∷ []) h = record {
  value = a;
  stored = ground (arith, lookup-insert_self name (one a) e);
  member = inl refl;
}
choose_only-Chosen name e e' _ h = cc

choose_only-frame :
    (name k : Text) (e e' : Entity) (allowed : List Item)
    → choose_only name e allowed ≡ ok e'
    → text_eq name k ≡ false
    → lookup k e' ≡ lookup k e
unfolding choose_only
choose_only-frame name k e e' (a ∷ []) h d = ground (arith, lookup-insert name k (one a) e)
choose_only-frame name k e e' _ h d = cc

select_scope-Chosen :
    (name : Text) (e e' : Entity) (selected : Value) (allowed : List Item)
    → get_prop name e ≡ selected
    → select_scope name e selected allowed ≡ ok e'
    → Chosen e' name allowed
unfolding select_scope
select_scope-Chosen name e e' (one item) (a ∷ more) g h =
    elim (Bool-cases (is_nullish (one item))) [
      | inl nullish ↦ choose_only-Chosen name e e' (a ∷ more) (ground arith)
      | inr present ↦
          let scalar : is_scalar item ≡ true = ground arith in
          let found : any (λ b. same_value b item) (a ∷ more) ≡ true = ground arith in
          let same : e ≡ e' = ground arith in
          rw (← same) (record {
            value = item;
            stored = scalar_stored name e item g scalar;
            member = In-of_any item (a ∷ more) found;
          })
    ]
select_scope-Chosen name e e' (one item) [] g h = cc
select_scope-Chosen name e e' (many items) [] g h = cc
select_scope-Chosen name e e' (many items) (a ∷ more) g h = cc

select_scope-frame :
    (name k : Text) (e e' : Entity) (selected : Value) (allowed : List Item)
    → select_scope name e selected allowed ≡ ok e'
    → text_eq name k ≡ false
    → lookup k e' ≡ lookup k e
unfolding select_scope
select_scope-frame name k e e' selected [] h d = cc
select_scope-frame name k e e' selected (a ∷ more) h d = elim (Bool-cases (is_nullish selected)) [
  | inl nullish ↦ choose_only-frame name k e e' (a ∷ more) (ground arith) d
  | inr present ↦ let same : e ≡ e' = ground arith in rw (← same)
]

-- What a round establishes for its column; nothing where the scope has no value.
pub data Fits (e : Entity) (name : Text) : Value → Type 0 where
  skipped : {item : Item} → is_nullish_item item ≡ true → Fits e name (one item)
  fixed :
      {item : Item}
      → is_nullish_item item ≡ false
      → is_scalar item ≡ true
      → lookup name e ≡ some (one item)
      → Fits e name (one item)
  chosen :
      {items allowed : List Item}
      → normalize_allowed_values name items ≡ ok allowed
      → Chosen e name allowed
      → Fits e name (many items)

apply_column-Fits :
    (name : Text) (value : Value) (e e' : Entity)
    → apply_column name value e ≡ ok e'
    → Fits e' name value
unfolding apply_column
apply_column-Fits name (one item) e e' h = elim (Bool-cases (is_nullish_item item)) [
  | inl nullish ↦ skipped nullish
  | inr present ↦
      fixed present (ground arith) (ground (arith, lookup-insert_self name (one item) e))
]
apply_column-Fits name (many items) e e' h =
    let (allowed, normal, picked) = >>=-eq-ok (normalize_allowed_values name items) _ h in
    chosen normal (select_scope-Chosen name e e' (get_prop name e) allowed refl picked)

pub apply_column-frame :
    (name k : Text) (value : Value) (e e' : Entity)
    → apply_column name value e ≡ ok e'
    → text_eq name k ≡ false
    → lookup k e' ≡ lookup k e
unfolding apply_column
apply_column-frame name k (one item) e e' h d = ground (arith, lookup-insert name k (one item) e)
apply_column-frame name k (many items) e e' h d =
    let (allowed, normal, picked) = >>=-eq-ok (normalize_allowed_values name items) _ h in
    select_scope-frame name k e e' (get_prop name e) allowed picked d

Fits-transport :
    (e e' : Entity) (k : Text) {value : Value}
    → lookup k e' ≡ lookup k e
    → Fits e k value
    → Fits e' k value
Fits-transport e e' k same (skipped n) = skipped n
Fits-transport e e' k same (fixed p s stored) = fixed p s (same ∙ stored)
Fits-transport e e' k same (chosen n c) =
    chosen n (record { value = c.value; stored = same ∙ c.stored; member = c.member })

-- A round for one column keeps what the rounds before it established for the others.
apply_column-keeps :
    (scope : Scope) (name k : Text) (e e' : Entity)
    → apply_column name (get_prop name scope) e ≡ ok e'
    → Fits e k (get_prop k scope)
    → Fits e' k (get_prop k scope)
apply_column-keeps scope name k e e' h f = elim (Bool-cases (text_eq name k)) [
  | inl same ↦
      subst (λ j. Fits e' j (get_prop j scope)) ((text_eq_iff name k).0 same)
        (apply_column-Fits name (get_prop name scope) e e' h)
  | inr differs ↦ Fits-transport e e' k (apply_column-frame name k _ e e' h differs) f
]

apply_columns-keeps :
    (scope : Scope) (columns : List ScopedColumn) (k : Text) (e e' : Entity)
    → apply_columns scope columns e ≡ ok e'
    → Fits e k (get_prop k scope)
    → Fits e' k (get_prop k scope)
unfolding apply_columns
apply_columns-keeps scope [] k e e' h f = let same : e ≡ e' = cc in rw (← same) f
apply_columns-keeps scope (c ∷ cs) k e e' h f =
    let (next, now, later) =
      >>=-eq-ok (apply_column c.property_name (get_prop c.property_name scope) e) _ h in
    apply_columns-keeps scope cs k next e' later
      (apply_column-keeps scope c.property_name k e next now f)

abbrev pub FitsAll : Scope → Entity → List ScopedColumn → Type 0
FitsAll scope e =
    All (λ (c : ScopedColumn). Fits e c.property_name (get_prop c.property_name scope))

pub apply_columns-FitsAll :
    (scope : Scope) (columns : List ScopedColumn) (e e' : Entity)
    → apply_columns scope columns e ≡ ok e'
    → FitsAll scope e' columns
unfolding apply_columns
apply_columns-FitsAll scope [] e e' h = tt
apply_columns-FitsAll scope (c ∷ cs) e e' h =
    let name = c.property_name in
    let (next, now, later) = >>=-eq-ok (apply_column name (get_prop name scope) e) _ h in
    (
      apply_columns-keeps scope cs name next e' later (apply_column-Fits name _ e next now),
      apply_columns-FitsAll scope cs next e' later,
    )
