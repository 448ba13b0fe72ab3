-- ===== src/Tenancy/Clauses.antt =====
-- What the filters and the where fragment of a scope say of its columns
-- (buildScopeFilters and buildScopeWhere of core/tenancy/tenancy.helpers.ts).
use sdcorejs_nestjs.Base.{
  ◌≡◌, refl, sym, ◌∙◌, ap, subst, true, false, List, [], ◌∷◌, Option, none, some, inl, inr, arith,
  Text, map, keep, is_empty, ok, >>=-eq-ok, Bool-cases,
}
use sdcorejs_nestjs.Values.{Item, Value, one, many, is_nullish, is_nullish_item, get_prop}
use sdcorejs_nestjs.Filter.Syntax.{plain, literal, Leaf, leaf, Filters, nil, cons}
use sdcorejs_nestjs.Filter.Syntax
use sdcorejs_nestjs.Tenancy.Scope.{
  ScopedColumn, described, Scope, Predicate, is_scalar, normalize_column, normalize_columns,
  assert_required_scope, is_missing, normalize_allowed_values, predicate_for, push, predicates_for,
  resolve_scope_predicates,
}
use sdcorejs_nestjs.Tenancy.Scope as Tenancy
use sdcorejs_nestjs.Tenancy.Query.{
  scope_leaf, Criterion, is_value, is_in, criterion, scope_filters, build_scope_filters,
}
use sdcorejs_nestjs.Tenancy.Coverage.{NoneMissing, none_missing}

-- The value that the scope gives a property, or all the values that it allows.
pub data Pinned (scope : Scope) (name : Text) : Criterion → Type 0 where
  to_one :
      (item : Item)
      → get_prop name scope ≡ one item
      → is_nullish_item item ≡ false
      → Pinned scope name (is_value item)
  to_many :
      (items allowed : List Item)
      → get_prop name scope ≡ many items
      → normalize_allowed_values name items ≡ ok allowed
      → Pinned scope name (is_in allowed)

-- The scope has no value for the column, which does not require one.
pub record IsFree (scope : Scope) (column : ScopedColumn) : Type 0 where
  pub item : Item
  pub given : get_prop column.property_name scope ≡ one item
  pub nullish : is_nullish_item item ≡ true
  pub optional : column.required ≡ false

-- The predicates of a scope, column by column.
pub data Resolved (scope : Scope) : List ScopedColumn → List Predicate → Type 0 where
  all_resolved : Resolved scope [] []
  free :
      {column : ScopedColumn} {columns : List ScopedColumn} {ps : List Predicate}
      → IsFree scope column
      → Resolved scope columns ps
      → Resolved scope (column ∷ columns) ps
  fixed :
      {column : ScopedColumn} {columns : List ScopedColumn} {ps : List Predicate} (p : Predicate)
      → p.property_name ≡ column.property_name
      → Pinned scope column.property_name (criterion p.operator p.values)
      → Resolved scope columns ps
      → Resolved scope (column ∷ columns) (p ∷ ps)

-- How one column is resolved.
abbrev ResultFor : Scope → ScopedColumn → Option Predicate → Type 0
ResultFor scope column none = IsFree scope column
ResultFor scope column (some p) =
    (p.property_name ≡ column.property_name)
    × Pinned scope column.property_name (criterion p.operator p.values)

predicate_for-ResultFor :
    (scope : Scope) (column : ScopedColumn) (value : Value) (p : Option Predicate)
    → get_prop column.property_name scope ≡ value
    → is_missing scope column ≡ false
    → predicate_for column value ≡ ok p
    → ResultFor scope column p
unfolding predicate_for is_missing is_nullish criterion
predicate_for-ResultFor scope column (many items) p given present h =
    let (allowed, normal, done) =
      >>=-eq-ok (normalize_allowed_values column.property_name items) _ h in
    let same : some (record {
      property_name = column.property_name;
      required = column.required;
      operator = Tenancy.among;
      values = allowed;
    })
        ≡ p =
      cc in
    subst (ResultFor scope column) same (refl, to_many items allowed given normal)
predicate_for-ResultFor scope column (one item) p given present h =
    elim (Bool-cases (is_nullish_item item)) [
      | inl nullish ↦
          let same : none ≡ p = cc (rw nullish at h) in
          subst (ResultFor scope column) same (record {
            item = item;
            given = given;
            nullish = nullish;
            optional = ground (arith, ap is_nullish given, nullish);
          })
      | inr valued ↦ elim (Bool-cases (is_scalar item)) [
        | inr other ↦ cc (rw (valued, other) at h)
        | inl scalar ↦
            let same : some (record {
              property_name = column.property_name;
              required = column.required;
              operator = Tenancy.equal;
              values = item ∷ [];
            })
                ≡ p =
              cc (rw (valued, scalar) at h) in
            subst (ResultFor scope column) same (refl, to_one item given valued)
      ]
    ]

Resolved-push :
    (scope : Scope) (column : ScopedColumn) (columns : List ScopedColumn) (p : Option Predicate)
    (ps : List Predicate)
    → ResultFor scope column p
    → Resolved scope columns ps
    → Resolved scope (column ∷ columns) (push p ps)
Resolved-push scope column columns none ps is_free rest = free is_free rest
Resolved-push scope column columns (some p) ps (named, pinned) rest = fixed p named pinned rest

predicates_for-Resolved :
    (scope : Scope) (columns : List ScopedColumn) (ps : List Predicate)
    → NoneMissing scope columns
    → predicates_for scope columns ≡ ok ps
    → Resolved scope columns ps
unfolding predicates_for
predicates_for-Resolved scope [] ps present h =
    let same : [] ≡ ps = cc in subst (Resolved scope []) same all_resolved
predicates_for-Resolved scope (c ∷ cs) ps (here, later) h =
    let value = get_prop c.property_name scope in
    let (p, found, after) = >>=-eq-ok (predicate_for c value) _ h in
    let (qs, rest, done) = >>=-eq-ok (predicates_for scope cs) _ after in
    let same : push p qs ≡ ps = cc in
    subst (Resolved scope (c ∷ cs)) same (
      Resolved-push scope c cs p qs (predicate_for-ResultFor scope c value p refl here found)
        (predicates_for-Resolved scope cs qs later rest))

normalize_columns-described :
    (columns : List ScopedColumn) → normalize_columns (map described columns) ≡ columns
unfolding normalize_columns normalize_column
normalize_columns-described [] = refl
normalize_columns-described (c ∷ cs) = ap (λ rest. c ∷ rest) (normalize_columns-described cs)

pub resolve_scope_predicates-Resolved :
    (scope : Scope) (columns : List ScopedColumn) (ps : List Predicate)
    → resolve_scope_predicates scope (map described columns) ≡ ok ps
    → Resolved scope columns ps
unfolding resolve_scope_predicates assert_required_scope
resolve_scope_predicates-Resolved scope columns ps h0 =
    let h = rw (normalize_columns-described columns) at h0 in
    let missing = map (λ (c : ScopedColumn). c.property_name) (keep (is_missing scope) columns) in
    elim (Bool-cases (is_empty missing)) [
      | inl present ↦
          predicates_for-Resolved scope columns ps (none_missing scope columns present)
            (rw present at h)
      | inr absent ↦ cc (rw absent at h)
    ]

-- The literal filter that pins a field to one value, or to one of many.
abbrev pub pinning : Text → Criterion → Leaf
pinning name (is_value item) = record {
  field = name;
  operator = Syntax.equal;
  operand = plain (one item);
  data_type = literal;
  timestamp_unit = none;
}
pinning name (is_in items) = record {
  field = name;
  operator = Syntax.among;
  operand = plain (many items);
  data_type = literal;
  timestamp_unit = none;
}

-- One filter for every column, in their order, but for a free one.
pub data Restriction (scope : Scope) : List ScopedColumn → Filters → Type 0 where
  all_restricted : Restriction scope [] nil
  unrestricted :
      {column : ScopedColumn} {columns : List ScopedColumn} {fs : Filters}
      → IsFree scope column
      → Restriction scope columns fs
      → Restriction scope (column ∷ columns) fs
  restricted :
      {column : ScopedColumn} {columns : List ScopedColumn} {fs : Filters} (c : Criterion)
      → Pinned scope column.property_name c
      → Restriction scope columns fs
      → Restriction scope (column ∷ columns) (cons (leaf (pinning column.property_name c)) fs)

scope_leaf-pinning :
    (name : Text) (operator : Tenancy.Operator) (values : List Item)
    → scope_leaf name operator values ≡ pinning name (criterion operator values)
unfolding scope_leaf criterion
scope_leaf-pinning name Tenancy.equal values = refl
scope_leaf-pinning name Tenancy.among values = refl

Resolved-Restriction :
    {scope : Scope} {columns : List ScopedColumn} {ps : List Predicate}
    → Resolved scope columns ps
    → Restriction scope columns (scope_filters ps)
unfolding scope_filters
Resolved-Restriction all_resolved = all_restricted
Resolved-Restriction (free is_free rest) = unrestricted is_free (Resolved-Restriction rest)
Resolved-Restriction {scope} (fixed {column} {columns} {ps} p named pinned rest) =
    let same : pinning column.property_name (criterion p.operator p.values)
        ≡ scope_leaf p.property_name p.operator p.values =
      sym (
        scope_leaf-pinning p.property_name p.operator p.values
        ∙ ap (λ n. pinning n (criterion p.operator p.values)) named) in
    subst (λ l. Restriction scope (column ∷ columns) (cons (leaf l) (scope_filters ps))) same
      (restricted (criterion p.operator p.values) pinned (Resolved-Restriction rest))

pub build_scope_filters-Restriction :
    (scope : Scope) (columns : List ScopedColumn) (fs : Filters)
    → build_scope_filters scope (map described columns) ≡ ok fs
    → Restriction scope columns fs
unfolding build_scope_filters
build_scope_filters-Restriction scope columns fs h =
    let (ps, found, done) =
      >>=-eq-ok (resolve_scope_predicates scope (map described columns)) _ h in
    let same : scope_filters ps ≡ fs = cc in
    subst (Restriction scope columns) same
      (Resolved-Restriction (resolve_scope_predicates-Resolved scope columns ps found))
