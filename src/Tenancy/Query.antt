-- ===== src/Tenancy/Query.antt =====
-- buildScopeFilters and buildScopeWhere of core/tenancy/tenancy.helpers.ts
use sdcorejs_nestjs.Base.{List, [], ◌∷◌, Text, none, insert, ok, ◌>>=◌}
use sdcorejs_nestjs.Values.{Item, undef, one, many}
use sdcorejs_nestjs.Filter.Syntax.{Operand, plain, literal, Leaf, leaf, Filters, nil, cons}
use sdcorejs_nestjs.Filter.Syntax
use sdcorejs_nestjs.Tenancy.Scope.{
  ColumnInput, Scope, Checked, Operator, equal, among, Predicate, resolve_scope_predicates,
}

-- `predicate.values[0]`
abbrev pub first_value : List Item → Item
first_value [] = undef
first_value (v ∷ vs) = v

abbrev pub leaf_with : Text → Syntax.Operator → Operand → Leaf
leaf_with name operator operand = record {
  field = name;
  operator = operator;
  operand = operand;
  data_type = literal;
  timestamp_unit = none;
}

-- The filter for one predicate.
unfoldable pub scope_leaf : Text → Operator → List Item → Leaf
scope_leaf name among values = leaf_with name Syntax.among (plain (many values))
scope_leaf name equal values = leaf_with name Syntax.equal (plain (one (first_value values)))

unfoldable pub scope_filters : List Predicate → Filters
unfolding scope_leaf
scope_filters [] = nil
scope_filters (p ∷ ps) =
    cons (leaf (scope_leaf p.property_name p.operator p.values)) (scope_filters ps)

unfoldable pub build_scope_filters : Scope → List ColumnInput → Checked Filters
unfolding resolve_scope_predicates scope_filters
build_scope_filters scope inputs = do
  predicates ← resolve_scope_predicates scope inputs
  ok (scope_filters predicates)

-- A criterion of a TypeORM where fragment: a value, or `In(values)`.
pub data Criterion : Type 0 where
  is_value : Item → Criterion
  is_in : List Item → Criterion

unfoldable pub criterion : Operator → List Item → Criterion
criterion among values = is_in values
criterion equal values = is_value (first_value values)

unfoldable pub where_fragment : List Predicate → List (Text × Criterion) → List (Text × Criterion)
unfolding criterion insert
where_fragment [] out = out
where_fragment (p ∷ ps) out =
    where_fragment ps (insert p.property_name (criterion p.operator p.values) out)

unfoldable pub build_scope_where : Scope → List ColumnInput → Checked (List (Text × Criterion))
unfolding resolve_scope_predicates where_fragment
build_scope_where scope inputs = do
  predicates ← resolve_scope_predicates scope inputs
  ok (where_fragment predicates [])
