-- ===== src/Filter/Tests.antt =====
-- Runs of core/orm/utils/filter-query-builder.ts over a small schema.
use sdcorejs_nestjs.Base.{◌≡◌, refl, false, [], ◌∷◌, Text, lit, ok, err, some, none}
use sdcorejs_nestjs.Values.{one, many, str, null}
use sdcorejs_nestjs.Filter.Syntax.{
  Operator, equal, among, contain, or, Operand, plain, literal, Leaf, Filter, leaf, group, Filters,
  nil, cons, Validator, bad_request, validate_filter,
}
use sdcorejs_nestjs.Filter.Prepare.{prepare_filter, is_present}
use sdcorejs_nestjs.Filter.Clean.{IsClean, prepare_filter-IsClean, prepare_filter_idem}
use sdcorejs_nestjs.Filter.Columns.{Column, named, Schema, resolve_column_name}
use sdcorejs_nestjs.Filter.Injection.{IsReference, scan, resolve_column_name-IsReference}
use sdcorejs_nestjs.Filter.Query.{Environment, Conditions}
use sdcorejs_nestjs.Filter.Apply.{apply_filter, apply_leaf}
use sdcorejs_nestjs.Filter.Binding.{erase, SameForm}
use sdcorejs_nestjs.Filter.Trees.{Similar, leaves, groups, none_left, next, apply_filter-erase}

abbrev validator : Validator
validator f = none

abbrev leaf_of : Text → Operator → Operand → Filter
leaf_of name operator operand = leaf (record {
  field = name;
  operator = operator;
  operand = operand;
  data_type = literal;
  timestamp_unit = none;
})

abbrev by_name : Filter
by_name = leaf_of (lit "name") equal (plain (one (str (lit "n"))))

abbrev nowhere : Filter
nowhere = leaf_of (lit "id") among (plain (many []))

abbrev empty_group : Filter
empty_group = group or (cons (leaf_of (lit "name") equal (plain (one null))) nil)

abbrev filters : Filters
filters = cons by_name (cons empty_group (cons nowhere nil))

abbrev prepared : Filters
prepared = cons by_name (cons nowhere nil)

prepare_run : prepare_filter validator (some filters) ≡ ok prepared
unfolding prepare_filter
prepare_run = refl

prepare_filter-IsClean_example : IsClean prepared
prepare_filter-IsClean_example =
    prepare_filter-IsClean validator (some filters) prepared prepare_run

prepare_filter_idem_example : prepare_filter validator (some prepared) ≡ ok prepared
prepare_filter_idem_example =
    prepare_filter_idem validator (some filters) prepared prepare_run refl tt

-- Every property is a json column whose database name holds a quote.
abbrev odd_column : Column
odd_column = record {
  column_type = named (lit "jsonb");
  database_name = lit "a\"b";
  property_path = lit "name";
  is_array = false;
}

abbrev schema : Schema
schema = record {
  Meta = Unit {0};
  name = λ meta. lit "entity";
  find_column = λ meta name. some odd_column;
  find_column_path = λ meta name. none;
  find_relation = λ meta name. none;
}

abbrev nested_sql : Text
nested_sql = lit "e.\"a\"\"b\" -> 'x' ->> 'y'"

column_run : resolve_column_name schema (lit "name.x.y") (lit "e") tt ≡ ok nested_sql
unfolding resolve_column_name
column_run = refl

unsafe_run :
    resolve_column_name schema (lit "a;b") (lit "e") tt
    ≡ err (bad_request "core.repository.invalid-field-name" (lit "a;b" ∷ []))
unfolding resolve_column_name
unsafe_run = refl

resolve_column_name-IsReference_example : IsReference nested_sql
unfolding scan
resolve_column_name-IsReference_example =
    resolve_column_name-IsReference schema (lit "name.x.y") (lit "e") tt nested_sql refl column_run

abbrev environment : Environment
environment = record {
  validator = validator;
  to_epoch = λ operand unit. none;
  resolve_data = λ l. l.operand;
  suffix = λ position. lit "r";
}

abbrev ask : Text → Leaf
ask s = record {
  field = lit "name";
  operator = contain;
  operand = plain (one (str s));
  data_type = literal;
  timestamp_unit = none;
}

abbrev tree : Text → Filter
tree s = group or (cons (leaf (ask s)) nil)

abbrev conditions : Text → Conditions
conditions s = elim (apply_filter schema environment (lit "e") tt [] 0 (tree s)) [
  | ok c ↦ c
  | err e ↦ Conditions.empty
]

same_form : SameForm (ask (lit "x")) (ask (lit "' OR 1=1"))
unfolding is_present
same_form = record {
  field_eq = refl;
  operator_eq = refl;
  data_type_eq = refl;
  unit_eq = refl;
  present_eq = refl;
  empty_eq = refl;
  is_value = refl;
}

similar : Similar (tree (lit "x")) (tree (lit "' OR 1=1"))
similar = groups (next (leaves same_form) none_left)

apply_filter-erase_example : erase (conditions (lit "x")) ≡ erase (conditions (lit "' OR 1=1"))
unfolding apply_filter validate_filter apply_leaf
apply_filter-erase_example =
    apply_filter-erase schema environment (lit "e") tt [] 0 (conditions (lit "x"))
      (conditions (lit "' OR 1=1")) similar refl refl
