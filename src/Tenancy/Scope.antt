-- ===== src/Tenancy/Scope.antt =====
-- core/tenancy/tenancy.helpers.ts: scope values are checked once and become predicates, which
-- the filters and the where fragments are built from.
use sdcorejs_nestjs.Base.{
  Bool, true, false, not, ◌&&◌, List, [], ◌∷◌, map, Option, none, some, if◌then◌else◌, Text, trim,
  any, keep, is_empty, Result, ok, err, guard, ◌>>=◌, ◌>>◌,
}
use sdcorejs_nestjs.Values.{
  Item, str, num, boolean, bigint, date, Value, one, many, is_nullish, is_nullish_item, is_finite,
  unique, get_prop,
}
use sdcorejs_nestjs.Tenancy.Errors.{TenancyError, missing_scope, invalid_scope}

pub record ScopedColumn : Type 0 where
  pub property_name : Text
  pub required : Bool

-- ScopedColumnInput
pub data ColumnInput : Type 0 where
  plain : Text → ColumnInput
  described : ScopedColumn → ColumnInput

pub data Operator : Type 0 where
  equal among : Operator

-- ResolvedScopePredicate
pub record Predicate : Type 0 where
  pub property_name : Text
  pub required : Bool
  pub operator : Operator
  pub values : List Item

abbrev pub Scope : Type 0
Scope = List (Text × Value)

abbrev pub Checked : Type 0 → Type 0
Checked A = Result TenancyError A

unfoldable pub normalize_column : ColumnInput → ScopedColumn
normalize_column (plain name) = record { property_name = name; required = true }
normalize_column (described column) = column

unfoldable pub normalize_columns : List ColumnInput → List ScopedColumn
unfolding normalize_column
normalize_columns inputs = map normalize_column inputs

unfoldable pub is_scalar : Item → Bool
unfolding is_finite trim
is_scalar (str s) = not (is_empty (trim s))
is_scalar (num bits) = is_finite bits
is_scalar (boolean b) = true
is_scalar (bigint sign m) = true
is_scalar (date ref valid) = valid
is_scalar _ = false

unfoldable pub normalize_allowed_values : Text → List Item → Checked (List Item)
unfolding is_nullish_item is_scalar unique
normalize_allowed_values column items =
    let values = keep (λ item. not (is_nullish_item item)) items in
    if any (λ item. not (is_scalar item)) values
    then err (invalid_scope column "allowed values must be scalar")
    else ok (unique values)

unfoldable pub is_missing : Scope → ScopedColumn → Bool
unfolding is_nullish get_prop
is_missing scope column = column.required && is_nullish (get_prop column.property_name scope)

unfoldable pub assert_required_scope : Scope → List ScopedColumn → Checked (Unit {0})
unfolding is_missing
assert_required_scope scope columns =
    let missing = map (λ (c : ScopedColumn). c.property_name) (keep (is_missing scope) columns) in
    guard (is_empty missing) (missing_scope missing)

abbrev pub predicate_of : ScopedColumn → Operator → List Item → Predicate
predicate_of column operator values = record {
  property_name = column.property_name;
  required = column.required;
  operator = operator;
  values = values;
}

-- One round of the loop of `resolveScopePredicates`: `none` is `continue`.
unfoldable pub predicate_for : ScopedColumn → Value → Checked (Option Predicate)
unfolding is_nullish_item is_scalar normalize_allowed_values
predicate_for column (many items) = do
  allowed ← normalize_allowed_values column.property_name items
  ok (some (predicate_of column among allowed))
predicate_for column (one item) =
    if is_nullish_item item
    then ok none
    else if not (is_scalar item)
    then err (invalid_scope column.property_name "value must be scalar or an array of scalars")
    else ok (some (predicate_of column equal (item ∷ [])))

abbrev pub push : Option Predicate → List Predicate → List Predicate
push none ps = ps
push (some p) ps = p ∷ ps

unfoldable pub predicates_for : Scope → List ScopedColumn → Checked (List Predicate)
unfolding predicate_for get_prop
predicates_for scope [] = ok []
predicates_for scope (column ∷ columns) = do
  here ← predicate_for column (get_prop column.property_name scope)
  later ← predicates_for scope columns
  ok (push here later)

unfoldable pub resolve_scope_predicates : Scope → List ColumnInput → Checked (List Predicate)
unfolding normalize_columns assert_required_scope predicates_for
resolve_scope_predicates scope inputs = do
  let columns = normalize_columns inputs
  assert_required_scope scope columns
  predicates_for scope columns
