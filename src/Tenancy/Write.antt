-- ===== src/Tenancy/Write.antt =====
-- applyScopeToEntity of core/tenancy/tenancy.helpers.ts
use sdcorejs_nestjs.Base.{
  Bool, false, not, ◌&&◌, List, [], ◌∷◌, if◌then◌else◌, Text, any, is_empty, insert, ok, err, ◌>>=◌,
  ◌>>◌,
}
use sdcorejs_nestjs.Values.{
  Item, Value, one, many, is_nullish, is_nullish_item, same_value, get_prop,
}
use sdcorejs_nestjs.Tenancy.Errors.{invalid_scope}
use sdcorejs_nestjs.Tenancy.Scope.{
  ScopedColumn, ColumnInput, Scope, Checked, is_scalar, normalize_columns, normalize_allowed_values,
  assert_required_scope,
}

abbrev pub Entity : Type 0
Entity = List (Text × Value)

-- The entity's own choice among the allowed values of a dimension.
abbrev is_allowed : Value → List Item → Bool
is_allowed (one item) allowed = is_scalar item && any (λ a. same_value a item) allowed
is_allowed (many items) allowed = false

unfoldable pub choose_only : Text → Entity → List Item → Checked Entity
unfolding insert
choose_only name entity (a ∷ []) = ok (insert name (one a) entity)
choose_only name entity _ =
    err (invalid_scope name "a write scope must be selected from the allowed values")

-- The part of a round for an array of allowed values.
unfoldable pub select_scope : Text → Entity → Value → List Item → Checked Entity
unfolding is_nullish is_scalar same_value choose_only
select_scope name entity selected allowed =
    if is_empty allowed
    then err (invalid_scope name "allowed values are empty")
    else if is_nullish selected
    then choose_only name entity allowed
    else if not (is_allowed selected allowed)
    then err (invalid_scope name "selected write scope is not allowed")
    else ok entity

-- One round of the loop of `applyScopeToEntity`.
unfoldable pub apply_column : Text → Value → Entity → Checked Entity
unfolding is_nullish_item is_scalar normalize_allowed_values select_scope get_prop insert
apply_column name (one item) entity =
    if is_nullish_item item
    then ok entity
    else if not (is_scalar item)
    then err (invalid_scope name "write value must be scalar")
    else ok (insert name (one item) entity)
apply_column name (many items) entity = do
  allowed ← normalize_allowed_values name items
  select_scope name entity (get_prop name entity) allowed

unfoldable pub apply_columns : Scope → List ScopedColumn → Entity → Checked Entity
unfolding apply_column get_prop
apply_columns scope [] entity = ok entity
apply_columns scope (column ∷ columns) entity = do
  next ← apply_column column.property_name (get_prop column.property_name scope) entity
  apply_columns scope columns next

unfoldable pub apply_scope_to_entity : Entity → Scope → List ColumnInput → Checked Entity
unfolding normalize_columns assert_required_scope apply_columns
apply_scope_to_entity entity scope inputs = do
  let columns = normalize_columns inputs
  assert_required_scope scope columns
  apply_columns scope columns entity
