-- ===== src/Filter/Apply.antt =====
-- applyFilterToQuery of core/orm/utils/filter-query-builder.ts
use sdcorejs_nestjs.Base.{
  ℕ, ◌+◌, ◌*◌, Bool, true, false, not, ◌&&◌, Option, none, some, List, [], ◌∷◌, ◌++◌, Text, lit,
  is_empty, ok, err, guard, ◌>>=◌, ◌>>◌, if◌then◌else◌, split_on, join,
}
use sdcorejs_nestjs.Values.{Item, one, many}
use sdcorejs_nestjs.Filter.Syntax.{
  Operator, null, not_null, equal, not_equal, less_than, less_or_equal, greater_than,
  greater_or_equal, contain, not_contain, start_with, not_start_with, end_with, not_end_with,
  between, among, not_among, Connective, and, Operand, plain, DataType, field, date_today,
  date_relative, TimestampUnit, Leaf, Filter, leaf, group, Filters, nil, cons, invalid_filter,
  Checked, validate_filter,
}
use sdcorejs_nestjs.Filter.Prepare.{is_present}
use sdcorejs_nestjs.Filter.Columns.{Column, Schema, resolve_column_name}
use sdcorejs_nestjs.Filter.Query.{
  Instant, Bound, raw, at, at_each, Param, exact, like, brackets, Conditions, empty, joined,
  Environment, where_sql, infix_sql, folded, column_operand, is_membership, is_temporal, as_instant,
  operand_field, bounds, param_name,
}

abbrev pub bind : Text → Bound → List (Text × Param)
bind param b = (param, exact b) ∷ []

unfoldable pub like_sql : Text → Text → Text → Text
unfolding folded
like_sql col operator param =
    folded col ++ (operator ++ (lit "LOWER(UNACCENT(:" ++ (param ++ lit "))")))

abbrev pub like_param : Text → Text → Bound → Text → List (Text × Param)
like_param param before b after = (param, like before b after) ∷ []

abbrev pub percent : Text
percent = lit "%"

-- `Array.isArray(data) && data.length === 0`
abbrev pub is_empty_array : Bound → Bool
is_empty_array (raw (plain (many []))) = true
is_empty_array (at_each []) = true
is_empty_array _ = false

-- The `switch` on the operator, without `BETWEEN`.
unfoldable pub operator_sql : Operator → Text → Text → Bound → Checked Conditions
unfolding like_sql
operator_sql equal col p b = ok (where_sql (infix_sql col (lit " = :") p) (bind p b))
operator_sql not_equal col p b = ok (where_sql (infix_sql col (lit " != :") p) (bind p b))
operator_sql less_than col p b = ok (where_sql (infix_sql col (lit " < :") p) (bind p b))
operator_sql less_or_equal col p b = ok (where_sql (infix_sql col (lit " <= :") p) (bind p b))
operator_sql greater_than col p b = ok (where_sql (infix_sql col (lit " > :") p) (bind p b))
operator_sql greater_or_equal col p b = ok (where_sql (infix_sql col (lit " >= :") p) (bind p b))
operator_sql contain col p b =
    ok (where_sql (like_sql col (lit " LIKE ") p) (like_param p percent b percent))
operator_sql not_contain col p b =
    ok (where_sql (like_sql col (lit " NOT LIKE ") p) (like_param p percent b percent))
operator_sql start_with col p b =
    ok (where_sql (like_sql col (lit " LIKE ") p) (like_param p [] b percent))
operator_sql not_start_with col p b =
    ok (where_sql (like_sql col (lit " NOT LIKE ") p) (like_param p [] b percent))
operator_sql end_with col p b =
    ok (where_sql (like_sql col (lit " LIKE ") p) (like_param p percent b []))
operator_sql not_end_with col p b =
    ok (where_sql (like_sql col (lit " NOT LIKE ") p) (like_param p percent b []))
operator_sql among col p b =
    if is_empty_array b
    then ok (where_sql (lit "1 = 0") [])
    else ok (where_sql (col ++ (lit " IN (:..." ++ (p ++ lit ")"))) (bind p b))
operator_sql not_among col p b =
    if is_empty_array b
    then ok empty
    else ok (where_sql (col ++ (lit " NOT IN (:..." ++ (p ++ lit ")"))) (bind p b))
operator_sql _ col p b = err invalid_filter

unfoldable pub between_sql : Text → Text → Bound → Bound → Conditions
between_sql col p from to =
    let low = p ++ lit "_from" in
    let high = p ++ lit "_to" in
    where_sql (col ++ (lit " >= :" ++ (low ++ (lit " AND " ++ (col ++ (lit " <= :" ++ high))))))
      ((low, exact from) ∷ (high, exact to) ∷ [])

-- `column?.isArray === true`
abbrev pub is_array_column : Option Column → Bool
is_array_column none = false
is_array_column (some column) = column.is_array

abbrev pub is_relative_date : DataType → Bool
is_relative_date date_today = true
is_relative_date date_relative = true
is_relative_date _ = false

module _ (m : Schema) (env : Environment) (alias : Text) (meta : m.Meta) where
  -- findFilterColumn
  find_related : List Text → Option m.Meta → Option Column
  unfolding join
  find_related path none = none
  find_related [] (some inverse) = none
  find_related (p ∷ ps) (some inverse) = m.find_column_path inverse (join (lit ".") (p ∷ ps))

  find_split : List Text → Option Column
  unfolding find_related
  find_split [] = none
  find_split (root ∷ path) = elim (m.find_column meta root) [
    | some direct ↦ some direct
    | none ↦ find_related path (m.find_relation meta root)
  ]

  unfoldable pub find_filter_column : Text → Option Column
  unfolding split_on find_split
  find_filter_column path = find_split (split_on b'.' path)

  -- isTemporalFilterColumn
  unfoldable pub is_temporal_column : Text → Bool
  unfolding is_temporal find_filter_column
  is_temporal_column path = elim (find_filter_column path) [
    | none ↦ false
    | some column ↦ is_temporal column.column_type
  ]

  -- normalizeTimestampValue
  unfoldable pub normalize_value : Operand → TimestampUnit → Bool → Checked Instant
  unfolding as_instant
  normalize_value operand unit temporal = elim (env.to_epoch operand unit) [
    | none ↦ err invalid_filter
    | some e ↦ ok (as_instant temporal unit e)
  ]

  unfoldable pub normalize_items : List Item → TimestampUnit → Bool → Checked (List Instant)
  unfolding normalize_value
  normalize_items [] unit temporal = ok []
  normalize_items (item ∷ items) unit temporal = do
    here ← normalize_value (plain (one item)) unit temporal
    later ← normalize_items items unit temporal
    ok (here ∷ later)

  -- normalizeTimestampOperand
  unfoldable pub normalize_operand : Operand → Option TimestampUnit → Text → Checked Bound
  unfolding normalize_items is_temporal_column
  normalize_operand operand none path = ok (raw operand)
  normalize_operand (plain (many items)) (some unit) path = do
    instants ← normalize_items items unit (is_temporal_column path)
    ok (at_each instants)
  normalize_operand operand (some unit) path = do
    instant ← normalize_value operand unit (is_temporal_column path)
    ok (at instant)

  unfoldable pub apply_field : Leaf → Text → Checked Conditions
  unfolding find_filter_column resolve_column_name column_operand
  apply_field l col = do
    name ← operand_field l.operand
    let array = is_array_column (find_filter_column name)
    guard (not (is_membership l.operator && not array)) invalid_filter
    operand_column ← resolve_column_name m name alias meta
    sql ← column_operand l.operator col operand_column
    ok (where_sql sql [])

  unfoldable pub apply_bounds : Leaf → Text → Text → Checked Conditions
  unfolding normalize_operand between_sql
  apply_bounds l col param = do
    let (low, high) = bounds l.operand
    from ← normalize_operand (plain (one low)) l.timestamp_unit l.field
    to ← normalize_operand (plain (one high)) l.timestamp_unit l.field
    ok (between_sql col param from to)

  -- The `switch` on the operator.
  unfoldable pub switch_sql : Operator → Leaf → Text → Text → Bound → Checked Conditions
  unfolding operator_sql apply_bounds
  switch_sql between l col param bound = apply_bounds l col param
  switch_sql operator l col param bound = operator_sql operator col param bound

  abbrev pub resolved : Leaf → Operand
  resolved l = if is_relative_date l.data_type then env.resolve_data l else l.operand

  unfoldable pub apply_value : List ℕ → ℕ → Leaf → Text → Checked Conditions
  unfolding normalize_operand switch_sql
  apply_value position idx l col = do
    bound ← normalize_operand (resolved l) l.timestamp_unit l.field
    switch_sql l.operator l col (param_name idx (env.suffix position)) bound

  unfoldable pub apply_data : List ℕ → ℕ → Leaf → Text → Checked Conditions
  unfolding is_present apply_field apply_value
  apply_data position idx l col =
      if not (is_present l.operand)
      then ok empty
      else elim l.data_type [ field ↦ apply_field l col | _ ↦ apply_value position idx l col ]

  unfoldable pub apply_operator : Operator → List ℕ → ℕ → Leaf → Text → Checked Conditions
  unfolding apply_data
  apply_operator null position idx l col = ok (where_sql (col ++ lit " IS NULL") [])
  apply_operator not_null position idx l col = ok (where_sql (col ++ lit " IS NOT NULL") [])
  apply_operator operator position idx l col = apply_data position idx l col

  unfoldable pub apply_named : List ℕ → ℕ → Leaf → Checked Conditions
  unfolding resolve_column_name apply_operator
  apply_named position idx l = do
    col ← resolve_column_name m l.field alias meta
    apply_operator l.operator position idx l col

  unfoldable pub apply_leaf : List ℕ → ℕ → Leaf → Checked Conditions
  unfolding apply_named
  apply_leaf position idx l = if is_empty l.field then ok empty else apply_named position idx l

  -- `sub.forEach((s, j) => …)` from member `j` on, each member in brackets of its own
  unfoldable mutual
    pub apply_filter : List ℕ → ℕ → Filter → Checked Conditions
    apply_filter position idx (leaf l) = do
      validate_filter env.validator (leaf l)
      apply_leaf position idx l
    apply_filter position idx (group connective nil) = do
      validate_filter env.validator (group connective nil)
      ok empty
    apply_filter position idx (group connective (cons f fs)) = do
      validate_filter env.validator (group connective (cons f fs))
      members ← apply_members position idx 0 connective (cons f fs)
      ok (joined and (brackets members) empty)

    pub apply_members : List ℕ → ℕ → ℕ → Connective → Filters → Checked Conditions
    apply_members position idx j connective nil = ok empty
    apply_members position idx j connective (cons f fs) = do
      here ← apply_filter (j ∷ position) (idx * 1000 + j) f
      later ← apply_members position idx (j + 1) connective fs
      ok (joined connective (brackets here) later)
