-- ===== src/Filter/Prepare.antt =====
-- prepareFilter and prepareSorts of core/orm/utils/filter-query-builder.ts
use sdcorejs_nestjs.Base.{
  Bool, true, false, not, ◌&&◌, ◌||◌, Option, none, some, List, [], Text, is_empty, keep, ok, ◌>>=◌,
  ◌>>◌, if◌then◌else◌,
}
use sdcorejs_nestjs.Values.{many, is_nullish, is_nullish_item}
use sdcorejs_nestjs.Filter.Syntax.{
  Operator, null, not_null, between, among, not_among, Connective, and, Operand, absent, plain,
  range, DataType, field, Leaf, Filter, leaf, group, Filters, nil, cons, Checked, Validator,
  validate_filter,
}

abbrev is_field : DataType → Bool
is_field field = true
is_field _ = false

abbrev is_array : Operand → Bool
is_array (plain (many items)) = true
is_array _ = false

unfoldable pub has_bounds : Operand → Bool
unfolding is_nullish_item
has_bounds (range from to) = not (is_nullish_item from) && not (is_nullish_item to)
has_bounds _ = false

-- `data !== undefined && data !== null`
unfoldable pub is_present : Operand → Bool
unfolding is_nullish
is_present absent = false
is_present (plain value) = not (is_nullish value)
is_present (range from to) = true

unfoldable pub has_data : Operator → DataType → Operand → Bool
unfolding has_bounds is_present
has_data operator data_type absent = false
has_data among data_type operand = is_field data_type || is_array operand
has_data not_among data_type operand = is_field data_type || is_array operand
has_data between data_type operand = has_bounds operand
has_data operator data_type operand = is_present operand

abbrev is_null_test : Operator → Bool
is_null_test null = true
is_null_test not_null = true
is_null_test _ = false

-- The tests on a leaf in the loop of `prepareFilter`.
unfoldable pub keeps_leaf : Leaf → Bool
unfolding has_data
keeps_leaf l =
    not (is_empty l.field) && (is_null_test l.operator || has_data l.operator l.data_type l.operand)

abbrev pub push : Filter → Filters → Filters
push f fs = cons f fs

-- A group whose cleaned members are none is dropped.
abbrev pub push_group : Connective → Filters → Filters → Filters
push_group connective nil fs = fs
push_group connective cleaned fs = cons (group connective cleaned) fs

module _ (validator : Validator) where
  -- The loop of `prepareFilter`; a group is validated again when it is entered.
  unfoldable pub prepare_from : Filters → Checked Filters
  unfolding validate_filter keeps_leaf
  prepare_from nil = ok nil
  prepare_from (cons (leaf l) fs) = do
    later ← prepare_from fs
    ok (if keeps_leaf l then push (leaf l) later else later)
  prepare_from (cons (group connective members) fs) = do
    validate_filter validator (group and members)
    cleaned ← prepare_from members
    later ← prepare_from fs
    ok (push_group connective cleaned later)

  unfoldable pub prepare_filter : Option Filters → Checked Filters
  unfolding prepare_from validate_filter
  prepare_filter none = ok nil
  prepare_filter (some filters) = do
    validate_filter validator (group and filters)
    prepare_from filters

pub record Order : Type 0 where
  pub field : Text
  pub direction : Text

unfoldable pub prepare_sorts : Option (List Order) → List Order
prepare_sorts none = []
prepare_sorts (some sorts) = keep (λ s. not (is_empty s.field) && not (is_empty s.direction)) sorts
