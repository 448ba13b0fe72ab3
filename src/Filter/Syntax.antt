-- ===== src/Filter/Syntax.antt =====
-- The filters that core/orm/utils/filter-query-builder.ts reads, and its errors. The validator of
-- @sdcorejs/utils is a parameter of the functions that call it.
use sdcorejs_nestjs.Base.{
  String, Bool, true, false, Text, Option, none, some, List, Result, ok, err, [],
}
use sdcorejs_nestjs.Values.{Item, Value}
use sdcorejs_nestjs.Tenancy.Errors.{TenancyError}

pub data Operator : Type 0 where
  null not_null : Operator
  equal not_equal : Operator
  less_than less_or_equal greater_than greater_or_equal : Operator
  contain not_contain start_with not_start_with end_with not_end_with : Operator
  between among not_among : Operator
  unsupported : Text → Operator

pub data Connective : Type 0 where
  and or : Connective

-- The `data` of a leaf: no such key, a value, or an object with `from` and `to`.
pub data Operand : Type 0 where
  absent : Operand
  plain : Value → Operand
  range : Item → Item → Operand

pub data DataType : Type 0 where
  literal field date_today date_relative : DataType

pub data TimestampUnit : Type 0 where
  milliseconds seconds : TimestampUnit

pub record Leaf : Type 0 where
  pub field : Text
  pub operator : Operator
  pub operand : Operand
  pub data_type : DataType
  pub timestamp_unit : Option TimestampUnit

mutual
  pub data Filter : Type 0 where
    leaf : Leaf → Filter
    group : Connective → Filters → Filter

  pub data Filters : Type 0 where
    nil : Filters
    cons : Filter → Filters → Filters

-- What `FilterUtilities.validateFilter` may throw.
pub data Failure : Type 0 where
  invalid unsafe_path : Failure
  crashed : String → Failure

-- BadRequestException and NotFoundException carry an `apiError` code and its details; other
-- errors pass through.
pub data RepositoryError : Type 0 where
  bad_request : String → List Text → RepositoryError
  not_found : RepositoryError
  tenancy : TenancyError → RepositoryError
  thrown : String → RepositoryError

abbrev pub invalid_filter : RepositoryError
invalid_filter = bad_request "core.repository.invalid-filter" []

abbrev pub Checked : Type 0 → Type 0
Checked A = Result RepositoryError A

-- The validator accepts a filter, and its clone is the filter, or it throws.
abbrev pub Validator : Type 0
Validator = Filter → Option Failure

-- `validateFilter`
unfoldable pub validate_filter : Validator → Filter → Checked (Unit {0})
validate_filter validator filter = elim (validator filter) [
  | none ↦ ok tt
  | some failure ↦ elim failure [
    | invalid ↦ err invalid_filter
    | unsafe_path ↦ err invalid_filter
    | crashed reason ↦ err (thrown reason)
  ]
]

unfoldable pub append : Filters → Filters → Filters
append nil gs = gs
append (cons f fs) gs = cons f (append fs gs)

abbrev pub size : Filters → Bool
size nil = false
size (cons f fs) = true
