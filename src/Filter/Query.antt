-- ===== src/Filter/Query.antt =====
-- applyFilterToQuery and applyColumnOperand of core/orm/utils/filter-query-builder.ts: the
-- conditions that a filter adds to a query builder.
use sdcorejs_nestjs.Base.{
  lower_unit, ℕ, Bool, true, false, Option, List, [], ◌∷◌, ◌++◌, Text, lit, any, text_eq, show, ok,
  err, map,
}
use sdcorejs_nestjs.Values.{Item, undef, str, one}
use sdcorejs_nestjs.Filter.Syntax.{
  Operator, equal, not_equal, less_than, less_or_equal, greater_than, greater_or_equal, contain,
  not_contain, start_with, not_start_with, end_with, not_end_with, among, not_among, Connective,
  and, Operand, plain, range, TimestampUnit, milliseconds, seconds, Leaf, invalid_filter, Checked,
  Validator,
}
use sdcorejs_nestjs.Filter.Columns.{ColumnType, named, date_class}

-- A value of `toEpoch`, a bit pattern of a number, as it is bound: as a date, or as a number of
-- milliseconds or of seconds.
pub data Instant : Type 0 where
  moment epoch epoch_seconds : ℕ → Instant

pub data Bound : Type 0 where
  raw : Operand → Bound
  at : Instant → Bound
  at_each : List Instant → Bound

-- The value of a query parameter; `like` stands for a template string around it.
pub data Param : Type 0 where
  exact : Bound → Param
  like : Text → Bound → Text → Param

mutual
  pub data Condition : Type 0 where
    atom : Text → List (Text × Param) → Condition
    brackets : Conditions → Condition

  -- The calls of `andWhere` and `orWhere` on one builder, in order.
  pub data Conditions : Type 0 where
    empty : Conditions
    joined : Connective → Condition → Conditions → Conditions

-- `FilterUtilities.toEpoch` and `FilterUtilities.resolveData`, and the random part of a
-- parameter's name at each position of the filter tree.
pub record Environment : Type 0 where
  pub validator : Validator
  pub to_epoch : Operand → TimestampUnit → Option ℕ
  pub resolve_data : Leaf → Operand
  pub suffix : List ℕ → Text

abbrev pub where_sql : Text → List (Text × Param) → Conditions
where_sql sql params = joined and (atom sql params) empty

abbrev pub infix_sql : Text → Text → Text → Text
infix_sql left operator right = left ++ (operator ++ right)

unfoldable pub folded : Text → Text
folded column = lit "LOWER(UNACCENT(" ++ (column ++ lit "::text))")

unfoldable pub same_or_both_null : Text → Text → Text
same_or_both_null column operand =
    lit "(COALESCE("
    ++ (column
        ++ (lit " = "
            ++ (operand
                ++ (lit ", FALSE) OR ("
                    ++ (column ++ (lit " IS NULL AND " ++ (operand ++ lit " IS NULL))")))))))

unfoldable pub member_or_null : Text → Text → Text
member_or_null column operand =
    lit "(COALESCE("
    ++ (column
        ++ (lit " = ANY("
            ++ (operand
                ++ (lit "), FALSE) OR ("
                    ++ (column
                        ++ (lit " IS NULL AND array_position("
                            ++ (operand ++ lit ", NULL) IS NOT NULL))")))))))

-- applyColumnOperand
unfoldable pub column_operand : Operator → Text → Text → Checked Text
unfolding folded same_or_both_null member_or_null
column_operand equal c o = ok (same_or_both_null c o)
column_operand not_equal c o = ok (lit "NOT " ++ same_or_both_null c o)
column_operand less_than c o = ok (infix_sql c (lit " < ") o)
column_operand less_or_equal c o = ok (infix_sql c (lit " <= ") o)
column_operand greater_than c o = ok (infix_sql c (lit " > ") o)
column_operand greater_or_equal c o = ok (infix_sql c (lit " >= ") o)
column_operand contain c o =
    ok (infix_sql (folded c) (lit " LIKE '%' || ") (folded o ++ lit " || '%'"))
column_operand not_contain c o =
    ok (infix_sql (folded c) (lit " NOT LIKE '%' || ") (folded o ++ lit " || '%'"))
column_operand start_with c o = ok (infix_sql (folded c) (lit " LIKE ") (folded o ++ lit " || '%'"))
column_operand not_start_with c o =
    ok (infix_sql (folded c) (lit " NOT LIKE ") (folded o ++ lit " || '%'"))
column_operand end_with c o = ok (infix_sql (folded c) (lit " LIKE '%' || ") (folded o))
column_operand not_end_with c o = ok (infix_sql (folded c) (lit " NOT LIKE '%' || ") (folded o))
column_operand among c o = ok (member_or_null c o)
column_operand not_among c o = ok (o ++ (lit " IS NOT NULL AND NOT " ++ member_or_null c o))
column_operand _ c o = err invalid_filter

abbrev pub is_membership : Operator → Bool
is_membership among = true
is_membership not_among = true
is_membership _ = false

unfoldable pub temporal_types : List Text
temporal_types = map lit (
    "date" ∷ "datetime" ∷ "datetime2" ∷ "smalldatetime" ∷ "time" ∷ "time with time zone"
    ∷ "time without time zone" ∷ "timestamp" ∷ "timestamp with local time zone"
    ∷ "timestamp with time zone" ∷ "timestamp without time zone" ∷ "timestamptz" ∷ [])

unfoldable pub is_temporal : ColumnType → Bool
unfolding temporal_types lower_unit text_eq
is_temporal (named t) = any (λ name. text_eq name (map lower_unit t)) temporal_types
is_temporal date_class = true
is_temporal _ = false

unfoldable pub as_instant : Bool → TimestampUnit → ℕ → Instant
as_instant true unit e = moment e
as_instant false seconds e = epoch_seconds e
as_instant false milliseconds e = epoch e

-- The text of a `field` operand. The validator admits no other operand there.
abbrev pub operand_field : Operand → Checked Text
operand_field (plain (one (str name))) = ok name
operand_field _ = err invalid_filter

abbrev pub bounds : Operand → Item × Item
bounds (range from to) = (from, to)
bounds _ = (undef, undef)

abbrev pub param_name : ℕ → Text → Text
param_name idx suffix = lit "p_" ++ (show idx ++ (b'_' ∷ suffix))
