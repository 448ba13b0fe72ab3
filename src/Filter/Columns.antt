-- ===== src/Filter/Columns.antt =====
-- Column references of core/orm/utils/filter-query-builder.ts.
use sdcorejs_nestjs.Base.{
  ℕ, Bool, false, not, ◌&&◌, ◌||◌, Option, none, some, List, [], ◌∷◌, ◌++◌, Text, lit, leb, ◌==◌,
  all, is_empty, split_on, join, ok, err, if◌then◌else◌, text_eq,
}
use sdcorejs_nestjs.Filter.Syntax.{bad_request, Checked}

-- What the code reads of TypeORM's EntityMetadata.
pub data ColumnType : Type 0 where
  named : Text → ColumnType
  date_class other_class : ColumnType

pub record Column : Type 0 where
  pub column_type : ColumnType
  pub database_name : Text
  pub property_path : Text
  pub is_array : Bool

pub record Schema : Type 1 where
  pub Meta : Type 0
  pub name : Meta → Text
  pub find_column : Meta → Text → Option Column
  pub find_column_path : Meta → Text → Option Column
  pub find_relation : Meta → Text → Option Meta

unfoldable pub is_safe_unit : ℕ → Bool
is_safe_unit c =
    (leb b'a' c && leb c b'z')
    || (leb b'A' c && leb c b'Z')
    || (leb b'0' c && leb c b'9')
    || (c == b'_')
    || (c == b'.')

-- /^[a-zA-Z0-9_.]+$/
unfoldable pub is_safe_field : Text → Bool
unfolding is_safe_unit
is_safe_field s = not (is_empty s) && all is_safe_unit s

-- `value.replace(/"/g, '""')`
unfoldable pub double_quotes : Text → Text
double_quotes [] = []
double_quotes (c ∷ s) = let rest = double_quotes s in if c == b'"' then c ∷ c ∷ rest else c ∷ rest

unfoldable pub quote_identifier : Text → Text
unfolding double_quotes
quote_identifier value = b'"' ∷ double_quotes value ++ b'"' ∷ []

-- `a || b` on texts
abbrev pub or_text : Text → Text → Text
or_text [] b = b
or_text (c ∷ a) b = c ∷ a

unfoldable pub json_path : List Text → Text
json_path [] = []
json_path (p ∷ []) = lit "->> '" ++ (p ++ lit "'")
json_path (p ∷ q ∷ ps) = lit "-> '" ++ (p ++ (lit "' " ++ json_path (q ∷ ps)))

unfoldable pub is_json : ColumnType → Bool
unfolding text_eq
is_json (named t) =
    text_eq t (lit "jsonb") || text_eq t (lit "json") || text_eq t (lit "simple-json")
is_json _ = false

-- What follows the split of a safe field: its first part and the rest.
abbrev pub dotted : Text → Text → Text
dotted alias column = alias ++ b'.' ∷ column

unfoldable pub column_sql : Text → Column → Text → Text
unfolding quote_identifier
column_sql alias col root = dotted alias (quote_identifier (or_text col.database_name root))

abbrev pub child_name : Option Column → Text → Text
child_name none field = field
child_name (some col) field = or_text col.database_name field

module _ (m : Schema) where
  unfoldable pub relation_sql : Text → Text → Text → List Text → Option m.Meta → Text
  unfolding quote_identifier join
  relation_sql field alias root (p ∷ ps) (some inverse) =
      let child = join (lit ".") (p ∷ ps) in
      dotted (quote_identifier root)
        (quote_identifier (child_name (m.find_column_path inverse child) child))
  relation_sql field alias root path relation = dotted alias (b'"' ∷ field ++ b'"' ∷ [])

  unfoldable pub column_reference : Text → Text → m.Meta → Text → List Text → Option Column → Text
  unfolding relation_sql column_sql json_path is_json
  column_reference field alias meta root [] (some col) = column_sql alias col root
  column_reference field alias meta root (p ∷ ps) (some col) =
      if is_json col.column_type
      then column_sql alias col root ++ b' ' ∷ json_path (p ∷ ps)
      else relation_sql field alias root (p ∷ ps) (m.find_relation meta root)
  column_reference field alias meta root path none =
      relation_sql field alias root path (m.find_relation meta root)

  abbrev pub resolve_parts : Text → Text → m.Meta → List Text → Text
  resolve_parts field alias meta [] = []
  resolve_parts field alias meta (root ∷ path) =
      column_reference field alias meta root path (m.find_column meta root)

  unfoldable pub resolve_column_name : Text → Text → m.Meta → Checked Text
  unfolding is_safe_field split_on column_reference
  resolve_column_name field alias meta =
      if not (is_safe_field field)
      then err (bad_request "core.repository.invalid-field-name" (field ∷ []))
      else ok (resolve_parts field alias meta (split_on b'.' field))
