-- ===== src/Filter/Injection.antt =====
-- A resolved column is one column reference, whatever the names hold
-- (core/orm/utils/filter-query-builder.ts).
use sdcorejs_nestjs.Base.{
  ℕ, ◌≡◌, refl, true, ◌||◌, Option, none, some, List, [], ◌∷◌, ◌++◌, Text, lit, ◌==◌, all, All,
  subst, ◌∙◌, split_on, push_unit, join, ok, Bool-cases, Option-cases, and-true, arith, inl, inr,
  if◌then◌else◌,
}
use sdcorejs_nestjs.Filter.Columns.{
  Column, Schema, is_safe_unit, is_safe_field, double_quotes, quote_identifier, or_text, json_path,
  is_json, dotted, column_sql, child_name, relation_sql, column_reference, resolve_parts,
  resolve_column_name,
}

-- The lexical state of the SQL text: outside any quotes, in an identifier, in a string.
pub data Mode : Type 0 where
  outside identifier string : Mode

-- Outside quotes only the characters of a path and of `->` and `->>` are allowed.
unfoldable pub scan_unit : Mode → ℕ → Option Mode
unfolding is_safe_unit
scan_unit outside c =
    if c == b'"'
    then some identifier
    else if c == 0x27
    then some string
    else if is_safe_unit c || c == b' ' || c == b'-' || c == b'>'
    then some outside
    else none
scan_unit identifier c = if c == b'"' then some outside else some identifier
scan_unit string c = if c == 0x27 then some outside else some string

unfoldable pub scan : Mode → Text → Option Mode
unfolding scan_unit
scan mode [] = some mode
scan mode (c ∷ s) = elim (scan_unit mode c) [ none ↦ none | some next ↦ scan next s ]

-- The text is made of safe characters and of closed quotes.
abbrev pub IsReference : Text → Type 0
IsReference sql = scan outside sql ≡ some outside

scan-append : (m n : Mode) (s t : Text) → scan m s ≡ some n → scan m (s ++ t) ≡ scan n t
unfolding scan
scan-append m n [] t h = let same : m ≡ n = cc in rw same
scan-append m n (c ∷ s) t h = elim (Option-cases (scan_unit m c)) [
  | inl refused ↦ cc (rw (refused, scan) at h)
  | inr (next, e) ↦ rw (e, scan) (scan-append next n s t (rw (e, scan) at h))
]

scan_safe_outside : (s : Text) → all is_safe_unit s ≡ true → scan outside s ≡ some outside
unfolding scan
scan_safe_outside [] h = refl
scan_safe_outside (c ∷ s) h = ground (arith, scan_safe_outside s)

scan_safe_identifier : (s : Text) → all is_safe_unit s ≡ true → scan identifier s ≡ some identifier
unfolding scan
scan_safe_identifier [] h = refl
scan_safe_identifier (c ∷ s) h = ground (arith, scan_safe_identifier s)

scan_safe_string : (s : Text) → all is_safe_unit s ≡ true → scan string s ≡ some string
unfolding scan
scan_safe_string [] h = refl
scan_safe_string (c ∷ s) h = ground (arith, scan_safe_string s)

scan-double_quotes : (s : Text) → scan identifier (double_quotes s) ≡ some identifier
unfolding scan double_quotes
scan-double_quotes [] = refl
scan-double_quotes (c ∷ s) = ground (arith, scan-double_quotes s)

safe_units : (field : Text) → is_safe_field field ≡ true → all is_safe_unit field ≡ true
unfolding is_safe_field
safe_units field h = ground arith

IsReference-append : (s t : Text) → IsReference s → IsReference t → IsReference (s ++ t)
IsReference-append s t hs ht = scan-append outside outside s t hs ∙ ht

IsReference-quote : (value : Text) → IsReference (quote_identifier value)
unfolding scan quote_identifier
IsReference-quote value =
    scan-append identifier identifier (double_quotes value) (b'"' ∷ []) (scan-double_quotes value)

IsReference-dotted : (a b : Text) → IsReference a → IsReference b → IsReference (dotted a b)
unfolding scan
IsReference-dotted a b ha hb = IsReference-append a (b'.' ∷ b) ha hb

IsReference-bare :
    (field : Text) → all is_safe_unit field ≡ true → IsReference (b'"' ∷ field ++ b'"' ∷ [])
unfolding scan
IsReference-bare field h =
    scan-append identifier identifier field (b'"' ∷ []) (scan_safe_identifier field h)

abbrev AllSafe : List Text → Type 0
AllSafe = All (λ part. all is_safe_unit part ≡ true)

IsReference-json_path : (path : List Text) → AllSafe path → IsReference (json_path path)
unfolding scan json_path
IsReference-json_path [] h = refl
IsReference-json_path (p ∷ []) (h, hs) =
    scan-append string string p (lit "'") (scan_safe_string p h)
IsReference-json_path (p ∷ q ∷ ps) (h, hs) =
    scan-append string string p (lit "' " ++ json_path (q ∷ ps)) (scan_safe_string p h)
    ∙ IsReference-json_path (q ∷ ps) hs

AllSafe-push_unit :
    (c : ℕ) (parts : List Text)
    → is_safe_unit c ≡ true
    → AllSafe parts
    → AllSafe (push_unit c parts)
AllSafe-push_unit c [] safe h = (ground arith, tt)
AllSafe-push_unit c (p ∷ ps) safe (h, hs) = (ground arith, hs)

AllSafe-split_on : (field : Text) → all is_safe_unit field ≡ true → AllSafe (split_on b'.' field)
unfolding split_on
AllSafe-split_on [] h = (refl, tt)
AllSafe-split_on (c ∷ s) h =
    let (safe, rest) = and-true (is_safe_unit c) (all is_safe_unit s) h in
    let parts = AllSafe-split_on s rest in
    elim (Bool-cases (c == b'.')) [
      | inl dot ↦ rw dot (refl, parts)
      | inr unit ↦ rw unit (AllSafe-push_unit c (split_on b'.' s) safe parts)
    ]

module _ (m : Schema) where
  IsReference-column_sql :
      (alias : Text) (col : Column) (root : Text)
      → IsReference alias
      → IsReference (column_sql alias col root)
  unfolding column_sql
  IsReference-column_sql alias col root h =
      IsReference-dotted alias (quote_identifier (or_text col.database_name root)) h
        (IsReference-quote (or_text col.database_name root))

  IsReference-relation_sql :
      (field alias root : Text) (path : List Text) (relation : Option m.Meta)
      → all is_safe_unit field ≡ true
      → IsReference alias
      → IsReference (relation_sql m field alias root path relation)
  unfolding relation_sql
  IsReference-relation_sql field alias root (p ∷ ps) (some inverse) h ha =
      let child = join (lit ".") (p ∷ ps) in
      let column = child_name (m.find_column_path inverse child) child in
      IsReference-dotted (quote_identifier root) (quote_identifier column) (IsReference-quote root)
        (IsReference-quote column)
  IsReference-relation_sql field alias root (p ∷ ps) none h ha =
      IsReference-dotted alias (b'"' ∷ field ++ b'"' ∷ []) ha (IsReference-bare field h)
  IsReference-relation_sql field alias root [] relation h ha =
      IsReference-dotted alias (b'"' ∷ field ++ b'"' ∷ []) ha (IsReference-bare field h)

  IsReference-column_reference :
      (field alias : Text) (meta : m.Meta) (root : Text) (path : List Text) (col : Option Column)
      → all is_safe_unit field ≡ true
      → AllSafe path
      → IsReference alias
      → IsReference (column_reference m field alias meta root path col)
  unfolding column_reference scan
  IsReference-column_reference field alias meta root [] (some col) h hp ha =
      IsReference-column_sql alias col root ha
  IsReference-column_reference field alias meta root (p ∷ ps) (some col) h hp ha =
      elim (Bool-cases (is_json col.column_type)) [
        | inl json ↦ rw json (
            IsReference-append (column_sql alias col root) (b' ' ∷ json_path (p ∷ ps))
              (IsReference-column_sql alias col root ha) (IsReference-json_path (p ∷ ps) hp))
        | inr flat ↦
            rw flat
              (IsReference-relation_sql field alias root (p ∷ ps) (m.find_relation meta root) h ha)
      ]
  IsReference-column_reference field alias meta root path none h hp ha =
      IsReference-relation_sql field alias root path (m.find_relation meta root) h ha

  IsReference-resolve_parts :
      (field alias : Text) (meta : m.Meta) (parts : List Text)
      → all is_safe_unit field ≡ true
      → AllSafe parts
      → IsReference alias
      → IsReference (resolve_parts m field alias meta parts)
  unfolding scan
  IsReference-resolve_parts field alias meta [] h hp ha = refl
  IsReference-resolve_parts field alias meta (root ∷ path) h (hr, hp) ha =
      IsReference-column_reference field alias meta root path (m.find_column meta root) h hp ha

-- Whatever the field asks for and whatever the schema names its columns, a resolved column is a
-- text in which every quote is closed and only the characters of a path stand outside quotes,
-- provided that the alias is such a text.
pub resolve_column_name-IsReference :
    (m : Schema) (field alias : Text) (meta : m.Meta) (sql : Text)
    → IsReference alias
    → resolve_column_name m field alias meta ≡ ok sql
    → IsReference sql
unfolding resolve_column_name
resolve_column_name-IsReference m field alias meta sql ha h =
    elim (Bool-cases (is_safe_field field)) [
      | inl safe ↦
          let units : all is_safe_unit field ≡ true = safe_units field safe in
          let same : resolve_parts m field alias meta (split_on b'.' field) ≡ sql =
            cc (rw safe at h) in
          subst IsReference same (
            IsReference-resolve_parts m field alias meta (split_on b'.' field) units
              (AllSafe-split_on field units) ha)
      | inr unsafe ↦ cc (rw unsafe at h)
    ]
