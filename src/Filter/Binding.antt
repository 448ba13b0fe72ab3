-- ===== src/Filter/Binding.antt =====
-- What a leaf's literal value leaves in the SQL text of its conditions
-- (applyFilterToQuery of core/orm/utils/filter-query-builder.ts).
use sdcorejs_nestjs.Base.{
  ℕ, ◌≡◌, refl, sym, ◌∙◌, ap, subst, Bool, true, false, Option, none, some, List, [], ◌∷◌, Text,
  is_empty, ok, >>=-eq-ok, arith,
}
use sdcorejs_nestjs.Values.{Item, one, many}
use sdcorejs_nestjs.Filter.Syntax.{
  Operator, null, not_null, equal, between, among, Operand, plain, literal, TimestampUnit, Leaf,
}
use sdcorejs_nestjs.Filter.Prepare.{is_present}
use sdcorejs_nestjs.Filter.Columns.{Schema, resolve_column_name}
use sdcorejs_nestjs.Filter.Query.{
  Instant, Bound, raw, at, at_each, Condition, atom, brackets, Conditions, empty, joined,
  Environment, bounds, param_name,
}
use sdcorejs_nestjs.Filter.Apply.{
  is_empty_array, operator_sql, normalize_value, normalize_items, normalize_operand,
  is_temporal_column, apply_bounds, switch_sql, resolved, apply_value, apply_data, apply_operator,
  apply_named, apply_leaf,
}

-- The conditions with their SQL texts alone.
unfoldable mutual
  pub erase_one : Condition → Condition
  erase_one (atom sql params) = atom sql []
  erase_one (brackets cs) = brackets (erase cs)

  pub erase : Conditions → Conditions
  erase empty = empty
  erase (joined connective c cs) = joined connective (erase_one c) (erase cs)

-- `Array.isArray(data) && data.length === 0` on the filter's own data
abbrev pub is_empty_operand : Operand → Bool
is_empty_operand (plain (many [])) = true
is_empty_operand _ = false

-- Two leaves that differ at most in the values that they compare with. A field operand is no
-- value, and a relative date is resolved by the library outside.
pub record SameForm (k l : Leaf) : Type 0 where
  pub field_eq : k.field ≡ l.field
  pub operator_eq : k.operator ≡ l.operator
  pub data_type_eq : k.data_type ≡ l.data_type
  pub unit_eq : k.timestamp_unit ≡ l.timestamp_unit
  pub present_eq : is_present k.operand ≡ is_present l.operand
  pub empty_eq : is_empty_operand k.operand ≡ is_empty_operand l.operand
  pub is_value : k.data_type ≡ literal

operator_sql-erase :
    (operator : Operator) (col p : Text) (b b' : Bound) (c c' : Conditions)
    → is_empty_array b ≡ is_empty_array b'
    → operator_sql operator col p b ≡ ok c
    → operator_sql operator col p b' ≡ ok c'
    → erase c ≡ erase c'
unfolding operator_sql erase
operator_sql-erase equal col p b b' c c' e h h' = ground arith
operator_sql-erase among col p b b' c c' e h h' = ground arith
operator_sql-erase _ col p b b' c c' e h h' = ground arith

is_empty_array-raw : (o : Operand) → is_empty_array (raw o) ≡ is_empty_operand o
is_empty_array-raw (plain (many [])) = refl
is_empty_array-raw _ = refl

is_empty_array-at_each : (is : List Instant) → is_empty_array (at_each is) ≡ is_empty is
is_empty_array-at_each [] = refl
is_empty_array-at_each (i ∷ is) = refl

module _ (m : Schema) (env : Environment) (alias : Text) (meta : m.Meta) where
  normalize_items-empty :
      (items : List Item) (u : TimestampUnit) (t : Bool) (is : List Instant)
      → normalize_items m env alias meta items u t ≡ ok is
      → is_empty is ≡ is_empty items
  unfolding normalize_items
  normalize_items-empty [] u t is h = ground arith
  normalize_items-empty (item ∷ items) u t is h =
      let (i, here, after) =
        >>=-eq-ok (normalize_value m env alias meta (plain (one item)) u t) _ h in
      let (js, later, done) = >>=-eq-ok (normalize_items m env alias meta items u t) _ after in
      let same : i ∷ js ≡ is = cc in rw (← same)

  normalize_operand-empty :
      (o : Operand) (u : Option TimestampUnit) (path : Text) (b : Bound)
      → normalize_operand m env alias meta o u path ≡ ok b
      → is_empty_array b ≡ is_empty_operand o
  unfolding normalize_operand
  normalize_operand-empty o none path b h =
      let same : raw o ≡ b = cc in rw (← same) (is_empty_array-raw o)
  normalize_operand-empty (plain (many [])) (some u) path b h =
      let (is, found, done) =
        >>=-eq-ok (normalize_items m env alias meta [] u (is_temporal_column m env alias meta path))
          (λ is. ok (at_each is)) h in
      let same : at_each is ≡ b = cc in
      rw (← same) (
        is_empty_array-at_each is
        ∙ normalize_items-empty [] u (is_temporal_column m env alias meta path) is found)
  normalize_operand-empty (plain (many (x ∷ xs))) (some u) path b h =
      let (is, found, done) =
        >>=-eq-ok
          (normalize_items m env alias meta (x ∷ xs) u (is_temporal_column m env alias meta path))
          (λ is. ok (at_each is)) h in
      let same : at_each is ≡ b = cc in
      rw (← same) (
        is_empty_array-at_each is
        ∙ normalize_items-empty (x ∷ xs) u (is_temporal_column m env alias meta path) is found)
  normalize_operand-empty o (some u) path b h =
      let (i, found, done) =
        >>=-eq-ok (normalize_value m env alias meta o u (is_temporal_column m env alias meta path))
          (λ i. ok (at i)) h in
      let same : at i ≡ b = cc in rw (← same) refl

  apply_bounds-erase :
      (k l : Leaf) (col p : Text) (c d : Conditions)
      → apply_bounds m env alias meta k col p ≡ ok c
      → apply_bounds m env alias meta l col p ≡ ok d
      → erase c ≡ erase d
  unfolding apply_bounds erase
  apply_bounds-erase k l col p c d h h' =
      let low = λ (x : Leaf).
        normalize_operand m env alias meta (plain (one (bounds x.operand).0)) x.timestamp_unit
          x.field in
      let high = λ (x : Leaf).
        normalize_operand m env alias meta (plain (one (bounds x.operand).1)) x.timestamp_unit
          x.field in
      let (from, _, next) = >>=-eq-ok (low k) _ h in
      let (to, _, done) = >>=-eq-ok (high k) _ next in
      let (from', _, next') = >>=-eq-ok (low l) _ h' in
      let (to', _, done') = >>=-eq-ok (high l) _ next' in ground arith

  switch_sql-erase :
      (operator : Operator) (k l : Leaf) (col p : Text) (b b' : Bound) (c d : Conditions)
      → is_empty_array b ≡ is_empty_array b'
      → switch_sql m env alias meta operator k col p b ≡ ok c
      → switch_sql m env alias meta operator l col p b' ≡ ok d
      → erase c ≡ erase d
  unfolding switch_sql
  switch_sql-erase between k l col p b b' c d e h h' = apply_bounds-erase k l col p c d h h'
  switch_sql-erase among k l col p b b' c d e h h' = operator_sql-erase among col p b b' c d e h h'
  switch_sql-erase operator k l col p b b' c d e h h' =
      operator_sql-erase operator col p b b' c d e h h'

  same_empty :
      (k l : Leaf) (b b' : Bound)
      → SameForm k l
      → normalize_operand m env alias meta (resolved m env alias meta k) k.timestamp_unit k.field
        ≡ ok b
      → normalize_operand m env alias meta (resolved m env alias meta l) l.timestamp_unit l.field
        ≡ ok b'
      → is_empty_array b ≡ is_empty_array b'
  same_empty k l b b' s h h' =
      let own : resolved m env alias meta k ≡ k.operand = rw s.is_value in
      let literal_too : l.data_type ≡ literal = sym s.data_type_eq ∙ s.is_value in
      let other : resolved m env alias meta l ≡ l.operand = rw literal_too in
      normalize_operand-empty (resolved m env alias meta k) k.timestamp_unit k.field b h
      ∙ ap is_empty_operand own
      ∙ s.empty_eq
      ∙ ap is_empty_operand (sym other)
      ∙ sym (normalize_operand-empty (resolved m env alias meta l) l.timestamp_unit l.field b' h')

  apply_value-erase :
      (position : List ℕ) (idx : ℕ) (k l : Leaf) (col : Text) (c d : Conditions)
      → SameForm k l
      → apply_value m env alias meta position idx k col ≡ ok c
      → apply_value m env alias meta position idx l col ≡ ok d
      → erase c ≡ erase d
  unfolding apply_value
  apply_value-erase position idx k l col c d s h h' =
      let operand = λ (x : Leaf).
        normalize_operand m env alias meta (resolved m env alias meta x) x.timestamp_unit x.field in
      let (b, found, done) = >>=-eq-ok (operand k) _ h in
      let (b', found', done') = >>=-eq-ok (operand l) _ h' in
      switch_sql-erase k.operator k l col (param_name idx (env.suffix position)) b b' c d
        (same_empty k l b b' s found found') done
        (subst
          (λ o.
            switch_sql m env alias meta o l col (param_name idx (env.suffix position)) b' ≡ ok d)
          (sym s.operator_eq) done')

  apply_data-erase :
      (position : List ℕ) (idx : ℕ) (k l : Leaf) (col : Text) (c d : Conditions)
      → SameForm k l
      → apply_data m env alias meta position idx k col ≡ ok c
      → apply_data m env alias meta position idx l col ≡ ok d
      → erase c ≡ erase d
  unfolding apply_data
  apply_data-erase position idx k l col c d s h h' =
      let literal_too : l.data_type ≡ literal = sym s.data_type_eq ∙ s.is_value in
      ground (arith, apply_value-erase position idx k l col c d s, s.is_value, literal_too)

  apply_operator-erase :
      (operator : Operator) (position : List ℕ) (idx : ℕ) (k l : Leaf) (col : Text)
      (c d : Conditions)
      → SameForm k l
      → apply_operator m env alias meta operator position idx k col ≡ ok c
      → apply_operator m env alias meta operator position idx l col ≡ ok d
      → erase c ≡ erase d
  unfolding apply_operator
  apply_operator-erase null position idx k l col c d s h h' = cc
  apply_operator-erase not_null position idx k l col c d s h h' = cc
  apply_operator-erase operator position idx k l col c d s h h' =
      apply_data-erase position idx k l col c d s h h'

  apply_named-erase :
      (position : List ℕ) (idx : ℕ) (k l : Leaf) (c d : Conditions)
      → SameForm k l
      → apply_named m env alias meta position idx k ≡ ok c
      → apply_named m env alias meta position idx l ≡ ok d
      → erase c ≡ erase d
  unfolding apply_named
  apply_named-erase position idx k l c d s h h' =
      let go =
        λ (x : Leaf) (col : Text). apply_operator m env alias meta x.operator position idx x col in
      let (col, found, done) = >>=-eq-ok (resolve_column_name m k.field alias meta) (go k) h in
      let (col', found', done') = >>=-eq-ok (resolve_column_name m l.field alias meta) (go l) h' in
      let one_column : col' ≡ col = cc (s.field_eq, found, found') in
      apply_operator-erase k.operator position idx k l col c d s done (
        subst (λ o. apply_operator m env alias meta o position idx l col ≡ ok d) (sym s.operator_eq)
          (subst (λ x. apply_operator m env alias meta l.operator position idx l x ≡ ok d)
            one_column done'))

  -- Two leaves that differ at most in their values add conditions with the same SQL text.
  pub apply_leaf-erase :
      (position : List ℕ) (idx : ℕ) (k l : Leaf) (c d : Conditions)
      → SameForm k l
      → apply_leaf m env alias meta position idx k ≡ ok c
      → apply_leaf m env alias meta position idx l ≡ ok d
      → erase c ≡ erase d
  unfolding apply_leaf
  apply_leaf-erase position idx k l c d s h h' =
      let empties : is_empty k.field ≡ is_empty l.field = ap is_empty s.field_eq in
      ground (arith, empties, apply_named-erase position idx k l c d s)
