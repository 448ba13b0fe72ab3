-- ===== src/Tenancy/Coverage.antt =====
-- How the predicates of a scope cover its columns, and how a successful write meets them
-- (core/tenancy/tenancy.helpers.ts).
use sdcorejs_nestjs.Base.{
  ◌≡◌, refl, true, false, List, [], ◌∷◌, Option, none, some, inl, inr, subst, ◌∙◌, arith, Text, All,
  In, lookup, ok, map, >>=-eq-ok, Bool-cases, text_eq, is_empty, keep,
}
use sdcorejs_nestjs.Values.{Value, one, many, is_nullish, get_prop}
use sdcorejs_nestjs.Tenancy.Scope.{
  ScopedColumn, ColumnInput, Scope, Predicate, normalize_columns, assert_required_scope, is_missing,
  predicate_for, push, predicate_of, equal, among, predicates_for, resolve_scope_predicates,
}
use sdcorejs_nestjs.Tenancy.Write.{Entity, apply_columns, apply_column, apply_scope_to_entity}
use sdcorejs_nestjs.Tenancy.Isolation.{
  Satisfies, Fits, skipped, fixed, chosen, FitsAll, apply_columns-FitsAll, apply_column-frame,
}

abbrev MetBy : Entity → Option Predicate → Type 0
MetBy e none = Unit {0}
MetBy e (some p) = Satisfies e p

Fits-predicate_for :
    (e : Entity) (c : ScopedColumn) {value : Value}
    → Fits e c.property_name value
    → (p : Option Predicate) × (predicate_for c value ≡ ok p) × MetBy e p
unfolding predicate_for
Fits-predicate_for e c (skipped n) = (none, rw n, tt)
Fits-predicate_for e c (fixed {item} present scalar stored) = (
  some (predicate_of c equal (item ∷ [])),
  rw (present, scalar),
  record { value = item; stored = stored; allowed = inl refl },
)
Fits-predicate_for e c (chosen {allowed} normal at) = (
  some (predicate_of c among allowed),
  rw normal,
  record { value = at.value; stored = at.stored; allowed = at.member },
)

All-push :
    (e : Entity) (p : Option Predicate) (ps : List Predicate)
    → MetBy e p
    → All (Satisfies e) ps
    → All (Satisfies e) (push p ps)
All-push e none ps m h = h
All-push e (some p) ps m h = (m, h)

FitsAll-predicates_for :
    (scope : Scope) (e : Entity) (columns : List ScopedColumn)
    → FitsAll scope e columns
    → (ps : List Predicate) × (predicates_for scope columns ≡ ok ps) × All (Satisfies e) ps
unfolding predicates_for
FitsAll-predicates_for scope e [] f = ([], refl, tt)
FitsAll-predicates_for scope e (c ∷ cs) (here, later) =
    let (p, found, met) = Fits-predicate_for e c here in
    let (ps, rest, all_met) = FitsAll-predicates_for scope e cs later in
    (push p ps, rw (found, rest), All-push e p ps met all_met)

-- A successful write leaves the entity with, for every predicate that the scope resolves to, one
-- of the values which that predicate allows; and the scope does resolve.
pub apply_scope_to_entity-Satisfies :
    (e e' : Entity) (scope : Scope) (inputs : List ColumnInput)
    → apply_scope_to_entity e scope inputs ≡ ok e'
    → (ps : List Predicate) × (resolve_scope_predicates scope inputs ≡ ok ps)
      × All (Satisfies e') ps
unfolding apply_scope_to_entity resolve_scope_predicates
apply_scope_to_entity-Satisfies e e' scope inputs h =
    let columns = normalize_columns inputs in
    let (checked, required, applied) = >>=-eq-ok (assert_required_scope scope columns) _ h in
    let (ps, found, met) =
      FitsAll-predicates_for scope e' columns (apply_columns-FitsAll scope columns e e' applied) in
    (ps, rw required found, met)

-- The property is none of the columns.
abbrev pub IsOutside : Text → List ScopedColumn → Type 0
IsOutside k = All (λ (c : ScopedColumn). text_eq c.property_name k ≡ false)

apply_columns-frame :
    (scope : Scope) (columns : List ScopedColumn) (k : Text) (e e' : Entity)
    → IsOutside k columns
    → apply_columns scope columns e ≡ ok e'
    → lookup k e' ≡ lookup k e
unfolding apply_columns
apply_columns-frame scope [] k e e' o h = let same : e ≡ e' = cc in rw (← same)
apply_columns-frame scope (c ∷ cs) k e e' (o, os) h =
    let name = c.property_name in
    let (next, now, later) = >>=-eq-ok (apply_column name (get_prop name scope) e) _ h in
    apply_columns-frame scope cs k next e' os later
    ∙ apply_column-frame name k (get_prop name scope) e next now o

-- A successful write changes no property other than the scoped columns.
pub apply_scope_to_entity-frame :
    (e e' : Entity) (scope : Scope) (inputs : List ColumnInput) (k : Text)
    → IsOutside k (normalize_columns inputs)
    → apply_scope_to_entity e scope inputs ≡ ok e'
    → lookup k e' ≡ lookup k e
unfolding apply_scope_to_entity
apply_scope_to_entity-frame e e' scope inputs k o h =
    let columns = normalize_columns inputs in
    let (checked, required, applied) = >>=-eq-ok (assert_required_scope scope columns) _ h in
    apply_columns-frame scope columns k e e' o applied

-- A predicate on the property is among the resolved ones.
pub record Covered (name : Text) (ps : List Predicate) : Type 0 where
  pub predicate : Predicate
  pub among : In predicate ps
  pub named : predicate.property_name ≡ name

abbrev pub CoversAll : List Predicate → List ScopedColumn → Type 0
CoversAll ps = All (λ (c : ScopedColumn). c.required ≡ true → Covered c.property_name ps)

Covered-push :
    (name : Text) (p : Option Predicate) (ps : List Predicate)
    → Covered name ps
    → Covered name (push p ps)
Covered-push name none ps c = c
Covered-push name (some p) ps c = record {
  predicate = c.predicate;
  among = inr c.among;
  named = c.named;
}

CoversAll-push :
    (p : Option Predicate) (ps : List Predicate) (columns : List ScopedColumn)
    → CoversAll ps columns
    → CoversAll (push p ps) columns
CoversAll-push p ps [] h = tt
CoversAll-push p ps (c ∷ cs) (h, hs) =
    (λ r. Covered-push c.property_name p ps (h r), CoversAll-push p ps cs hs)

predicate_for-Covered :
    (c : ScopedColumn) (value : Value) (p : Option Predicate) (ps : List Predicate)
    → is_nullish value ≡ false
    → predicate_for c value ≡ ok p
    → Covered c.property_name (push p ps)
unfolding predicate_for is_nullish
predicate_for-Covered c (one item) none ps present h = ground arith
predicate_for-Covered c (one item) (some p) ps present h = record {
  predicate = p;
  among = inl refl;
  named = ground arith;
}
predicate_for-Covered c (many items) none ps present h = ground (arith)
predicate_for-Covered c (many items) (some p) ps present h = record {
  predicate = p;
  among = inl refl;
  named = ground arith;
}

abbrev pub NoneMissing : Scope → List ScopedColumn → Type 0
NoneMissing scope = All (λ (c : ScopedColumn). is_missing scope c ≡ false)

pub none_missing :
    (scope : Scope) (columns : List ScopedColumn)
    → is_empty (map (λ (c : ScopedColumn). c.property_name) (keep (is_missing scope) columns))
      ≡ true
    → NoneMissing scope columns
none_missing scope [] h = tt
none_missing scope (c ∷ cs) h = elim (Bool-cases (is_missing scope c)) [
  | inl missing ↦ cc (rw missing at h)
  | inr present ↦ (present, none_missing scope cs (rw present at h))
]

predicates_for-CoversAll :
    (scope : Scope) (columns : List ScopedColumn) (ps : List Predicate)
    → NoneMissing scope columns
    → predicates_for scope columns ≡ ok ps
    → CoversAll ps columns
unfolding predicates_for is_missing
predicates_for-CoversAll scope [] ps present h = tt
predicates_for-CoversAll scope (c ∷ cs) ps (here, later) h =
    let value = get_prop c.property_name scope in
    let (p, found, after) = >>=-eq-ok (predicate_for c value) _ h in
    let (qs, rest, done) = >>=-eq-ok (predicates_for scope cs) _ after in
    let same : push p qs ≡ ps = cc in
    subst (λ found_all. CoversAll found_all (c ∷ cs)) same
      (
        λ r. predicate_for-Covered c value p qs (ground arith) found,
        CoversAll-push p qs cs (predicates_for-CoversAll scope cs qs later rest),
      )

-- Whenever a scope resolves, every required column has a predicate: no required dimension is
-- dropped.
pub resolve_scope_predicates-CoversAll :
    (scope : Scope) (inputs : List ColumnInput) (ps : List Predicate)
    → resolve_scope_predicates scope inputs ≡ ok ps
    → CoversAll ps (normalize_columns inputs)
unfolding resolve_scope_predicates assert_required_scope
resolve_scope_predicates-CoversAll scope inputs ps h =
    let columns = normalize_columns inputs in
    let missing = map (λ (c : ScopedColumn). c.property_name) (keep (is_missing scope) columns) in
    elim (Bool-cases (is_empty missing)) [
      | inl present ↦
          predicates_for-CoversAll scope columns ps (none_missing scope columns present)
            (rw present at h)
      | inr absent ↦ cc (rw absent at h)
    ]
