-- ===== src/Tenancy/Tests.antt =====
-- Runs of core/tenancy/tenancy.helpers.ts at concrete scopes.
use sdcorejs_nestjs.Base.{◌≡◌, refl, true, false, List, [], ◌∷◌, Text, lit, All, ok, err}
use sdcorejs_nestjs.Values.{Item, one, many, str, null}
use sdcorejs_nestjs.Tenancy.Errors.{missing_scope, invalid_scope}
use sdcorejs_nestjs.Tenancy.Scope.{
  ColumnInput, plain, described, Scope, Predicate, equal, among, normalize_columns,
  resolve_scope_predicates,
}
use sdcorejs_nestjs.Tenancy.Write.{Entity, apply_scope_to_entity}
use sdcorejs_nestjs.Tenancy.Isolation.{Satisfies}
use sdcorejs_nestjs.Tenancy.Coverage.{
  apply_scope_to_entity-Satisfies, CoversAll, resolve_scope_predicates-CoversAll,
}

abbrev tenant : Text
tenant = lit "tenant"

abbrev department : Text
department = lit "department"

abbrev columns : List ColumnInput
columns = plain tenant ∷ described (record { property_name = department; required = false }) ∷ []

abbrev value : Item
value = str (lit "t1")

abbrev first : Item
first = str (lit "d1")

abbrev second : Item
second = str (lit "d2")

abbrev scope : Scope
scope = (tenant, one value) ∷ (department, many (first ∷ null ∷ second ∷ first ∷ [])) ∷ []

abbrev draft : Entity
draft = (lit "name", one (str (lit "n"))) ∷ (department, one second) ∷ []

abbrev written : Entity
written = (lit "name", one (str (lit "n"))) ∷ (department, one second) ∷ (tenant, one value) ∷ []

write_run : apply_scope_to_entity draft scope columns ≡ ok written
unfolding apply_scope_to_entity
write_run = refl

abbrev resolved : List Predicate
resolved =
    record { property_name = tenant; required = true; operator = equal; values = value ∷ [] }
    ∷ record {
      property_name = department;
      required = false;
      operator = among;
      values = first ∷ second ∷ [];
    }
    ∷ []

resolve_run : resolve_scope_predicates scope columns ≡ ok resolved
unfolding resolve_scope_predicates
resolve_run = refl

missing_run : resolve_scope_predicates [] columns ≡ err (missing_scope (tenant ∷ []))
unfolding resolve_scope_predicates
missing_run = refl

blank_run :
    resolve_scope_predicates ((tenant, one (str (lit "  "))) ∷ []) columns
    ≡ err (invalid_scope tenant "value must be scalar or an array of scalars")
unfolding resolve_scope_predicates
blank_run = refl

outsider_run :
    apply_scope_to_entity ((department, one (str (lit "d3"))) ∷ []) scope columns
    ≡ err (invalid_scope department "selected write scope is not allowed")
unfolding apply_scope_to_entity
outsider_run = refl

apply_scope_to_entity-Satisfies_example :
    (ps : List Predicate) × (resolve_scope_predicates scope columns ≡ ok ps)
    × All (Satisfies written) ps
apply_scope_to_entity-Satisfies_example =
    apply_scope_to_entity-Satisfies draft written scope columns write_run

resolve_scope_predicates-CoversAll_example : CoversAll resolved (normalize_columns columns)
resolve_scope_predicates-CoversAll_example =
    resolve_scope_predicates-CoversAll scope columns resolved resolve_run
