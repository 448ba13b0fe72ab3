-- ===== src/Repository/Removal.antt =====
-- `softDelete` and `restore` of core/orm/base-repository.ts, with the scope of their statements.
use sdcorejs_nestjs.Base.{
  ℕ, Bool, true, false, not, Option, none, some, List, [], ◌∷◌, map, keep, Text, lit, length,
  is_empty, trim, includes, split_on, insert, ok, err, ◌==◌, if◌then◌else◌,
}
use sdcorejs_nestjs.Values.{str}
use sdcorejs_nestjs.Filter.Syntax.{RepositoryError, not_found, thrown, tenancy, Checked}
use sdcorejs_nestjs.Tenancy.Scope.{described, Scope}
use sdcorejs_nestjs.Tenancy.Query.{Criterion, is_value, is_in, build_scope_where}
use sdcorejs_nestjs.Repository.Audit.{Operation, soft_delete, restore, Strategy, Target, Audited}
use sdcorejs_nestjs.Repository.Audit as Audit
use sdcorejs_nestjs.Tenancy.Scope as Tenancy
use sdcorejs_nestjs.Repository.Grants.{current_scope}
use sdcorejs_nestjs.Repository.Runner.{
  Driver, Work, return, throw, access, audited, ◌>>=◌, ◌>>◌, with_mutation_runner,
}

abbrev pub Where : Type 0
Where = List (Text × Criterion)

-- What the code calls of TypeORM's repository; the number of affected rows may be unknown.
pub record Store (W : Type 0) : Type 0 where
  pub count : Where → W → Checked ℕ × W
  pub soft_delete : Where → W → Checked (Option ℕ) × W
  pub restore : Where → W → Checked (Option ℕ) × W

-- The identifiers, as one text with commas or as an array.
pub data IdArg : Type 0 where
  joined : Text → IdArg
  listed : List Text → IdArg

unfoldable pub unique_texts : List Text → List Text → List Text
unfolding includes
unique_texts seen [] = []
unique_texts seen (s ∷ texts) =
    let rest = unique_texts (s ∷ seen) texts in if includes seen s then rest else s ∷ rest

unfoldable pub parse_ids : IdArg → List Text
unfolding unique_texts split_on trim
parse_ids (joined text) =
    unique_texts [] (keep (λ s. not (is_empty s)) (map trim (split_on b',' text)))
parse_ids (listed texts) = unique_texts [] (keep (λ s. not (is_empty s)) texts)

abbrev pub id_criterion : List Text → Criterion
id_criterion (id ∷ []) = is_value (str id)
id_criterion ids = is_in (map str ids)

-- `{ ...base, ...more }`
unfoldable pub spread : Where → Where → Where
unfolding insert
spread base [] = base
spread base ((k, c) ∷ more) = spread (insert k c base) more

-- A tenancy error is thrown as it is.
abbrev pub thrown_as : {A : Type 0} → Tenancy.Checked A → Checked A
thrown_as (ok a) = ok a
thrown_as (err e) = err (tenancy e)

-- scopeWhere
abbrev pub where_of : Target → Option Scope → Audited Where
where_of target none = Audit.return []
where_of target (some scope) =
    Audit.lift (thrown_as (build_scope_where scope (map described target.columns)))

unfoldable pub scope_where : Option Strategy → Target → Operation → ℕ → Audited Where
unfolding current_scope build_scope_where
scope_where strategy target operation now log =
    if is_empty target.columns
    then Audit.return [] log
    else Audit.◌>>=◌ (current_scope strategy target operation now) (where_of target) log

unfoldable pub mutation_where : Option Strategy → Target → Operation → ℕ → List Text → Audited Where
unfolding scope_where spread
mutation_where strategy target operation now ids =
    Audit.◌>>=◌ (scope_where strategy target operation now)
      (λ scope. Audit.return (spread ((lit "id", id_criterion ids) ∷ []) scope))

abbrev pub is_count : Option ℕ → ℕ → Bool
is_count none expected = false
is_count (some n) expected = n == expected

abbrev pub assert_affected : {W : Type 0} → Option ℕ → ℕ → Work W (Unit {0})
assert_affected affected expected =
    if is_count affected expected then return tt else throw not_found

module _ {W : Type 0} (driver : Driver W) (store : Store W) where
  -- What `softDelete` and `restore` do alike, with the scope and the statement of each.
  unfoldable pub change_rows :
      Audited Where → (Where → W → Checked (Option ℕ) × W) → ℕ → Work W Bool
  change_rows scoped statement expected = do
    where_clause ← audited scoped
    matched ← access (store.count where_clause)
    assert_affected (some matched) expected
    affected ← access (statement where_clause)
    assert_affected affected expected
    return true

  abbrev pub inactive : RepositoryError
  inactive =
      thrown "A caller-supplied QueryRunner must have an active transaction for scoped mutations"

  unfoldable pub change :
      Option Strategy
      → Target
      → Operation
      → (Where → W → Checked (Option ℕ) × W)
      → ℕ
      → Bool
      → List Text
      → Work W Bool
  unfolding with_mutation_runner change_rows mutation_where
  change strategy target operation statement now provided [] = return false
  change strategy target operation statement now provided (id ∷ ids) =
      with_mutation_runner driver provided inactive (
        change_rows (mutation_where strategy target operation now (id ∷ ids)) statement
          (length (id ∷ ids)))

  unfoldable pub soft_delete_rows : Option Strategy → Target → ℕ → Bool → IdArg → Work W Bool
  unfolding change parse_ids
  soft_delete_rows strategy target now provided id =
      change strategy target soft_delete store.soft_delete now provided (parse_ids id)

  unfoldable pub restore_rows : Option Strategy → Target → ℕ → Bool → IdArg → Work W Bool
  unfolding change parse_ids
  restore_rows strategy target now provided id =
      change strategy target restore store.restore now provided (parse_ids id)
