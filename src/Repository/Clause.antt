-- ===== src/Repository/Clause.antt =====
-- The where clause of a soft deletion in core/orm/base-repository.ts: the identifiers and the scope.
use sdcorejs_nestjs.Base.{
  ℕ, Bool, if◌then◌else◌, ◌≡◌, refl, sym, ◌∙◌, ap, subst, true, false, Option, none, some, List, [],
  ◌∷◌, map, Text, text_eq, text_eq_sound, lit, is_empty, lookup, insert, lookup-insert, ok,
  Bool-cases, Result-cases, inl, inr,
}
use sdcorejs_nestjs.Values.{str}
use sdcorejs_nestjs.Context.Identity.{or_else}
use sdcorejs_nestjs.Tenancy.Scope.{described, ScopedColumn, Scope}
use sdcorejs_nestjs.Tenancy.Query.{Criterion, is_value, is_in, build_scope_where}
use sdcorejs_nestjs.Tenancy.Coverage.{IsOutside}
use sdcorejs_nestjs.Tenancy.Fragments.{IsKeyed, PinnedAll, IsFragment, build_scope_where-IsFragment}
use sdcorejs_nestjs.Repository.Audit.{Operation, Strategy, Target, AuditEvent}
use sdcorejs_nestjs.Repository.Audit as Audit
use sdcorejs_nestjs.Repository.Grants.{current_scope}
use sdcorejs_nestjs.Repository.Removal.{
  Where, id_criterion, spread, where_of, scope_where, mutation_where,
}

-- The criterion for the one identifier, or for several.
pub data Identified : List Text → Criterion → Type 0 where
  alone : (i : Text) → Identified (i ∷ []) (is_value (str i))
  several :
      (i j : Text) (ids : List Text) → Identified (i ∷ j ∷ ids) (is_in (map str (i ∷ j ∷ ids)))

-- The clause pins every column that the scope has a value for, and has the identifiers unless a
-- column of the scope is the identifier itself.
pub record IsConfined (scope : Scope) (columns : List ScopedColumn) (ids : List Text)
    (clause : Where) : Type 0 where
  pub pinned : PinnedAll scope columns clause
  pub identified :
      IsOutside (lit "id") columns
      → (c : Criterion) × Identified ids c × (lookup (lit "id") clause ≡ some c)

module _ (strategy : Option Strategy) (target : Target) (operation : Operation) (now : ℕ)
    (log : List AuditEvent) where
  -- What a clause is: the identifiers alone for an unscoped target or with a bypass, and
  -- otherwise confined to the current scope.
  pub data IsClause (ids : List Text) : Where → Type 0 where
    unscoped :
        (c : Criterion)
        → is_empty target.columns ≡ true
        → Identified ids c
        → IsClause ids ((lit "id", c) ∷ [])
    bypassed :
        (c : Criterion)
        → (current_scope strategy target operation now log).0 ≡ ok none
        → Identified ids c
        → IsClause ids ((lit "id", c) ∷ [])
    confined :
        (scope : Scope) (clause : Where)
        → (current_scope strategy target operation now log).0 ≡ ok (some scope)
        → IsConfined scope target.columns ids clause
        → IsClause ids clause

lookup-spread :
    (k : Text) (base more : Where)
    → IsKeyed more
    → lookup k (spread base more) ≡ or_else (lookup k more) (lookup k base)
unfolding spread lookup
lookup-spread k base [] keyed = refl
lookup-spread k base ((j, d) ∷ more) (new, keyed) =
    lookup-spread k (insert j d base) more keyed ∙ elim (Bool-cases (text_eq j k)) [
      | inl same ↦
          let gone : lookup k more ≡ none =
            ap (λ n. lookup n more) (sym (text_eq_sound j k same)) ∙ new in
          rw (lookup-insert j k d base, same, gone) refl
      | inr other ↦ rw (lookup-insert j k d base, other) refl
    ]

id_criterion-Identified :
    (id : Text) (ids : List Text) → Identified (id ∷ ids) (id_criterion (id ∷ ids))
id_criterion-Identified id [] = alone id
id_criterion-Identified id (j ∷ ids) = several id j ids

spread-PinnedAll :
    (scope : Scope) (columns : List ScopedColumn) (base more : Where)
    → IsKeyed more
    → PinnedAll scope columns more
    → PinnedAll scope columns (spread base more)
spread-PinnedAll scope [] base more keyed h = tt
spread-PinnedAll scope (column ∷ columns) base more keyed (inl is_free, hs) =
    (inl is_free, spread-PinnedAll scope columns base more keyed hs)
spread-PinnedAll scope (column ∷ columns) base more keyed (inr (c, pin, found), hs) = (
  inr (
    c,
    pin,
    lookup-spread column.property_name base more keyed
        ∙ ap (λ o. or_else o (lookup column.property_name base)) found,
  ),
  spread-PinnedAll scope columns base more keyed hs,
)

spread-IsConfined :
    (scope : Scope) (columns : List ScopedColumn) (id : Text) (ids : List Text) (m : Where)
    → IsFragment scope columns m
    → IsConfined scope columns (id ∷ ids) (spread ((lit "id", id_criterion (id ∷ ids)) ∷ []) m)
spread-IsConfined scope columns id ids m f =
    let base : Where = (lit "id", id_criterion (id ∷ ids)) ∷ [] in
    record {
      pinned = spread-PinnedAll scope columns base m f.keyed f.pinned;
      identified = λ o. (
        id_criterion (id ∷ ids),
        id_criterion-Identified id ids,
        lookup-spread (lit "id") base m f.keyed
            ∙ ap (λ c. or_else c (lookup (lit "id") base)) (f.outside (lit "id") o)
            ∙ (unfold lookup text_eq in refl),
      );
    }

module _ (strategy : Option Strategy) (target : Target) (operation : Operation) (now : ℕ)
    (log : List AuditEvent) where
  answered-IsClause :
      (id : Text) (ids : List Text) (answer : Option Scope) (after : List AuditEvent)
      (clause : Where)
      → (current_scope strategy target operation now log).0 ≡ ok answer
      → (Audit.◌>>=◌
          (where_of target answer)
          (λ scope. Audit.return (spread ((lit "id", id_criterion (id ∷ ids)) ∷ []) scope))
          after).0
        ≡ ok clause
      → IsClause strategy target operation now log (id ∷ ids) clause
  answered-IsClause id ids none after clause answered h =
      let same : (lit "id", id_criterion (id ∷ ids)) ∷ [] ≡ clause = (unfold spread in cc) in
      subst (IsClause strategy target operation now log (id ∷ ids)) same
        (bypassed (id_criterion (id ∷ ids)) answered (id_criterion-Identified id ids))
  answered-IsClause id ids (some scope) after clause answered h =
      elim (Result-cases (build_scope_where scope (map described target.columns))) [
        | inr (e, bad) ↦ cc (rw bad at h)
        | inl (m, built) ↦
            let same : spread ((lit "id", id_criterion (id ∷ ids)) ∷ []) m ≡ clause =
              cc (rw built at h) in
            subst (IsClause strategy target operation now log (id ∷ ids)) same (
              confined scope (spread ((lit "id", id_criterion (id ∷ ids)) ∷ []) m) answered (
                spread-IsConfined scope target.columns id ids m
                  (build_scope_where-IsFragment scope target.columns m built)))
      ]

  otherwise : {A : Type 0} (b : Bool) (x y : A) → b ≡ false → (if b then x else y) ≡ y
  otherwise true x y h = cc
  otherwise false x y h = refl

  scope_where-scoped :
      is_empty target.columns ≡ false
      → scope_where strategy target operation now log
        ≡ Audit.◌>>=◌ (current_scope strategy target operation now) (where_of target) log
  unfolding scope_where
  scope_where-scoped columns = otherwise (is_empty target.columns) _ _ columns

  scoped-IsClause :
      (id : Text) (ids : List Text) (clause : Where)
      → (Audit.◌>>=◌
          (λ log. Audit.◌>>=◌ (current_scope strategy target operation now) (where_of target) log)
          (λ scope. Audit.return (spread ((lit "id", id_criterion (id ∷ ids)) ∷ []) scope))
          log).0
        ≡ ok clause
      → IsClause strategy target operation now log (id ∷ ids) clause
  scoped-IsClause id ids clause h =
      elim (Result-cases (current_scope strategy target operation now log).0) [
        | inr (e, bad) ↦ cc (rw bad at h)
        | inl (answer, answered) ↦
            answered-IsClause id ids answer (current_scope strategy target operation now log).1
              clause answered (rw answered at h)
      ]

  pub mutation_where-IsClause :
      (id : Text) (ids : List Text) (clause : Where)
      → (mutation_where strategy target operation now (id ∷ ids) log).0 ≡ ok clause
      → IsClause strategy target operation now log (id ∷ ids) clause
  unfolding mutation_where
  mutation_where-IsClause id ids clause h = elim (Bool-cases (is_empty target.columns)) [
    | inl empty ↦
        let same : (lit "id", id_criterion (id ∷ ids)) ∷ [] ≡ clause =
          (unfold scope_where spread in cc (rw empty at h)) in
        subst (IsClause strategy target operation now log (id ∷ ids)) same
          (unscoped (id_criterion (id ∷ ids)) empty (id_criterion-Identified id ids))
    | inr columns ↦ scoped-IsClause id ids clause (rw (scope_where-scoped columns) at h)
  ]
