-- ===== src/Repository/Paged.antt =====
-- What the filters of a read in core/orm/base-repository.ts contain.
use sdcorejs_nestjs.Base.{
  ℕ, ◌≡◌, ◌≤◌, false, Option, none, some, List, map, is_empty, ok, Result-cases, inl, inr, arith,
}
use sdcorejs_nestjs.Filter.Syntax.{Filters, append, Validator}
use sdcorejs_nestjs.Filter.Prepare.{prepare_filter}
use sdcorejs_nestjs.Tenancy.Scope.{described, Scope}
use sdcorejs_nestjs.Tenancy.Query.{build_scope_filters}
use sdcorejs_nestjs.Tenancy.Clauses.{Restriction, build_scope_filters-Restriction}
use sdcorejs_nestjs.Repository.Audit.{read, AuditEvent, Strategy, Target}
use sdcorejs_nestjs.Repository.Grants.{current_scope}
use sdcorejs_nestjs.Repository.Reading.{
  with_scope, addon_filter, Number, natural, negative, size_of,
}

-- One filter for each column that the scope has a value for stands after the client's filters; a
-- bypass alone leaves them out.
abbrev pub Restricts : Target → Filters → Filters → Option Scope → Type 0
Restricts target cleaned fs none = fs ≡ cleaned
Restricts target cleaned fs (some scope) =
    (scoped : Filters) × Restriction scope target.columns scoped × (fs ≡ append cleaned scoped)

with_scope-Restricts :
    (target : Target) (cleaned fs : Filters) (answer : Option Scope) (log : List AuditEvent)
    → (with_scope target cleaned answer log).0 ≡ ok fs
    → Restricts target cleaned fs answer
with_scope-Restricts target cleaned fs none log h = cc
with_scope-Restricts target cleaned fs (some scope) log h =
    elim (Result-cases (build_scope_filters scope (map described target.columns))) [
      | inl (scoped, built) ↦ (
        scoped,
        build_scope_filters-Restriction scope target.columns scoped built,
        cc (rw built at h),
      )
      | inr (e, bad) ↦ cc (rw bad at h)
    ]

-- How the filters of a read came about.
pub record IsRestricted (v : Validator) (strategy : Option Strategy) (target : Target) (now : ℕ)
    (filters : Option Filters) (log : List AuditEvent) (fs : Filters) : Type 0 where
  pub cleaned : Filters
  pub answer : Option Scope
  pub prepared : prepare_filter v filters ≡ ok cleaned
  pub answered : (current_scope strategy target read now log).0 ≡ ok answer
  pub restricted : Restricts target cleaned fs answer

-- The filters with which a scoped target is read are the client's prepared filters, followed by one
-- filter for every scoped column, in their order: an equality with the value that the current scope
-- has for it, or an IN over all the values that the scope allows, but none for an optional column
-- that the scope has no value for. The scope's filters are missing only if it is bypassed.
pub addon_filter-IsRestricted :
    (v : Validator) (strategy : Option Strategy) (target : Target) (now : ℕ)
    (filters : Option Filters) (log : List AuditEvent) (fs : Filters)
    → is_empty target.columns ≡ false
    → (addon_filter v strategy target now filters log).0 ≡ ok fs
    → IsRestricted v strategy target now filters log fs
unfolding addon_filter
addon_filter-IsRestricted v strategy target now filters log fs scoped h =
    elim (Result-cases (prepare_filter v filters)) [
      | inr (e, bad) ↦ cc (rw bad at h)
      | inl (cleaned, prepared) ↦
          elim (Result-cases (current_scope strategy target read now log).0) [
            | inr (e, bad) ↦ cc (rw (prepared, scoped, bad) at h)
            | inl (answer, answered) ↦ record {
              cleaned = cleaned;
              answer = answer;
              prepared = prepared;
              answered = answered;
              restricted =
                  with_scope-Restricts target cleaned fs answer
                    (current_scope strategy target read now log).1
                    (rw (prepared, scoped, answered) at h);
            }
          ]
    ]

-- Every page holds from 1 to 200 rows, whatever size the client asks for.
pub size_of_bounds : (size : Option Number) → (1 ≤ size_of size) × (size_of size ≤ 200)
unfolding size_of
size_of_bounds none = (omega arith, omega arith)
size_of_bounds (some (negative n)) = (omega arith, omega arith)
size_of_bounds (some (natural ℕ.zero)) = (omega arith, omega arith)
size_of_bounds (some (natural (ℕ.suc n))) = (omega arith, omega arith)
