-- ===== src/Repository/Bypass.antt =====
-- When scoped data may be reached without a scope (core/orm/base-repository.ts).
use sdcorejs_nestjs.Base.{
  ℕ, ◌≡◌, refl, true, false, Option, none, some, List, [], ◌∷◌, ◌++◌, Text, is_empty, ok, inl, inr,
  Bool-cases, Option-cases, Result-cases, arith,
}
use sdcorejs_nestjs.Tenancy.Scope.{Scope}
use sdcorejs_nestjs.Repository.Audit.{
  Operation, AuditEvent, AuditOutcome, recorded, Grant, not_an_object, structured, keyed, Strategy,
  Target,
}
use sdcorejs_nestjs.Repository.Grants.{
  is_well_formed, authorizes, target_identifier, call_audit, audit_event, consume_grant,
  assert_grant, assert_bypass_grant, bypass_with, should_bypass, checked_answer, current_scope,
}

-- The grant is complete, it names the target and the operation, and its audit callback has
-- recorded the use.
pub record IsAudited (g : Grant) (target : Target) (operation : Operation) (now : ℕ)
    (log log' : List AuditEvent) : Type 0 where
  pub name : Text
  pub well_formed : is_well_formed g ≡ true
  pub path : target_identifier target ≡ ok name
  pub authorized : authorizes g name operation ≡ true
  pub logged : log' ≡ log ++ audit_event g name operation now ∷ []
  pub audit : AuditEvent → AuditOutcome
  pub callback : g.audit ≡ some audit
  pub silent : audit (audit_event g name operation now) ≡ recorded

module _ (g : Grant) (target : Target) (operation : Operation) (now : ℕ)
    (log log' : List AuditEvent) where
  consume_grant-IsAudited :
      (name : Text)
      → is_well_formed g ≡ true
      → target_identifier target ≡ ok name
      → consume_grant g name operation now log ≡ (ok tt, log')
      → IsAudited g target operation now log log'
  unfolding consume_grant call_audit
  consume_grant-IsAudited name w p h = elim (Bool-cases (authorizes g name operation)) [
    | inr refused ↦ cc (rw refused at h)
    | inl allowed ↦ elim (Option-cases g.audit) [
      | inl missing ↦ ground arith
      | inr (audit, found) ↦ record {
        name = name;
        well_formed = w;
        path = p;
        authorized = allowed;
        logged = ground arith;
        audit = audit;
        callback = found;
        silent = ground arith;
      }
    ]
  ]

  assert_grant-IsAudited :
      assert_grant g target operation now log ≡ (ok tt, log')
      → IsAudited g target operation now log log'
  unfolding assert_grant
  assert_grant-IsAudited h = elim (Bool-cases (is_well_formed g)) [
    | inr bad ↦ ground arith
    | inl good ↦ elim (Result-cases (target_identifier target)) [
      | inr (e, lost) ↦ ground arith
      | inl (name, found) ↦ consume_grant-IsAudited name good found (ground arith)
    ]
  ]

-- A scoped target was reached without a scope, under an audited grant of the strategy.
pub record IsBypassed (strategy : Option Strategy) (target : Target) (operation : Operation)
    (now : ℕ) (log log' : List AuditEvent) : Type 0 where
  pub active : Strategy
  pub grant : Grant
  pub configured : strategy ≡ some active
  pub offered : active.bypass_grant ≡ some (structured grant)
  pub audited : IsAudited grant target operation now log log'

module _ (target : Target) (operation : Operation) (now : ℕ) (log log' : List AuditEvent) where
  should_bypass-IsBypassed :
      (s : Strategy)
      → should_bypass (some s) target operation now log ≡ (ok true, log')
      → IsBypassed (some s) target operation now log log'
  unfolding should_bypass bypass_with assert_bypass_grant
  should_bypass-IsBypassed s h = elim (Option-cases s.bypass_grant) [
    | inl missing ↦ ground arith
    | inr (not_an_object, found) ↦ ground arith
    | inr (structured g, found) ↦ record {
      active = s;
      grant = g;
      configured = refl;
      offered = found;
      audited = assert_grant-IsAudited g target operation now log log' (ground arith);
    }
  ]

  current_scope-none-of :
      (s : Strategy)
      → is_empty target.columns ≡ false
      → current_scope (some s) target operation now log ≡ (ok none, log')
      → should_bypass (some s) target operation now log ≡ (ok true, log')
  unfolding current_scope checked_answer
  current_scope-none-of s scoped h =
      elim (Result-cases (should_bypass (some s) target operation now log).0) [
        | inr (e, failed_here) ↦ ground arith
        | inl (true, bypassed) ↦ ground arith
        | inl (false, kept) ↦ ground arith
      ]

-- Data of a scoped target is reached with no scope only under a grant of the configured strategy
-- that is complete, names the target and the operation, and whose use the audit callback recorded,
-- as the one new entry of the log.
pub current_scope-IsBypassed :
    (strategy : Option Strategy) (target : Target) (operation : Operation) (now : ℕ)
    (log log' : List AuditEvent)
    → is_empty target.columns ≡ false
    → current_scope strategy target operation now log ≡ (ok none, log')
    → IsBypassed strategy target operation now log log'
current_scope-IsBypassed none target operation now log log' scoped h =
    unfold current_scope in ground arith
current_scope-IsBypassed (some s) target operation now log log' scoped h =
    should_bypass-IsBypassed target operation now log log' s
      (current_scope-none-of target operation now log log' s scoped h)

-- Where a scope is used, it is the strategy's own, no grant was offered, the deprecated Boolean
-- bypass was off, and nothing was logged.
pub record IsScoped (strategy : Option Strategy) (scope : Scope) (log log' : List AuditEvent)
    : Type 0 where
  pub active : Strategy
  pub configured : strategy ≡ some active
  pub answered_with : active.scope_answer ≡ keyed scope
  pub no_grant : active.bypass_grant ≡ none
  pub no_flag : active.bypass ≡ false
  pub unlogged : log' ≡ log

-- A scope that is used is the configured strategy's own answer, and then no grant was offered, the
-- deprecated flag was not set and nothing was logged.
pub current_scope-IsScoped :
    (strategy : Option Strategy) (target : Target) (operation : Operation) (now : ℕ) (scope : Scope)
    (log log' : List AuditEvent)
    → current_scope strategy target operation now log ≡ (ok (some scope), log')
    → IsScoped strategy scope log log'
unfolding current_scope should_bypass bypass_with checked_answer
current_scope-IsScoped none target operation now scope log log' h = ground arith
current_scope-IsScoped (some s) target operation now scope log log' h =
    elim (Bool-cases (is_empty target.columns)) [
      | inl unscoped ↦ ground arith
      | inr scoped ↦ elim (Option-cases s.bypass_grant) [
        | inr (g, offered) ↦
            elim (Result-cases (assert_bypass_grant g target operation now log).0) [
              | inl (u, used) ↦ ground arith
              | inr (e, refused) ↦ ground arith
            ]
        | inl no_grant ↦ record {
          active = s;
          configured = refl;
          answered_with = ground arith;
          no_grant = no_grant;
          no_flag = ground arith;
          unlogged = ground arith;
        }
      ]
    ]
