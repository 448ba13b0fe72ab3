-- ===== src/Repository/Grants.antt =====
-- Bypass grants and the current scope of core/orm/base-repository.ts.
use sdcorejs_nestjs.Base.{
  or_default, ℕ, Bool, true, false, not, ◌&&◌, ◌||◌, Option, none, some, List, [], ◌∷◌, ◌++◌, map,
  Text, lit, trim, is_empty, any, all, keep, text_eq, is_some, ok, err, if◌then◌else◌,
}
use sdcorejs_nestjs.Filter.Syntax.{tenancy, thrown, Checked}
use sdcorejs_nestjs.Tenancy.Errors.{missing_context, missing_scope, invalid_scope}
use sdcorejs_nestjs.Tenancy.Scope.{ScopedColumn, Scope}
use sdcorejs_nestjs.Repository.Audit.{
  Operation, AuditEvent, AuditOutcome, Grant, GrantValue, ScopeAnswer, Strategy, Target, unresolved,
  elsewhere, asynchronous, is_text, Audited, throw, return, lift, ◌>>=◌, ◌>>◌, unauthorized,
  malformed_grant, read, create, import, update, delete, soft_delete, restore, recorded, answered,
  failed, not_an_object, structured, nothing, not_keyed, keyed,
}

-- `typeof s === 'string' && s.trim()`
unfoldable pub is_filled : Option Text → Bool
unfolding trim
is_filled none = false
is_filled (some s) = not (is_empty (trim s))

unfoldable pub operation_eq : Operation → Operation → Bool
operation_eq read read = true
operation_eq create create = true
operation_eq import import = true
operation_eq update update = true
operation_eq delete delete = true
operation_eq soft_delete soft_delete = true
operation_eq restore restore = true
operation_eq _ _ = false

abbrev pub is_operation : Option Operation → Operation → Bool
is_operation none operation = false
is_operation (some o) operation = operation_eq o operation

unfoldable pub targets_valid : Option (List (Option Text)) → Bool
unfolding is_filled
targets_valid none = false
targets_valid (some ts) = not (is_empty ts) && all is_filled ts

unfoldable pub operations_valid : Option (List (Option Operation)) → Bool
operations_valid none = false
operations_valid (some os) = not (is_empty os) && all is_some os

-- The first test of `assertBypassGrant`.
unfoldable pub is_well_formed : Grant → Bool
unfolding is_filled targets_valid operations_valid
is_well_formed g =
    g.authorized
    && is_filled g.actor_id
    && is_filled g.reason
    && targets_valid g.allowed_targets
    && operations_valid g.allowed_operations
    && is_some g.audit

unfoldable pub names_target : Text → Option (List (Option Text)) → Bool
unfolding text_eq
names_target name none = false
names_target name (some ts) = any (λ t. is_text t name) ts

unfoldable pub names_operation : Operation → Option (List (Option Operation)) → Bool
unfolding operation_eq
names_operation operation none = false
names_operation operation (some os) = any (λ o. is_operation o operation) os

abbrev pub star : Text
star = lit "*"

-- The second test of `assertBypassGrant`.
unfoldable pub authorizes : Grant → Text → Operation → Bool
unfolding names_target names_operation
authorizes g target operation =
    (names_target star g.allowed_targets || names_target target g.allowed_targets)
    && names_operation operation g.allowed_operations

-- targetIdentifier
unfoldable pub target_identifier : Target → Checked Text
unfolding trim
target_identifier target = elim target.table_path [
  | none ↦ err (unauthorized unresolved)
  | some path ↦ if is_empty (trim path) then err (unauthorized unresolved) else ok (trim path)
]

-- The call of the audit callback and the test on what it returned.
unfoldable pub call_audit : Option (AuditEvent → AuditOutcome) → AuditEvent → Audited (Unit {0})
call_audit none event log = throw malformed_grant log
call_audit (some audit) event log = elim (audit event) [
  | recorded ↦ (ok tt, log ++ event ∷ [])
  | answered ↦ (err (unauthorized asynchronous), log ++ event ∷ [])
  | failed ↦ (err (thrown "audit"), log ++ event ∷ [])
]

abbrev pub audit_event : Grant → Text → Operation → ℕ → AuditEvent
audit_event g target operation now = record {
  actor_id = or_default g.actor_id [];
  reason = or_default g.reason [];
  target = target;
  operation = operation;
  occurred_at = now;
}

-- The second and the third part of `assertBypassGrant`.
unfoldable pub consume_grant : Grant → Text → Operation → ℕ → Audited (Unit {0})
unfolding authorizes call_audit
consume_grant g name operation now =
    if not (authorizes g name operation)
    then throw (unauthorized elsewhere)
    else call_audit g.audit (audit_event g name operation now)

unfoldable pub assert_grant : Grant → Target → Operation → ℕ → Audited (Unit {0})
unfolding is_well_formed target_identifier consume_grant
assert_grant g target operation now =
    if not (is_well_formed g)
    then throw malformed_grant
    else (lift (target_identifier target) >>= λ name. consume_grant g name operation now)

unfoldable pub assert_bypass_grant : GrantValue → Target → Operation → ℕ → Audited (Unit {0})
unfolding assert_grant
assert_bypass_grant not_an_object target operation now = throw malformed_grant
assert_bypass_grant (structured g) target operation now = assert_grant g target operation now

-- shouldBypass, for a target with scoped columns and a strategy
unfoldable pub bypass_with : Strategy → Target → Operation → ℕ → Audited Bool
unfolding assert_bypass_grant
bypass_with strategy target operation now = elim strategy.bypass_grant [
  | some grant ↦ (do assert_bypass_grant grant target operation now; return true)
  | none ↦ if strategy.bypass then throw malformed_grant else return false
]

unfoldable pub should_bypass : Option Strategy → Target → Operation → ℕ → Audited Bool
unfolding bypass_with
should_bypass strategy target operation now =
    if is_empty target.columns then return false else elim strategy [
      | none ↦ throw (tenancy (missing_context target.name))
      | some s ↦ bypass_with s target operation now
    ]

abbrev pub required_names : List ScopedColumn → List Text
required_names columns =
    map (λ (c : ScopedColumn). c.property_name) (keep (λ (c : ScopedColumn). c.required) columns)

-- The checks on what `getCurrentScope` returned.
unfoldable pub checked_answer : ScopeAnswer → Target → Checked (Option Scope)
checked_answer nothing target = err (tenancy (missing_scope (required_names target.columns)))
checked_answer not_keyed target =
    err
      (tenancy (invalid_scope star "strategy must return an object keyed by scoped property name"))
checked_answer (keyed scope) target = ok (some scope)

-- currentScope; `none` is undefined
unfoldable pub current_scope : Option Strategy → Target → Operation → ℕ → Audited (Option Scope)
unfolding should_bypass checked_answer
current_scope strategy target operation now =
    if is_empty target.columns then return none else elim strategy [
      | none ↦ throw (tenancy (missing_context target.name))
      | some s ↦ do
        bypassed ← should_bypass (some s) target operation now
        if bypassed then return none else lift (checked_answer s.scope_answer target)
    ]
