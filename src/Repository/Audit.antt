-- ===== src/Repository/Audit.antt =====
-- The grants of core/tenancy/strategy.interface.ts, and the audited computations of
-- core/orm/base-repository.ts: the audit callback's calls are a log.
use sdcorejs_nestjs.Base.{String, ℕ, Bool, false, Option, none, some, List, Text, text_eq, ok, err}
use sdcorejs_nestjs.Filter.Syntax.{RepositoryError, tenancy, Checked}
use sdcorejs_nestjs.Tenancy.Errors.{unauthorized_bypass}
use sdcorejs_nestjs.Tenancy.Scope.{ScopedColumn, Scope}

-- TENANCY_OPERATIONS
pub data Operation : Type 0 where
  read create import update delete soft_delete restore : Operation

pub record AuditEvent : Type 0 where
  pub actor_id : Text
  pub reason : Text
  pub target : Text
  pub operation : Operation
  pub occurred_at : ℕ

-- What the audit callback does: it returns undefined, something else, or throws.
pub data AuditOutcome : Type 0 where
  recorded : AuditOutcome
  answered : AuditOutcome
  failed : AuditOutcome

-- The fields of a grant as unknown values: `none` stands for a value of another type, or, among
-- the operations, for one outside TENANCY_OPERATIONS.
pub record Grant : Type 0 where
  pub authorized : Bool
  pub actor_id : Option Text
  pub reason : Option Text
  pub allowed_targets : Option (List (Option Text))
  pub allowed_operations : Option (List (Option Operation))
  pub audit : Option (AuditEvent → AuditOutcome)

-- What `getBypassGrant` returned, if it is not undefined.
pub data GrantValue : Type 0 where
  not_an_object : GrantValue
  structured : Grant → GrantValue

-- What `getCurrentScope` returned.
pub data ScopeAnswer : Type 0 where
  nothing : ScopeAnswer
  not_keyed : ScopeAnswer
  keyed : Scope → ScopeAnswer

-- An ITenancyStrategy, at the context of the request.
pub record Strategy : Type 0 where
  pub scope_answer : ScopeAnswer
  pub bypass : Bool
  pub bypass_grant : Option GrantValue

-- An entity target: its class name, its table path if metadata is found, its scoped columns.
pub record Target : Type 0 where
  pub name : Text
  pub table_path : Option Text
  pub columns : List ScopedColumn

abbrev pub unresolved : String
unresolved = "The tenancy bypass target could not be resolved to EntityMetadata.tablePath"

abbrev pub elsewhere : String
elsewhere = "The tenancy bypass grant does not authorize this target and operation"

abbrev pub asynchronous : String
asynchronous = "The tenancy bypass audit callback must complete synchronously"

-- `item === name`
abbrev pub is_text : Option Text → Text → Bool
is_text none name = false
is_text (some t) name = text_eq t name

-- A computation that may throw and that logs the calls of the audit callback.
abbrev pub Audited : Type 0 → Type 0
Audited A = List AuditEvent → Checked A × List AuditEvent

abbrev pub throw : {A : Type 0} → RepositoryError → Audited A
throw e log = (err e, log)

abbrev pub return : {A : Type 0} → A → Audited A
return a log = (ok a, log)

abbrev pub lift : {A : Type 0} → Checked A → Audited A
lift r log = (r, log)

abbrev pub continue : {A B : Type 0} → Checked A → (A → Audited B) → Audited B
continue (ok a) f log = f a log
continue (err e) f log = (err e, log)

infixl 5 ◌>>=◌ ◌>>◌
abbrev pub ◌>>=◌ : {A B : Type 0} → Audited A → (A → Audited B) → Audited B
◌>>=◌ m f log = let (r, log') = m log in continue r f log'

abbrev pub ◌>>◌ : {A B : Type 0} → Audited A → Audited B → Audited B
m >> k = m >>= λ _. k

abbrev pub unauthorized : String → RepositoryError
unauthorized reason = tenancy (unauthorized_bypass reason)

abbrev pub malformed_grant : RepositoryError
malformed_grant =
    unauthorized "A structured, authorized, and auditable tenancy bypass grant is required"
