-- ===== src/Tenancy/Errors.antt =====
-- core/tenancy/errors.ts. The message of each class is fixed by its fields.
use sdcorejs_nestjs.Base.{String, List, Text}

pub data TenancyError : Type 0 where
  -- MissingTenancyContextError(targetName)
  missing_context : Text → TenancyError
  -- MissingTenancyScopeError(scopeColumns)
  missing_scope : List Text → TenancyError
  -- InvalidTenancyScopeError(column, reason)
  invalid_scope : Text → String → TenancyError
  -- TenancyScopeMutationError(column)
  scope_mutation : Text → TenancyError
  -- UnauthorizedTenancyBypassError(reason)
  unauthorized_bypass : String → TenancyError
