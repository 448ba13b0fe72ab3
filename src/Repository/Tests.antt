-- ===== src/Repository/Tests.antt =====
-- Runs of core/orm/base-repository.ts at concrete strategies.
use sdcorejs_nestjs.Base.{◌≡◌, refl, true, false, List, [], ◌∷◌, lit, ok, err, some, none}
use sdcorejs_nestjs.Values.{one, str}
use sdcorejs_nestjs.Tenancy.Scope.{Scope}
use sdcorejs_nestjs.Repository.Audit.{
  read, update, AuditEvent, recorded, Grant, structured, nothing, keyed, Strategy, Target,
  malformed_grant,
}
use sdcorejs_nestjs.Repository.Grants.{current_scope, audit_event}
use sdcorejs_nestjs.Repository.Bypass.{
  IsBypassed, current_scope-IsBypassed, IsScoped, current_scope-IsScoped,
}

abbrev target : Target
target = record {
  name = lit "Product";
  table_path = some (lit "app.product");
  columns = record { property_name = lit "tenant"; required = true } ∷ [];
}

abbrev grant : Grant
grant = record {
  authorized = true;
  actor_id = some (lit "a1");
  reason = some (lit "support");
  allowed_targets = some (some (lit "app.product") ∷ []);
  allowed_operations = some (some read ∷ []);
  audit = some (λ event. recorded);
}

abbrev privileged : Strategy
privileged = record {
  scope_answer = nothing;
  bypass = false;
  bypass_grant = some (structured grant);
}

abbrev logged : List AuditEvent
logged = audit_event grant (lit "app.product") read 7 ∷ []

bypass_run : current_scope (some privileged) target read 7 [] ≡ (ok none, logged)
unfolding current_scope
bypass_run = refl

-- A strategy that only answers true is refused.
flag_run :
    current_scope
      (some (record { scope_answer = nothing; bypass = true; bypass_grant = none }))
      target
      read
      7
      []
    ≡ (err malformed_grant, [])
unfolding current_scope
flag_run = refl

current_scope-IsBypassed_example : IsBypassed (some privileged) target read 7 [] logged
current_scope-IsBypassed_example =
    current_scope-IsBypassed (some privileged) target read 7 [] logged refl bypass_run

abbrev scope : Scope
scope = (lit "tenant", one (str (lit "t1"))) ∷ []

abbrev ordinary : Strategy
ordinary = record { scope_answer = keyed scope; bypass = false; bypass_grant = none }

current_scope-IsScoped_example : IsScoped (some ordinary) scope [] []
unfolding current_scope
current_scope-IsScoped_example =
    current_scope-IsScoped (some ordinary) target update 7 scope [] [] refl
