-- ===== src/Repository/RemovalTests.antt =====
-- Mutations of core/orm/base-repository.ts over a world that is the flag of the transaction.
use sdcorejs_nestjs.Base.{◌≡◌, refl, Bool, true, false, [], ◌∷◌, lit, ok, some, none, text_eq, trim}
use sdcorejs_nestjs.Values.{one, str}
use sdcorejs_nestjs.Filter.Syntax.{not_found, Validator, Filters, cons, nil, leaf, equal, plain}
use sdcorejs_nestjs.Tenancy.Query.{leaf_with}
use sdcorejs_nestjs.Repository.Grants.{current_scope}
use sdcorejs_nestjs.Repository.Reading.{addon_filter}
use sdcorejs_nestjs.Repository.Paged.{IsRestricted, addon_filter-IsRestricted}
use sdcorejs_nestjs.Repository.Audit.{keyed, Strategy, Target}
use sdcorejs_nestjs.Repository.Runner.{Driver, Session, Work, throw, own_runner}
use sdcorejs_nestjs.Repository.Removal.{Store, IdArg, joined}
use sdcorejs_nestjs.Repository.Aborting.{tried_commit, own_runner-uncommitted}

abbrev driver : Driver Bool
driver = record {
  connect = λ w. (ok tt, w);
  start_transaction = λ w. (ok tt, true);
  commit_transaction = λ w. (ok tt, false);
  rollback_transaction = λ w. (ok tt, false);
  release = λ w. (ok tt, w);
  is_transaction_active = λ w. w;
  is_released = λ w. false;
}

abbrev store : Store Bool
store = record {
  count = λ clause w. (ok 2, w);
  soft_delete = λ clause w. (ok (some 2), w);
  restore = λ clause w. (ok none, w);
}

abbrev product : Target
product = record {
  name = lit "Product";
  table_path = some (lit "app.product");
  columns = record { property_name = lit "tenant"; required = true } ∷ [];
}

abbrev tenant_strategy : Strategy
tenant_strategy = record {
  scope_answer = keyed ((lit "tenant", one (str (lit "t1"))) ∷ []);
  bypass = false;
  bypass_grant = none;
}

abbrev idle_session : Session Bool
idle_session = record { world = false; calls = []; audits = [] }

-- Two distinct identifiers, one of them twice.
abbrev two_ids : IdArg
two_ids = joined (lit "x, y,x")

abbrev refuse : Work Bool Bool
refuse = throw not_found

own_runner-uncommitted_example :
    tried_commit (own_runner driver refuse idle_session).1.calls ≡ false
own_runner-uncommitted_example =
    own_runner-uncommitted driver refuse idle_session (λ s. refl) (λ s. (not_found, refl))

abbrev accepts : Validator
accepts f = none

abbrev tenant_filter : Filters
tenant_filter = cons (leaf (leaf_with (lit "tenant") equal (plain (one (str (lit "t1")))))) nil

addon_filter-IsRestricted_example :
    IsRestricted accepts (some tenant_strategy) product 7 none [] tenant_filter
unfolding addon_filter current_scope text_eq trim
addon_filter-IsRestricted_example =
    addon_filter-IsRestricted accepts (some tenant_strategy) product 7 none [] tenant_filter refl
      refl
