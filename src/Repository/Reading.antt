-- ===== src/Repository/Reading.antt =====
-- The filters and the page of a read in core/orm/base-repository.ts. A page's numbers are integers.
use sdcorejs_nestjs.Base.{ℕ, Option, none, some, List, map, Text, is_empty, min, if◌then◌else◌}
use sdcorejs_nestjs.Filter.Syntax.{Filters, append, Validator}
use sdcorejs_nestjs.Filter.Prepare.{prepare_filter, Order, prepare_sorts}
use sdcorejs_nestjs.Tenancy.Scope.{described, Scope}
use sdcorejs_nestjs.Tenancy.Query.{build_scope_filters}
use sdcorejs_nestjs.Repository.Audit.{read, Strategy, Target, Audited, return, lift, ◌>>=◌}
use sdcorejs_nestjs.Repository.Grants.{current_scope}
use sdcorejs_nestjs.Repository.Removal.{thrown_as}

abbrev pub with_scope : Target → Filters → Option Scope → Audited Filters
with_scope target cleaned none = return cleaned
with_scope target cleaned (some scope) =
    lift (thrown_as (build_scope_filters scope (map described target.columns))) >>= λ scoped.
    return (append cleaned scoped)

abbrev pub and_scope : Option Strategy → Target → ℕ → Filters → Audited Filters
and_scope strategy target now cleaned =
    if is_empty target.columns
    then return cleaned
    else current_scope strategy target read now >>= with_scope target cleaned

unfoldable pub addon_filter :
    Validator → Option Strategy → Target → ℕ → Option Filters → Audited Filters
unfolding prepare_filter build_scope_filters append
addon_filter validator strategy target now filters =
    lift (prepare_filter validator filters) >>= and_scope strategy target now

-- An integer of a request.
pub data Number : Type 0 where
  natural negative : ℕ → Number

pub record PagingReq : Type 0 where
  pub page_number : Option Number
  pub page_size : Option Number
  pub orders : List Order
  pub filters : Option Filters
  pub fields : List Text

pub record PreparedReq : Type 0 where
  pub page_number : ℕ
  pub page_size : ℕ
  pub orders : List Order
  pub filters : Filters
  pub fields : List Text

abbrev pub max_page_size : ℕ
max_page_size = 200

-- `Math.max(n ?? 0, 0)`
abbrev pub page_of : Option Number → ℕ
page_of none = 0
page_of (some (natural n)) = n
page_of (some (negative n)) = 0

unfoldable pub size_of : Option Number → ℕ
size_of (some (natural (ℕ.suc n))) = min (ℕ.suc n) max_page_size
size_of _ = 10

-- preparePagingReq
unfoldable pub prepare_paging :
    Validator → Option Strategy → Target → ℕ → PagingReq → Audited PreparedReq
unfolding addon_filter size_of prepare_sorts
prepare_paging validator strategy target now req =
    addon_filter validator strategy target now req.filters >>= λ filters. return (record {
      page_number = page_of req.page_number;
      page_size = size_of req.page_size;
      orders = prepare_sorts (some req.orders);
      filters = filters;
      fields = req.fields;
    })
