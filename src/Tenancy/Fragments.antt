-- ===== src/Tenancy/Fragments.antt =====
-- The criteria of the where fragment that buildScopeWhere of core/tenancy/tenancy.helpers.ts makes.
use sdcorejs_nestjs.Base.{
  ◌≡◌, refl, sym, ◌∙◌, ap, subst, false, List, [], ◌∷◌, some, none, inl, inr, ◌⊎◌, arith, Text,
  text_eq, text_eq_iff, text_eq_sound, lookup, insert, lookup-insert, map, All, In, ok, >>=-eq-ok,
  Bool-cases,
}
use sdcorejs_nestjs.Tenancy.Scope.{
  ScopedColumn, described, Scope, Predicate, resolve_scope_predicates,
}
use sdcorejs_nestjs.Tenancy.Query.{Criterion, criterion, where_fragment, build_scope_where}
use sdcorejs_nestjs.Tenancy.Coverage.{IsOutside}
use sdcorejs_nestjs.Tenancy.Clauses.{
  Pinned, to_one, to_many, IsFree, Resolved, all_resolved, free, fixed,
  resolve_scope_predicates-Resolved,
}

abbrev pub Fragment : Type 0
Fragment = List (Text × Criterion)

-- No key occurs twice.
abbrev pub IsKeyed : Fragment → Type 0
IsKeyed [] = Unit
IsKeyed ((k, c) ∷ m) = (lookup k m ≡ none) × IsKeyed m

insert-IsKeyed : (k : Text) (c : Criterion) (m : Fragment) → IsKeyed m → IsKeyed (insert k c m)
unfolding insert
insert-IsKeyed k c [] h = (unfold lookup in refl, tt)
insert-IsKeyed k c ((j, d) ∷ m) (new, h) = elim (Bool-cases (text_eq j k)) [
  | inl same ↦ rw same (new, h)
  | inr other ↦ rw other (absent other, insert-IsKeyed k c m h)
]
  where
    absent : text_eq j k ≡ false → lookup j (insert k c m) ≡ none
    absent other =
        rw (lookup-insert k j c m) ground (arith, text_eq_iff j k, text_eq_iff k j, other, new)

where_fragment-IsKeyed :
    (ps : List Predicate) (out : Fragment) → IsKeyed out → IsKeyed (where_fragment ps out)
unfolding where_fragment
where_fragment-IsKeyed [] out h = h
where_fragment-IsKeyed (p ∷ ps) out h =
    where_fragment-IsKeyed ps (insert p.property_name (criterion p.operator p.values) out)
      (insert-IsKeyed p.property_name (criterion p.operator p.values) out h)

Pinned-unique :
    {scope : Scope} {k : Text} {c d : Criterion} → Pinned scope k c → Pinned scope k d → c ≡ d
Pinned-unique (to_one item given present) (to_one item' given' present') = cc
Pinned-unique (to_one item given present) (to_many items' allowed' given' normal') = cc
Pinned-unique (to_many items allowed given normal) (to_one item' given' present') = cc
Pinned-unique (to_many items allowed given normal) (to_many items' allowed' given' normal') =
    let same : items ≡ items' = cc in cc

free-pinned :
    {A : Type 0} {scope : Scope} {column : ScopedColumn} {k : Text} {c : Criterion}
    → IsFree scope column
    → k ≡ column.property_name
    → Pinned scope k c
    → A
free-pinned is_free e (to_one item given present) =
    let nullish = is_free.nullish in let given' = is_free.given in absurd (cc)
free-pinned is_free e (to_many items allowed given normal) =
    let given' = is_free.given in absurd (cc)

abbrev pub names_of : List ScopedColumn → List Text
names_of columns = map (λ (c : ScopedColumn). c.property_name) columns

where_fragment-Pinned :
    {scope : Scope} {columns : List ScopedColumn} {ps : List Predicate} (out : Fragment) (k : Text)
    (c : Criterion)
    → Resolved scope columns ps
    → Pinned scope k c
    → (lookup k out ≡ some c) ⊎ In k (names_of columns)
    → lookup k (where_fragment ps out) ≡ some c
unfolding where_fragment
where_fragment-Pinned out k c all_resolved pin (inl h) = h
where_fragment-Pinned out k c all_resolved pin (inr i) = elim i [ ]
where_fragment-Pinned out k c (free is_free rest) pin (inl h) =
    where_fragment-Pinned out k c rest pin (inl h)
where_fragment-Pinned out k c (free is_free rest) pin (inr (inl e)) = free-pinned is_free e pin
where_fragment-Pinned out k c (free is_free rest) pin (inr (inr i)) =
    where_fragment-Pinned out k c rest pin (inr i)
where_fragment-Pinned {scope} out k c (fixed {column} p named pinned rest) pin at =
    let crit = criterion p.operator p.values in
    let next = insert p.property_name crit out in
    let written = lookup-insert p.property_name k crit out in
    elim (Bool-cases (text_eq p.property_name k)) [
      | inl same ↦
          let e : column.property_name ≡ k = sym named ∙ text_eq_sound p.property_name k same in
          let one : crit ≡ c = Pinned-unique (subst (λ n. Pinned scope n crit) e pinned) pin in
          where_fragment-Pinned next k c rest pin (inl (rw (written, same) (ap some one)))
      | inr other ↦ elim at [
        | inl h ↦ where_fragment-Pinned next k c rest pin (inl (rw (written, other) h))
        | inr (inl e) ↦ absurd (ground (arith, text_eq_iff p.property_name k, named, e, other))
        | inr (inr i) ↦ where_fragment-Pinned next k c rest pin (inr i)
      ]
    ]

where_fragment-outside :
    {scope : Scope} {columns : List ScopedColumn} {ps : List Predicate} (out : Fragment) (k : Text)
    → Resolved scope columns ps
    → IsOutside k columns
    → lookup k (where_fragment ps out) ≡ lookup k out
unfolding where_fragment
where_fragment-outside out k all_resolved o = refl
where_fragment-outside out k (free is_free rest) (h, o) = where_fragment-outside out k rest o
where_fragment-outside out k (fixed {column} p named pinned rest) (h, o) =
    let crit = criterion p.operator p.values in
    let other : text_eq p.property_name k ≡ false = ap (λ n. text_eq n k) named ∙ h in
    where_fragment-outside (insert p.property_name crit out) k rest o
    ∙ rw (lookup-insert p.property_name k crit out, other) refl

-- Each column is pinned to what the scope gives it, but for those that the scope leaves free.
abbrev pub PinnedAll : Scope → List ScopedColumn → Fragment → Type 0
PinnedAll scope columns m =
    All
      (λ (column : ScopedColumn).
        IsFree scope column
        ⊎ ((c : Criterion) × Pinned scope column.property_name c
            × (lookup column.property_name m ≡ some c)))
      columns

pinned_all :
    {scope : Scope} {columns : List ScopedColumn} {ps : List Predicate} (m : Fragment)
    → Resolved scope columns ps
    → ((k : Text) (c : Criterion)
        → In k (names_of columns)
        → Pinned scope k c
        → lookup k m ≡ some c)
    → PinnedAll scope columns m
pinned_all m all_resolved found = tt
pinned_all m (free is_free rest) found =
    (inl is_free, pinned_all m rest (λ k c i. found k c (inr i)))
pinned_all m (fixed {column} p named pinned rest) found =
    let crit = criterion p.operator p.values in
    (
      inr (crit, pinned, found column.property_name crit (inl refl) pinned),
      pinned_all m rest (λ k c i. found k c (inr i)),
    )

-- The criteria of a fragment are those of the scope, and there is no other.
pub record IsFragment (scope : Scope) (columns : List ScopedColumn) (m : Fragment) : Type 0 where
  pub keyed : IsKeyed m
  pub pinned : PinnedAll scope columns m
  pub outside : (k : Text) → IsOutside k columns → lookup k m ≡ none

pub build_scope_where-IsFragment :
    (scope : Scope) (columns : List ScopedColumn) (m : Fragment)
    → build_scope_where scope (map described columns) ≡ ok m
    → IsFragment scope columns m
unfolding build_scope_where
build_scope_where-IsFragment scope columns m h =
    let (ps, found, done) =
      >>=-eq-ok (resolve_scope_predicates scope (map described columns)) _ h in
    let same : where_fragment ps [] ≡ m = cc in
    let resolved = resolve_scope_predicates-Resolved scope columns ps found in
    subst (IsFragment scope columns) same (record {
      keyed = where_fragment-IsKeyed ps [] tt;
      pinned =
          pinned_all (where_fragment ps []) resolved
            (λ k c i pin. where_fragment-Pinned [] k c resolved pin (inr i));
      outside = λ k o. where_fragment-outside [] k resolved o ∙ (unfold lookup in refl);
    })
