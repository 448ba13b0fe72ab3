-- ===== src/Filter/Clean.antt =====
-- What prepareFilter returns is clean, and cleaning is idempotent
-- (core/orm/utils/filter-query-builder.ts).
use sdcorejs_nestjs.Base.{
  ◌≡◌, refl, true, Option, none, some, ok, subst, >>=-eq-ok, Bool-cases, arith, inl, inr,
  if◌then◌else◌,
}
use sdcorejs_nestjs.Filter.Syntax.{
  Connective, and, Leaf, Filter, leaf, group, Filters, nil, cons, Validator, validate_filter, size,
}
use sdcorejs_nestjs.Filter.Prepare.{keeps_leaf, push_group, prepare_from, prepare_filter}

-- Every leaf has what its operator needs, and no group is empty.
abbrev pub IsClean : Filters → Type 0
IsClean nil = Unit
IsClean (cons (leaf l) fs) = (keeps_leaf l ≡ true) × IsClean fs
IsClean (cons (group connective members) fs) = (size members ≡ true) × IsClean members × IsClean fs

-- The validator accepts every group.
abbrev pub Accepts : Validator → Filters → Type 0
Accepts v nil = Unit
Accepts v (cons (leaf l) fs) = Accepts v fs
Accepts v (cons (group connective members) fs) =
    (v (group and members) ≡ none) × Accepts v members × Accepts v fs

IsClean-push_group :
    (connective : Connective) (members fs : Filters)
    → IsClean members
    → IsClean fs
    → IsClean (push_group connective members fs)
IsClean-push_group connective nil fs m h = h
IsClean-push_group connective (cons f members) fs m h = (refl, m, h)

IsClean-keep :
    (l : Leaf) (fs : Filters) → IsClean fs → IsClean (if keeps_leaf l then cons (leaf l) fs else fs)
IsClean-keep l fs h = elim (Bool-cases (keeps_leaf l)) [
  | inl kept ↦ rw kept (kept, h)
  | inr dropped ↦ rw dropped h
]

prepare_from-IsClean : (v : Validator) (fs gs : Filters) → prepare_from v fs ≡ ok gs → IsClean gs
unfolding prepare_from
prepare_from-IsClean v nil gs h = let same : nil ≡ gs = cc in rw (← same) tt
prepare_from-IsClean v (cons (leaf l) fs) gs h =
    let (later, found, done) = >>=-eq-ok (prepare_from v fs) _ h in
    let same : (if keeps_leaf l then cons (leaf l) later else later) ≡ gs = cc in
    subst IsClean same (IsClean-keep l later (prepare_from-IsClean v fs later found))
prepare_from-IsClean v (cons (group c members) fs) gs h =
    let (checked, valid, after) = >>=-eq-ok (validate_filter v (group and members)) _ h in
    let (cleaned, inner, next) = >>=-eq-ok (prepare_from v members) _ after in
    let (later, found, done) = >>=-eq-ok (prepare_from v fs) _ next in
    let same : push_group c cleaned later ≡ gs = cc in
    subst IsClean same (
      IsClean-push_group c cleaned later (prepare_from-IsClean v members cleaned inner)
        (prepare_from-IsClean v fs later found))

validate_filter-accepted : (v : Validator) (f : Filter) → v f ≡ none → validate_filter v f ≡ ok tt
unfolding validate_filter
validate_filter-accepted v f g = ground arith

prepare_from-clean :
    (v : Validator) (fs : Filters) → IsClean fs → Accepts v fs → prepare_from v fs ≡ ok fs
unfolding prepare_from
prepare_from-clean v nil c a = refl
prepare_from-clean v (cons (leaf l) fs) (k, c) a = rw (prepare_from-clean v fs c a, k)
prepare_from-clean v (cons (group o nil) fs) (n, m, c) (g, am, a) = cc
prepare_from-clean v (cons (group o (cons f ms)) fs) (n, m, c) (g, am, a) = rw (
  validate_filter-accepted v (group and (cons f ms)) g,
  prepare_from-clean v (cons f ms) m am,
  prepare_from-clean v fs c a,
)

-- Whatever prepareFilter returns is clean: each leaf has the data its operator needs, and each
-- group, however deep, has a member.
pub prepare_filter-IsClean :
    (v : Validator) (filters : Option Filters) (gs : Filters)
    → prepare_filter v filters ≡ ok gs
    → IsClean gs
unfolding prepare_filter
prepare_filter-IsClean v none gs h = let same : nil ≡ gs = cc in rw (← same) tt
prepare_filter-IsClean v (some fs) gs h =
    let (checked, valid, after) = >>=-eq-ok (validate_filter v (group and fs)) _ h in
    prepare_from-IsClean v fs gs after

-- Preparing what was prepared changes nothing, where the validator accepts the prepared groups.
pub prepare_filter_idem :
    (v : Validator) (filters : Option Filters) (gs : Filters)
    → prepare_filter v filters ≡ ok gs
    → v (group and gs) ≡ none
    → Accepts v gs
    → prepare_filter v (some gs) ≡ ok gs
unfolding prepare_filter
prepare_filter_idem v filters gs h g a =
    rw (validate_filter-accepted v (group and gs) g)
      (prepare_from-clean v gs (prepare_filter-IsClean v filters gs h) a)
