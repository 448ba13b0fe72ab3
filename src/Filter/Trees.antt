-- ===== src/Filter/Trees.antt =====
-- The SQL text of a whole filter tree is fixed by its form
-- (applyFilterToQuery of core/orm/utils/filter-query-builder.ts).
use sdcorejs_nestjs.Base.{
  ℕ, ◌+◌, ◌*◌, ◌≡◌, sym, ◌∙◌, ap, ap₂, List, ◌∷◌, Text, ok, ◌>>=◌, >>=-eq-ok,
}
use sdcorejs_nestjs.Filter.Syntax.{
  Connective, and, Leaf, Filter, leaf, group, Filters, nil, cons, validate_filter,
}
use sdcorejs_nestjs.Filter.Columns.{Schema}
use sdcorejs_nestjs.Filter.Query.{brackets, Conditions, empty, joined, Environment}
use sdcorejs_nestjs.Filter.Apply.{apply_leaf, apply_filter, apply_members}
use sdcorejs_nestjs.Filter.Binding.{erase, erase_one, SameForm, apply_leaf-erase}

-- Two trees of one shape, whose corresponding parts are the same, whatever operands they have, or
-- are literal leaves that differ at most in their values.
mutual
  pub data Similar : Filter → Filter → Type 0 where
    same : (f : Filter) → Similar f f
    leaves : {k l : Leaf} → SameForm k l → Similar (leaf k) (leaf l)
    groups :
        {c : Connective} {fs gs : Filters} → AllSimilar fs gs → Similar (group c fs) (group c gs)

  pub data AllSimilar : Filters → Filters → Type 0 where
    none_left : AllSimilar nil nil
    next :
        {f g : Filter} {fs gs : Filters}
        → Similar f g
        → AllSimilar fs gs
        → AllSimilar (cons f fs) (cons g gs)

module _ (m : Schema) (env : Environment) (alias : Text) (meta : m.Meta) where
  mutual
    unfolding apply_filter apply_members erase erase_one

    Similar-erase :
        {f g : Filter} (position : List ℕ) (idx : ℕ) (c d : Conditions)
        → Similar f g
        → apply_filter m env alias meta position idx f ≡ ok c
        → apply_filter m env alias meta position idx g ≡ ok d
        → erase c ≡ erase d
    Similar-erase position idx c d (same f) h h' = let one : c ≡ d = cc in ap erase one
    Similar-erase position idx c d (leaves {k} {l} s) h h' =
        let (_, _, done) =
          >>=-eq-ok (validate_filter env.validator (leaf k))
            (λ _. apply_leaf m env alias meta position idx k) h in
        let (_, _, done') =
          >>=-eq-ok (validate_filter env.validator (leaf l))
            (λ _. apply_leaf m env alias meta position idx l) h' in
        apply_leaf-erase m env alias meta position idx k l c d s done done'
    Similar-erase position idx c d (groups {c = o} none_left) h h' =
        let (_, _, done) =
          >>=-eq-ok (validate_filter env.validator (group o nil)) (λ _. ok empty) h in
        let (_, _, done') =
          >>=-eq-ok (validate_filter env.validator (group o nil)) (λ _. ok empty) h' in
        cc
    Similar-erase position idx c d (groups {c = o} (next {f} {g} {fs} {gs} s ss)) h h' =
        let close = λ (x : Conditions). joined and (brackets x) empty in
        let (_, _, after) =
          >>=-eq-ok (validate_filter env.validator (group o (cons f fs)))
            (λ _. apply_members m env alias meta position idx 0 o (cons f fs) >>= λ x. ok (close x))
            h in
        let (_, _, after') =
          >>=-eq-ok (validate_filter env.validator (group o (cons g gs)))
            (λ _. apply_members m env alias meta position idx 0 o (cons g gs) >>= λ x. ok (close x))
            h' in
        let (xs, found, done) =
          >>=-eq-ok (apply_members m env alias meta position idx 0 o (cons f fs))
            (λ x. ok (close x)) after in
        let (ys, found', done') =
          >>=-eq-ok (apply_members m env alias meta position idx 0 o (cons g gs))
            (λ x. ok (close x)) after' in
        let left : close xs ≡ c = cc in
        let right : close ys ≡ d = cc in
        sym (ap erase left)
        ∙ ap close (members-erase position idx 0 o xs ys (next s ss) found found')
        ∙ ap erase right

    members-erase :
        {fs gs : Filters} (position : List ℕ) (idx j : ℕ) (o : Connective) (c d : Conditions)
        → AllSimilar fs gs
        → apply_members m env alias meta position idx j o fs ≡ ok c
        → apply_members m env alias meta position idx j o gs ≡ ok d
        → erase c ≡ erase d
    members-erase position idx j o c d none_left h h' = cc
    members-erase position idx j o c d (next {f} {g} {fs} {gs} s ss) h h' =
        let one = λ (x : Filter). apply_filter m env alias meta (j ∷ position) (idx * 1000 + j) x in
        let rest = λ (xs : Filters). apply_members m env alias meta position idx (j + 1) o xs in
        let close = λ (x y : Conditions). joined o (brackets x) y in
        let (x, here, after) = >>=-eq-ok (one f) (λ x. rest fs >>= λ y. ok (close x y)) h in
        let (x', here', after') = >>=-eq-ok (one g) (λ x. rest gs >>= λ y. ok (close x y)) h' in
        let (y, later, done) = >>=-eq-ok (rest fs) (λ y. ok (close x y)) after in
        let (y', later', done') = >>=-eq-ok (rest gs) (λ y. ok (close x' y)) after' in
        let left : close x y ≡ c = cc in
        let right : close x' y' ≡ d = cc in
        sym (ap erase left)
        ∙ ap₂ close (Similar-erase (j ∷ position) (idx * 1000 + j) x x' s here here')
            (members-erase position idx (j + 1) o y y' ss later later')
        ∙ ap erase right

-- Two filter trees give conditions with the same SQL text wherever both are accepted, when they have
-- one shape and corresponding leaves are either the same leaf, with any kind of operand, or literal
-- leaves of the same field, operator and unit that differ only in their value, both values present
-- or both absent, both an empty array or neither.
pub apply_filter-erase :
    (m : Schema) (env : Environment) (alias : Text) (meta : m.Meta) (position : List ℕ) (idx : ℕ)
    {f g : Filter} (c d : Conditions)
    → Similar f g
    → apply_filter m env alias meta position idx f ≡ ok c
    → apply_filter m env alias meta position idx g ≡ ok d
    → erase c ≡ erase d
apply_filter-erase m env alias meta position idx c d s h h' =
    Similar-erase m env alias meta position idx c d s h h'
