-- ===== src/Base/Sorting.antt =====
-- `texts.sort()`: the order of strings by their UTF-16 code units, and a list sorted by it.
use Prim.Native.Nat.{ℕ, ◌+◌, ◌<◌}
use mathlib.Core.Path.{◌≡◌, refl, sym, ◌∙◌, ap, ap₂}
use mathlib.Core.Logic.{◌↔◌, inl, inr}
use mathlib.Core.Bool.{Bool, true, false, ◌&&◌, ◌||◌}
use mathlib.Core.List.{List, [], ◌∷◌}
use native.Mathlib.Omega.{arith}
use sdcorejs_nestjs.Base.Tests.{ltb, ◌==◌, if◌then◌else◌, Bool-cases}
use sdcorejs_nestjs.Base.Lists.{All}
use sdcorejs_nestjs.Base.Strings.{Text, text_eq, text_eq_sound, text_eq_self}

unfoldable pub text_le : Text → Text → Bool
text_le [] t = true
text_le (c ∷ s) [] = false
text_le (c ∷ s) (d ∷ t) = ltb c d || ((c == d) && text_le s t)

abbrev pub sort_insert : Text → List Text → List Text
sort_insert s [] = s ∷ []
sort_insert s (t ∷ texts) =
    let rest = sort_insert s texts in if text_le s t then s ∷ t ∷ texts else t ∷ rest

-- The sorted list is determined by the order, so that any sorting gives it.
unfoldable pub sort : List Text → List Text
unfolding text_le
sort [] = []
sort (s ∷ texts) = sort_insert s (sort texts)

unfoldable pub same_texts : List Text → List Text → Bool
unfolding text_eq
same_texts [] [] = true
same_texts [] (t ∷ ts) = false
same_texts (s ∷ ss) [] = false
same_texts (s ∷ ss) (t ∷ ts) = text_eq s t && same_texts ss ts

-- How often a text stands in a list.
unfoldable pub occurrences : Text → List Text → ℕ
unfolding text_eq
occurrences t [] = 0
occurrences t (s ∷ texts) = (if text_eq s t then 1 else 0) + occurrences t texts

-- The same texts, each as often.
abbrev pub SameItems : List Text → List Text → Type 0
SameItems xs ys = (t : Text) → occurrences t xs ≡ occurrences t ys

text_le_total : (s t : Text) → text_le s t ≡ false → text_le t s ≡ true
unfolding text_le
text_le_total [] t h = cc
text_le_total (c ∷ s) [] h = refl
text_le_total (c ∷ s) (d ∷ t) h = ground (arith, text_le_total s t)

text_le_antisym : (s t : Text) → text_le s t ≡ true → text_le t s ≡ true → s ≡ t
unfolding text_le
text_le_antisym [] [] h k = refl
text_le_antisym [] (d ∷ t) h k = cc
text_le_antisym (c ∷ s) [] h k = cc
text_le_antisym (c ∷ s) (d ∷ t) h k = ground (arith, text_le_antisym s t)

text_le_trans : (s t u : Text) → text_le s t ≡ true → text_le t u ≡ true → text_le s u ≡ true
unfolding text_le
text_le_trans [] t u h k = refl
text_le_trans (c ∷ s) [] u h k = cc
text_le_trans (c ∷ s) (d ∷ t) [] h k = cc
text_le_trans (c ∷ s) (d ∷ t) (e ∷ u) h k = ground (arith, text_le_trans s t u)

text_le_self : (s : Text) → text_le s s ≡ true
unfolding text_le
text_le_self [] = refl
text_le_self (c ∷ s) = ground (arith, text_le_self s)

-- At most every text of the list.
abbrev Below : Text → List Text → Type 0
Below s = All (λ t. text_le s t ≡ true)

abbrev IsSorted : List Text → Type 0
IsSorted [] = Unit
IsSorted (s ∷ texts) = Below s texts × IsSorted texts

Below-trans : (s t : Text) (xs : List Text) → text_le s t ≡ true → Below t xs → Below s xs
Below-trans s t [] h b = tt
Below-trans s t (x ∷ xs) h (b, bs) = (text_le_trans s t x h b, Below-trans s t xs h bs)

Below-sort_insert :
    (s t : Text) (xs : List Text) → text_le s t ≡ true → Below s xs → Below s (sort_insert t xs)
Below-sort_insert s t [] h b = (h, tt)
Below-sort_insert s t (x ∷ xs) h (b, bs) = elim (Bool-cases (text_le t x)) [
  | inl le ↦ rw le (h, (b, bs))
  | inr gt ↦ rw gt (b, Below-sort_insert s t xs h bs)
]

sort_insert-IsSorted : (s : Text) (xs : List Text) → IsSorted xs → IsSorted (sort_insert s xs)
sort_insert-IsSorted s [] h = (tt, tt)
sort_insert-IsSorted s (x ∷ xs) (b, h) = elim (Bool-cases (text_le s x)) [
  | inl le ↦ rw le ((le, Below-trans s x xs le b), (b, h))
  | inr gt ↦ rw gt (Below-sort_insert x s xs (text_le_total s x gt) b, sort_insert-IsSorted s xs h)
]

sort-IsSorted : (xs : List Text) → IsSorted (sort xs)
unfolding sort
sort-IsSorted [] = tt
sort-IsSorted (x ∷ xs) = sort_insert-IsSorted x (sort xs) (sort-IsSorted xs)

occurrences-sort_insert :
    (t s : Text) (xs : List Text) → occurrences t (sort_insert s xs) ≡ occurrences t (s ∷ xs)
unfolding occurrences
occurrences-sort_insert t s [] = refl
occurrences-sort_insert t s (x ∷ xs) = elim (Bool-cases (text_le s x)) [
  | inl le ↦ rw le refl
  | inr gt ↦ rw gt (omega (arith, occurrences-sort_insert t s xs))
]

occurrences-sort : (t : Text) (xs : List Text) → occurrences t (sort xs) ≡ occurrences t xs
unfolding sort occurrences
occurrences-sort t [] = refl
occurrences-sort t (x ∷ xs) =
    omega (arith, occurrences-sort_insert t x (sort xs), occurrences-sort t xs)

Below-least : (s t : Text) (xs : List Text) → Below s xs → 0 < occurrences t xs → text_le s t ≡ true
unfolding occurrences
Below-least s t [] b h = absurd (omega arith)
Below-least s t (x ∷ xs) (b, bs) h = elim (Bool-cases (text_eq x t)) [
  | inl same ↦ let e : x ≡ t = text_eq_sound x t same in rw (← e) b
  | inr other ↦ Below-least s t xs bs (ground arith)
]

occurrences_self : (t : Text) (xs : List Text) → 0 < occurrences t (t ∷ xs)
unfolding occurrences
occurrences_self t xs = ground (arith, text_eq_self t)

head_least :
    (s t : Text) (xs ys : List Text) → Below t ys → SameItems (s ∷ xs) (t ∷ ys) → text_le t s ≡ true
head_least s t xs ys b h =
    Below-least t s (t ∷ ys) (text_le_self t, b) (omega (arith, h s, occurrences_self s xs))

-- Sorted lists with the same items are equal.
sorted_unique : (xs ys : List Text) → IsSorted xs → IsSorted ys → SameItems xs ys → xs ≡ ys
sorted_unique [] [] p q h = refl
sorted_unique [] (y ∷ ys) p q h = absurd (
    let e : 0 ≡ occurrences y (y ∷ ys) = unfold occurrences in h y in
    omega (arith, occurrences_self y ys))
sorted_unique (x ∷ xs) [] p q h = absurd (
    let e : occurrences x (x ∷ xs) ≡ 0 = unfold occurrences in h x in
    omega (arith, occurrences_self x xs))
sorted_unique (x ∷ xs) (y ∷ ys) (a, p) (b, q) h =
    let heads : x ≡ y =
      text_le_antisym x y (head_least y x ys xs a (λ t. sym (h t))) (head_least x y xs ys b h) in
    ap₂ ◌∷◌ heads (sorted_unique xs ys p q (λ t. tails t heads))
  where
    tails : (t : Text) → x ≡ y → occurrences t xs ≡ occurrences t ys
    tails t e =
        unfold occurrences in omega (arith, h t, ap {B = ℕ} (λ z. if text_eq z t then 1 else 0) e)

same_texts_sound : (xs ys : List Text) → same_texts xs ys ≡ true → xs ≡ ys
unfolding same_texts
same_texts_sound [] [] h = refl
same_texts_sound [] (y ∷ ys) h = cc
same_texts_sound (x ∷ xs) [] h = cc
same_texts_sound (x ∷ xs) (y ∷ ys) h = ground (arith, text_eq_sound x y, same_texts_sound xs ys)

same_texts_self : (xs : List Text) → same_texts xs xs ≡ true
unfolding same_texts
same_texts_self [] = refl
same_texts_self (x ∷ xs) = ground (arith, text_eq_self x, same_texts_self xs)

-- Two lists sort to the same list if and only if they hold the same items.
pub same_texts-sort :
    (xs ys : List Text) → (same_texts (sort xs) (sort ys) ≡ true) ↔ SameItems xs ys
same_texts-sort xs ys = (
  λ h t.
      sym (occurrences-sort t xs)
      ∙ ap (occurrences t) (same_texts_sound (sort xs) (sort ys) h)
      ∙ occurrences-sort t ys,
  λ h.
      let e : sort xs ≡ sort ys =
        sorted_unique (sort xs) (sort ys) (sort-IsSorted xs) (sort-IsSorted ys)
          (λ t. occurrences-sort t xs ∙ h t ∙ sym (occurrences-sort t ys)) in
      rw e (same_texts_self (sort ys)),
)
