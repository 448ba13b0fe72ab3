-- ===== src/Uploads/Mapped.antt =====
-- IPv4 addresses that are mapped into IPv6, in features/uploaded-file/remote-fetcher.ts.
use sdcorejs_nestjs.Base.{
  ℕ, zero, suc, ◌≡◌, refl, ap, ◌∙◌, Bool, true, false, not, ◌&&◌, Option, none, some, List, [], ◌∷◌,
  ◌++◌, Text, lit, has_unit, ◌<◌, ◌==◌, ==_iff, arith, Bool-cases, inl, inr, and-true, split_on,
  join, decimal, show,
}
use sdcorejs_nestjs.Uploads.Address.{decimal_from, number_of}
use sdcorejs_nestjs.Uploads.Address6.{zero_bytes, starts_with, is_public_bytes}
use sdcorejs_nestjs.Uploads.Reserved.{is_reserved, is_public_ipv4-octets}

-- A finite table: the test holds of each number below the bound.
abbrev table : (ℕ → Bool) → ℕ → Bool
table test zero = true
table test (suc n) = table test n && test n

table-entry : (test : ℕ → Bool) (n k : ℕ) → table test n ≡ true → k < n → test k ≡ true
table-entry test zero k h lt = absurd (omega arith)
table-entry test (suc n) k h lt =
    let (before, last) = and-true (table test n) (test n) h in
    elim (Bool-cases (k == n)) [
      | inl e ↦ let same : k ≡ n = (==_iff k n).0 e in rw same last
      | inr e ↦ table-entry test n k before (ground arith)
    ]

abbrev is_value : Option ℕ → ℕ → Bool
is_value none n = false
is_value (some m) n = m == n

is_value-some : (o : Option ℕ) (n : ℕ) → is_value o n ≡ true → o ≡ some n
is_value-some none n h = cc
is_value-some (some m) n h = ap some ((==_iff m n).0 h)

-- An octet's decimal text reads back as the octet and holds no dot.
reads_back : ℕ → Bool
unfolding show decimal decimal_from has_unit
reads_back n = not (has_unit b'.' (show n)) && is_value (number_of (show n)) n

table-reads_back : table reads_back 256 ≡ true
unfolding reads_back show decimal decimal_from has_unit
table-reads_back = refl

octet_text : (n : ℕ) → n < 256 → (has_unit b'.' (show n) ≡ false) × (number_of (show n) ≡ some n)
unfolding reads_back
octet_text n h =
    let good = table-entry reads_back 256 n table-reads_back h in
    let (dotless, value) =
      and-true (not (has_unit b'.' (show n))) (is_value (number_of (show n)) n) good in
    (ground arith, is_value-some (number_of (show n)) n value)

split_on-joined :
    (s t : Text)
    → has_unit b'.' s ≡ false
    → split_on b'.' (s ++ b'.' ∷ [] ++ t) ≡ s ∷ split_on b'.' t
unfolding split_on has_unit
split_on-joined [] t h = refl
split_on-joined (c ∷ s) t h =
    let rest = split_on-joined s t (ground arith) in
    let other : (c == b'.') ≡ false = ground arith in rw (other, rest) refl

split_on-whole : (s : Text) → has_unit b'.' s ≡ false → split_on b'.' s ≡ s ∷ []
unfolding split_on has_unit
split_on-whole [] h = refl
split_on-whole (c ∷ s) h =
    let rest = split_on-whole s (ground arith) in
    let other : (c == b'.') ≡ false = ground arith in rw (other, rest) refl

split_on-four :
    (s t u v : Text)
    → has_unit b'.' s ≡ false
    → has_unit b'.' t ≡ false
    → has_unit b'.' u ≡ false
    → has_unit b'.' v ≡ false
    → split_on b'.' (join (lit ".") (s ∷ t ∷ u ∷ v ∷ [])) ≡ s ∷ t ∷ u ∷ v ∷ []
unfolding join
split_on-four s t u v hs ht hu hv =
    split_on-joined s (join (lit ".") (t ∷ u ∷ v ∷ [])) hs
    ∙ ap (λ (parts : List Text). s ∷ parts) (split_on-joined t (join (lit ".") (u ∷ v ∷ [])) ht)
    ∙ ap (λ (parts : List Text). s ∷ t ∷ parts) (split_on-joined u v hu)
    ∙ ap (λ (parts : List Text). s ∷ t ∷ u ∷ parts) (split_on-whole v hv)

-- An IPv4 address that is mapped into IPv6, ::ffff:a.b.c.d, counts as public exactly if the IPv4 address
-- lies in none of the reserved ranges: the mapping is no way around them.
pub is_public_bytes-mapped :
    (a b c d : ℕ)
    → a < 256
    → b < 256
    → c < 256
    → d < 256
    → is_public_bytes (zero_bytes 10 ++ 0xff ∷ 0xff ∷ a ∷ b ∷ c ∷ d ∷ [])
      ≡ not (is_reserved a b c d)
unfolding is_public_bytes starts_with
is_public_bytes-mapped a b c d ha hb hc hd =
    let (dot_a, value_a) = octet_text a ha in
    let (dot_b, value_b) = octet_text b hb in
    let (dot_c, value_c) = octet_text c hc in
    let (dot_d, value_d) = octet_text d hd in
    let parts = split_on-four (show a) (show b) (show c) (show d) dot_a dot_b dot_c dot_d in
    is_public_ipv4-octets (join (lit ".") (show a ∷ show b ∷ show c ∷ show d ∷ [])) a b c d
      (rw (parts, value_a, value_b, value_c, value_d) refl) ha hb hc hd
