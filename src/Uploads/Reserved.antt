-- ===== src/Uploads/Reserved.antt =====
-- The IPv4 ranges of features/uploaded-file/remote-fetcher.ts, octet by octet.
use sdcorejs_nestjs.Base.{
  ℕ, ◌≡◌, refl, ◌∙◌, Bool, not, some, [], ◌∷◌, ◌+◌, ◌*◌, ◌^◌, ◌<◌, arith, ◌==◌, ◌&&◌, ◌||◌, leb,
  Text, map, split_on,
}
use sdcorejs_nestjs.Uploads.Address.{
  number_of, decimal_from, of_octets, ipv4_number, in_ipv4_range, is_public_number, is_public_ipv4,
}
use sdcorejs_nestjs.Uploads.Masks.{in_ipv4_range_lem}

-- The addresses that are not public: this network, private, shared, loopback and link-local ones,
-- those kept for protocols, documentation, relays and benchmarks, and all from 224 on.
unfoldable pub is_reserved : ℕ → ℕ → ℕ → ℕ → Bool
is_reserved a b c d =
    (a == 0)
    || (a == 10)
    || (a == 100) && leb 64 b && leb b 127
    || (a == 127)
    || (a == 169) && (b == 254)
    || (a == 172) && leb 16 b && leb b 31
    || (a == 192) && (b == 0) && (c == 0)
    || (a == 192) && (b == 0) && (c == 2)
    || (a == 192) && (b == 88) && (c == 99)
    || (a == 192) && (b == 168)
    || (a == 198) && leb 18 b && leb b 19
    || (a == 198) && (b == 51) && (c == 100)
    || (a == 203) && (b == 0) && (c == 113)
    || leb 224 a

abbrev number : ℕ → ℕ → ℕ → ℕ → ℕ
number a b c d = a * 2 ^ 24 + b * 2 ^ 16 + c * 2 ^ 8 + d

module _ (a b c d : ℕ) (ha : a < 256) (hb : b < 256) (hc : c < 256) (hd : d < 256) where
  in_range_8 : (n : ℕ) → n < 256 → in_ipv4_range (number a b c d) (n * 2 ^ 24) 8 ≡ (a == n)
  in_range_8 n h =
      in_ipv4_range_lem 8 24 (number a b c d) (n * 2 ^ 24) 255 refl refl refl (omega arith)
        (omega arith)
      ∙ ground arith

  in_range_16 :
      (n m : ℕ)
      → n < 256
      → m < 256
      → in_ipv4_range (number a b c d) (n * 2 ^ 24 + m * 2 ^ 16) 16 ≡ ((a == n) && (b == m))
  in_range_16 n m h g =
      in_ipv4_range_lem 16 16 (number a b c d) (n * 2 ^ 24 + m * 2 ^ 16) 65535 refl refl refl
        (omega arith) (omega arith)
      ∙ ground arith

  in_range_24 :
      (n m l : ℕ)
      → n < 256
      → m < 256
      → l < 256
      → in_ipv4_range (number a b c d) (n * 2 ^ 24 + m * 2 ^ 16 + l * 2 ^ 8) 24
        ≡ ((a == n) && (b == m) && (c == l))
  in_range_24 n m l h g k =
      in_ipv4_range_lem 24 8 (number a b c d) (n * 2 ^ 24 + m * 2 ^ 16 + l * 2 ^ 8) 16777215 refl
        refl refl (omega arith) (omega arith)
      ∙ ground arith

  shared :
      in_ipv4_range (number a b c d) (100 * 2 ^ 24 + 64 * 2 ^ 16) 10
      ≡ ((a == 100) && leb 64 b && leb b 127)
  shared =
      in_ipv4_range_lem 10 22 (number a b c d) (100 * 2 ^ 24 + 64 * 2 ^ 16) 1023 refl refl refl
        (omega arith) (omega arith)
      ∙ ground arith

  private_12 :
      in_ipv4_range (number a b c d) (172 * 2 ^ 24 + 16 * 2 ^ 16) 12
      ≡ ((a == 172) && leb 16 b && leb b 31)
  private_12 =
      in_ipv4_range_lem 12 20 (number a b c d) (172 * 2 ^ 24 + 16 * 2 ^ 16) 4095 refl refl refl
        (omega arith) (omega arith)
      ∙ ground arith

  benchmark :
      in_ipv4_range (number a b c d) (198 * 2 ^ 24 + 18 * 2 ^ 16) 15
      ≡ ((a == 198) && leb 18 b && leb b 19)
  benchmark =
      in_ipv4_range_lem 15 17 (number a b c d) (198 * 2 ^ 24 + 18 * 2 ^ 16) 32767 refl refl refl
        (omega arith) (omega arith)
      ∙ ground arith

  in_range_4 :
      (n : ℕ)
      → n < 16
      → in_ipv4_range (number a b c d) (n * 2 ^ 28) 4 ≡ (leb (n * 16) a && leb a (n * 16 + 15))
  in_range_4 n h =
      in_ipv4_range_lem 4 28 (number a b c d) (n * 2 ^ 28) 15 refl refl refl (omega arith)
        (omega arith)
      ∙ ground arith

  is_public_number-reserved : is_public_number (some (number a b c d)) ≡ not (is_reserved a b c d)
  unfolding is_public_number is_reserved ipv4_number decimal_from of_octets split_on
  is_public_number-reserved = ground (
    arith,
    in_range_8 0 (omega arith),
    in_range_8 10 (omega arith),
    shared,
    in_range_8 127 (omega arith),
    in_range_16 169 254 (omega arith) (omega arith),
    private_12,
    in_range_24 192 0 0 (omega arith) (omega arith) (omega arith),
    in_range_24 192 0 2 (omega arith) (omega arith) (omega arith),
    in_range_24 192 88 99 (omega arith) (omega arith) (omega arith),
    in_range_16 192 168 (omega arith) (omega arith),
    benchmark,
    in_range_24 198 51 100 (omega arith) (omega arith) (omega arith),
    in_range_24 203 0 113 (omega arith) (omega arith) (omega arith),
    in_range_4 14 (omega arith),
    in_range_4 15 (omega arith),
  )

of_octets_lem :
    (a b c d : ℕ)
    → a < 256
    → b < 256
    → c < 256
    → d < 256
    → of_octets (some a ∷ some b ∷ some c ∷ some d ∷ []) ≡ some (number a b c d)
unfolding of_octets
of_octets_lem a b c d ha hb hc hd = ground arith

-- An address of four decimal octets counts as public exactly if it lies in none of the reserved
-- ranges, read octet by octet: the masks of the code select the leading digits of each range.
pub is_public_ipv4-octets :
    (s : Text) (a b c d : ℕ)
    → map number_of (split_on b'.' s) ≡ some a ∷ some b ∷ some c ∷ some d ∷ []
    → a < 256
    → b < 256
    → c < 256
    → d < 256
    → is_public_ipv4 s ≡ not (is_reserved a b c d)
unfolding is_public_ipv4 ipv4_number
is_public_ipv4-octets s a b c d e ha hb hc hd =
    rw (e, of_octets_lem a b c d ha hb hc hd) (is_public_number-reserved a b c d ha hb hc hd)
