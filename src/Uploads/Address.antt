-- ===== src/Uploads/Address.antt =====
-- The addresses that features/uploaded-file/remote-fetcher.ts takes for public. The texts are those
-- that `isIP` of node:net has accepted: their dotted parts are decimal digits.
use sdcorejs_nestjs.Base.{
  ℕ, zero, suc, ◌+◌, ◌-◌, ◌*◌, ◌/◌, ◌%◌, ◌^◌, Bool, false, not, ◌&&◌, Option, none, some, List, [],
  ◌∷◌, map, Text, lit, any, leb, ◌==◌, if◌then◌else◌, split_on, min,
}

abbrev pub digit_of : ℕ → Option ℕ
digit_of c = if leb b'0' c && leb c b'9' then some (c - b'0') else none

abbrev pub next_digit : ℕ → Option ℕ → Option ℕ
next_digit n none = none
next_digit n (some d) = some (n * 10 + d)

-- `Number(part)` on decimal digits; the empty string counts as 0.
unfoldable pub decimal_from : Option ℕ → Text → Option ℕ
decimal_from n [] = n
decimal_from none (c ∷ s) = none
decimal_from (some n) (c ∷ s) = decimal_from (next_digit n (digit_of c)) s

abbrev pub number_of : Text → Option ℕ
number_of = decimal_from (some 0)

-- The number of four parts of at most 255 each.
unfoldable pub of_octets : List (Option ℕ) → Option ℕ
of_octets (some a ∷ some b ∷ some c ∷ some d ∷ []) =
    if leb a 255 && leb b 255 && leb c 255 && leb d 255
    then some (a * 2 ^ 24 + b * 2 ^ 16 + c * 2 ^ 8 + d)
    else none
of_octets _ = none

unfoldable pub ipv4_number : Text → Option ℕ
unfolding decimal_from of_octets split_on
ipv4_number address = of_octets (map number_of (split_on b'.' address))

-- `&` on the lowest digits of two numbers in binary; JavaScript's has 32 of them.
unfoldable pub and_bits : ℕ → ℕ → ℕ → ℕ
and_bits zero a b = 0
and_bits (suc width) a b = and_bits width (a / 2) (b / 2) * 2 + min (a % 2) (b % 2)

-- `(0xffffffff << (32 - prefix)) >>> 0`
abbrev pub mask_of : ℕ → ℕ
mask_of prefix = if prefix == 0 then 0 else (0xffffffff * 2 ^ (32 - prefix)) % 2 ^ 32

unfoldable pub in_ipv4_range : ℕ → ℕ → ℕ → Bool
in_ipv4_range value base prefix =
    and_bits 32 value (mask_of prefix) == and_bits 32 base (mask_of prefix)

abbrev pub is_within : ℕ → Option ℕ → ℕ → Bool
is_within value none prefix = false
is_within value (some base) prefix = in_ipv4_range value base prefix

abbrev pub blocked : List (Text × ℕ)
blocked =
    (lit "0.0.0.0", 8)
    ∷ (lit "10.0.0.0", 8)
    ∷ (lit "100.64.0.0", 10)
    ∷ (lit "127.0.0.0", 8)
    ∷ (lit "169.254.0.0", 16)
    ∷ (lit "172.16.0.0", 12)
    ∷ (lit "192.0.0.0", 24)
    ∷ (lit "192.0.2.0", 24)
    ∷ (lit "192.88.99.0", 24)
    ∷ (lit "192.168.0.0", 16)
    ∷ (lit "198.18.0.0", 15)
    ∷ (lit "198.51.100.0", 24)
    ∷ (lit "203.0.113.0", 24)
    ∷ (lit "224.0.0.0", 4)
    ∷ (lit "240.0.0.0", 4)
    ∷ []

unfoldable pub is_public_number : Option ℕ → Bool
is_public_number none = false
is_public_number (some value) =
    not (any (λ (range : Text × ℕ). is_within value (ipv4_number range.0) range.1) blocked)

unfoldable pub is_public_ipv4 : Text → Bool
is_public_ipv4 address = is_public_number (ipv4_number address)
