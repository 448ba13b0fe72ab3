-- ===== src/Uploads/Address6.antt =====
-- The IPv6 addresses that features/uploaded-file/remote-fetcher.ts takes for public. `isIP` of
-- node:net, which answers a text's family, is a parameter.
use sdcorejs_nestjs.Base.{
  ℕ, zero, suc, ◌+◌, ◌-◌, ◌*◌, ◌/◌, ◌%◌, ◌^◌, Bool, true, false, ◌&&◌, ◌||◌, Option, none, some,
  List, [], ◌∷◌, ◌++◌, map, Text, lit, length, is_empty, all, ltb, leb, ◌==◌, if◌then◌else◌,
  split_on, join, show, lower_unit,
}
use sdcorejs_nestjs.Uploads.Bytes.{byte_at}
use sdcorejs_nestjs.Uploads.Address.{ipv4_number, and_bits, is_public_ipv4}

abbrev pub first_part : List Text → Text
first_part [] = []
first_part (s ∷ parts) = s

-- `split('::')`
abbrev onto_first : ℕ → List Text → List Text
onto_first c [] = (c ∷ []) ∷ []
onto_first c (s ∷ parts) = (c ∷ s) ∷ parts

unfoldable pub split_double : Text → List Text
split_double [] = [] ∷ []
split_double (c ∷ []) = (c ∷ []) ∷ []
split_double (c ∷ d ∷ s) =
    let parts = split_double s in
    let later = split_double (d ∷ s) in
    if (c == b':') && (d == b':') then [] ∷ parts else onto_first c later

-- One to three decimal digits.
abbrev is_short_decimal : Text → Bool
is_short_decimal s = leb 1 (length s) && leb (length s) 3 && all (λ c. leb b'0' c && leb c b'9') s

-- Four groups of such digits between dots.
unfoldable pub is_dotted : Text → Bool
unfolding split_on
is_dotted s = (length (split_on b'.' s) == 4) && all is_short_decimal (split_on b'.' s)

-- `toString(16)` of a number below 2 ^ 16.
abbrev hex_digit : ℕ → ℕ
hex_digit n = if ltb n 10 then b'0' + n else b'a' + (n - 10)

abbrev hex_of : ℕ → ℕ → Text
hex_of zero n = []
hex_of (suc fuel) n =
    let higher = hex_of fuel (n / 16) in
    if ltb n 16 then hex_digit n ∷ [] else higher ++ hex_digit (n % 16) ∷ []

abbrev pub hex : ℕ → Text
hex = hex_of 4

abbrev pub last_groups : Option ℕ → Option (List Text)
last_groups none = none
last_groups (some v) = some (hex (v / 2 ^ 16) ∷ hex (v % 2 ^ 16) ∷ [])

abbrev pub onto_groups : Text → Option (List Text) → Option (List Text)
onto_groups s none = none
onto_groups s (some groups) = some (s ∷ groups)

-- The groups with a dotted last one written as two.
unfoldable pub undotted : List Text → Option (List Text)
unfolding is_dotted ipv4_number
undotted [] = some []
undotted (s ∷ []) = if is_dotted s then last_groups (ipv4_number s) else some (s ∷ [])
undotted (s ∷ t ∷ groups) = onto_groups s (undotted (t ∷ groups))

-- An empty side has no groups.
abbrev pub groups_of : Text → List Text
groups_of s = if is_empty s then [] else split_on b':' s

abbrev zeros : ℕ → List Text
zeros zero = []
zeros (suc n) = lit "0" ∷ zeros n

-- All groups; `::` stands for those that are missing.
unfoldable pub filled : List Text → Option (List Text)
unfolding split_on
filled (s ∷ []) = if length (groups_of s) == 8 then some (groups_of s) else none
filled (l ∷ r ∷ []) =
    if leb (length (groups_of l) + length (groups_of r)) 8
    then some
        (groups_of l ++ zeros (8 - (length (groups_of l) + length (groups_of r))) ++ groups_of r)
    else none
filled _ = none

abbrev hex_value : ℕ → Option ℕ
hex_value c =
    if leb b'0' c && leb c b'9'
    then some (c - b'0')
    else if leb b'a' c && leb c b'f'
    then some (c - b'a' + 10)
    else none

abbrev shifted : ℕ → Option ℕ → Option ℕ
shifted n none = none
shifted n (some d) = some (n * 16 + d)

-- `parseInt(group, 16)` of hexadecimal digits.
unfoldable pub hex_from : Option ℕ → Text → Option ℕ
hex_from n [] = n
hex_from none (c ∷ s) = none
hex_from (some n) (c ∷ s) = hex_from (shifted n (hex_value c)) s

abbrev pub group_of : Text → Option ℕ
group_of s = if leb 1 (length s) && leb (length s) 4 then hex_from (some 0) s else none

abbrev pub with_group : Option ℕ → Option (List ℕ) → Option (List ℕ)
with_group (some g) (some bytes) = some (g / 2 ^ 8 ∷ g % 2 ^ 8 ∷ bytes)
with_group _ _ = none

unfoldable pub bytes_of : List Text → Option (List ℕ)
unfolding hex_from
bytes_of [] = some []
bytes_of (s ∷ groups) = with_group (group_of s) (bytes_of groups)

abbrev pub eight : List Text → Option (List ℕ)
eight groups = if length groups == 8 then bytes_of groups else none

abbrev pub filled_bytes : Option (List Text) → Option (List ℕ)
filled_bytes none = none
filled_bytes (some groups) = eight groups

abbrev pub normalized_bytes : Option (List Text) → Option (List ℕ)
normalized_bytes none = none
normalized_bytes (some groups) = filled_bytes (filled (split_double (join (lit ":") groups)))

abbrev pub parse_value : Text → Option (List ℕ)
parse_value value =
    if is_empty value || ltb 2 (length (split_double value))
    then none
    else normalized_bytes (undotted (split_on b':' value))

-- parseIpv6
unfoldable pub parse_ipv6 : Text → Option (List ℕ)
unfolding split_double undotted filled bytes_of
parse_ipv6 address = parse_value (first_part (split_on b'%' (map lower_unit address)))

unfoldable pub starts_with : List ℕ → List ℕ → Bool
starts_with bytes [] = true
starts_with [] (p ∷ prefix) = false
starts_with (b ∷ bytes) (p ∷ prefix) = (b == p) && starts_with bytes prefix

abbrev pub dotted : List ℕ → Text
dotted bytes = join (lit ".") (
    show (byte_at 12 bytes)
    ∷ show (byte_at 13 bytes)
    ∷ show (byte_at 14 bytes)
    ∷ show (byte_at 15 bytes)
    ∷ [])

abbrev pub zero_bytes : ℕ → List ℕ
zero_bytes zero = []
zero_bytes (suc n) = 0 ∷ zero_bytes n

-- The tests in the order of the code.
unfoldable pub is_public_bytes : List ℕ → Bool
unfolding starts_with
is_public_bytes bytes =
    if all (λ b. b == 0) bytes || starts_with bytes (zero_bytes 15 ++ 1 ∷ [])
    then false
    else if starts_with bytes (zero_bytes 10 ++ 0xff ∷ 0xff ∷ [])
    then is_public_ipv4 (dotted bytes)
    else if (and_bits 32 (byte_at 0 bytes) 0xfe == 0xfc)
        || (byte_at 0 bytes == 0xfe) && (and_bits 32 (byte_at 1 bytes) 0xc0 == 0x80)
        || (byte_at 0 bytes == 0xff)
    then false
    else if starts_with bytes (0x20 ∷ 0x01 ∷ 0x0d ∷ 0xb8 ∷ [])
        || starts_with bytes (0x20 ∷ 0x01 ∷ 0x00 ∷ 0x02 ∷ [])
    then false
    else if starts_with bytes (0x00 ∷ 0x64 ∷ 0xff ∷ 0x9b ∷ [])
        || starts_with bytes (0x20 ∷ 0x01 ∷ 0x00 ∷ 0x00 ∷ [])
    then false
    else if starts_with bytes (0x20 ∷ 0x02 ∷ [])
    then false
    else and_bits 32 (byte_at 0 bytes) 0xe0 == 0x20

abbrev pub is_public_parsed : Option (List ℕ) → Bool
is_public_parsed none = false
is_public_parsed (some bytes) = is_public_bytes bytes

unfoldable pub is_public_ipv6 : Text → Bool
unfolding parse_ipv6 is_public_bytes
is_public_ipv6 address = is_public_parsed (parse_ipv6 address)

-- What `isIP` answers.
pub data Family : Type 0 where
  v4 v6 neither : Family

abbrev pub is_public_of : Family → Text → Bool
is_public_of v4 address = is_public_ipv4 address
is_public_of v6 address = is_public_ipv6 address
is_public_of neither address = false

unfoldable pub is_public_network_address : (Text → Family) → Text → Bool
unfolding is_public_ipv4 is_public_ipv6
is_public_network_address is_ip address = is_public_of (is_ip address) address
