-- ===== src/Publication/Intent.antt =====
-- The descriptors of features/uploaded-file/publication/types.ts and their checks in
-- features/uploaded-file/publication/coordinator.ts. TypeScript's types are taken at their word: a
-- field declared a string is a text and a number is a natural number.
use sdcorejs_nestjs.Base.{
  ℕ, Bool, true, false, not, ◌&&◌, ◌||◌, Option, none, some, List, [], ◌∷◌, ◌++◌, Text, lit, length,
  is_empty, any, all, trim, has_unit, text_eq, Result, ok, err, ◌>>=◌, ◌>>◌, guard, leb, ltb, ◌==◌,
  split_on, if◌then◌else◌, ◌/◌, ◌%◌, ◌+◌, ◌*◌, ◌-◌,
}

-- The codes of UploadedFilePublicationError.
pub data Code : Type 0 where
  invalid_descriptor not_configured namespace_denied policy_denied generation_conflict deadline :
      Code

-- What a call may throw: an error with a code, or anything else.
pub data Failure : Type 0 where
  publication : Code → Failure
  foreign : Failure

abbrev pub Checked : Type 0 → Type 0
Checked = Result Failure

abbrev pub fail : {A : Type 0} → Code → Checked A
fail code = err (publication code)

abbrev pub max_safe : ℕ
max_safe = 9007199254740991

pub record Binding : Type 0 where
  pub environment : Text
  pub module_name : Text
  pub scope_id : Text
  pub binding_id : Text
  pub generation : Text

pub record Source : Type 0 where
  pub id : Text
  pub version : Text
  pub locator : Text
  pub sha256 : Text
  pub size : ℕ
  pub content_type : Text

-- `external` tells whether the delivery mode is 'external'.
pub record Target : Type 0 where
  pub key : Text
  pub url : Text
  pub external : Bool

pub record Intent : Type 0 where
  pub id : Text
  pub binding : Binding
  pub source : Source
  pub target : Target
  pub descriptor_hash : Text
  pub created_at : ℕ

unfoldable pub has_control_character : Text → Bool
has_control_character s = any (λ c. leb c 31 || (c == 127)) s

-- encodeURIComponent, and `none` where it throws on a surrogate that stands alone.
unfoldable pub is_unreserved : ℕ → Bool
is_unreserved c =
    (leb b'a' c && leb c b'z')
    || (leb b'A' c && leb c b'Z')
    || (leb b'0' c && leb c b'9')
    || has_unit c (lit "-_.!~*'()")

unfoldable pub hex_digit : ℕ → ℕ
hex_digit d = if ltb d 10 then b'0' + d else 55 + d

unfoldable pub percent_byte : ℕ → Text
unfolding hex_digit
percent_byte b = b'%' ∷ hex_digit (b / 16) ∷ hex_digit (b % 16) ∷ []

abbrev pub continuation : ℕ → ℕ → Text
continuation p weight = percent_byte (128 + p / weight % 64)

-- The UTF-8 bytes of a code point.
unfoldable pub percent_point : ℕ → Text
unfolding percent_byte
percent_point p =
    if ltb p 0x80
    then percent_byte p
    else if ltb p 0x800
    then percent_byte (192 + p / 64) ++ continuation p 1
    else if ltb p 0x10000
    then percent_byte (224 + p / 4096) ++ continuation p 64 ++ continuation p 1
    else percent_byte (240 + p / 262144)
      ++ continuation p 4096
      ++ continuation p 64
      ++ continuation p 1

abbrev pub is_high : ℕ → Bool
is_high c = leb 0xd800 c && ltb c 0xdc00

abbrev pub is_low : ℕ → Bool
is_low c = leb 0xdc00 c && ltb c 0xe000

abbrev pub before : Text → Option Text → Option Text
before s none = none
before s (some t) = some (s ++ t)

-- The first argument is a high surrogate that waits for its low one.
unfoldable pub encode_from : Option ℕ → Text → Option Text
unfolding is_unreserved percent_point
encode_from none [] = some []
encode_from (some h) [] = none
encode_from none (c ∷ s) =
    let rest = encode_from (if is_high c then some c else none) s in
    if is_high c
    then rest
    else if is_low c
    then none
    else if is_unreserved c
    then before (c ∷ []) rest
    else before (percent_point c) rest
encode_from (some h) (c ∷ s) =
    let rest = encode_from none s in
    if is_low c
    then before (percent_point (0x10000 + (h - 0xd800) * 1024 + (c - 0xdc00))) rest
    else none

unfoldable pub encode_component : Text → Checked Text
unfolding encode_from
encode_component s = elim (encode_from none s) [ none ↦ err foreign | some t ↦ ok t ]

-- encodeURIComponent's own error is replaced by `part`'s.
abbrev is_encodable : Text → Bool
is_encodable s = elim (encode_from none s) [ none ↦ false | some t ↦ true ]

unfoldable pub is_part : Text → Bool
unfolding has_control_character encode_from
is_part value =
    not (is_empty value)
    && text_eq value (trim value)
    && leb (length value) 256
    && not (has_unit b'/' value)
    && not (has_unit b'\\' value)
    && not (has_control_character value)
    && not (text_eq value (lit "."))
    && not (text_eq value (lit ".."))
    && is_encodable value

unfoldable pub part : Text → Checked Text
unfolding is_part
part value = if is_part value then ok value else fail invalid_descriptor

-- publicationBinding
unfoldable pub checked_binding : Binding → Checked Binding
unfolding part
checked_binding value = do
  environment ← part value.environment
  module_name ← part value.module_name
  scope_id ← part value.scope_id
  binding_id ← part value.binding_id
  generation ← part value.generation
  ok (record {
    environment = environment;
    module_name = module_name;
    scope_id = scope_id;
    binding_id = binding_id;
    generation = generation;
  })

unfoldable pub is_alphanumeric : ℕ → Bool
is_alphanumeric c = (leb b'a' c && leb c b'z') || (leb b'0' c && leb c b'9')

-- `[a-z0-9][a-z0-9.+-]*`
unfoldable pub is_token : Text → Bool
unfolding is_alphanumeric
is_token [] = false
is_token (c ∷ s) = is_alphanumeric c && all (λ d. is_alphanumeric d || has_unit d (lit ".+-")) s

abbrev two_tokens : List Text → Bool
two_tokens (kind ∷ subtype ∷ []) = is_token kind && is_token subtype
two_tokens _ = false

unfoldable pub is_content_type : Text → Bool
unfolding is_token
is_content_type s = two_tokens (split_on b'/' s)

-- `/^[a-f0-9]{64}$/`
unfoldable pub is_digest : Text → Bool
is_digest s =
    (length s == 64) && all (λ c. (leb b'a' c && leb c b'f') || (leb b'0' c && leb c b'9')) s

unfoldable pub is_source : Source → Bool
unfolding has_control_character is_digest is_content_type
is_source value =
    not (is_empty value.locator)
    && leb (length value.locator) 2048
    && not (has_control_character value.locator)
    && is_digest value.sha256
    && leb value.size max_safe
    && ltb 0 value.size
    && is_content_type value.content_type

-- publicationSource
unfoldable pub checked_source : Source → Checked Source
unfolding is_source part
checked_source value = do
  guard (is_source value) (publication invalid_descriptor)
  id ← part value.id
  version ← part value.version
  ok (record {
    id = id;
    version = version;
    locator = value.locator;
    sha256 = value.sha256;
    size = value.size;
    content_type = value.content_type;
  })
