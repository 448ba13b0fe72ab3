-- ===== src/Uploads/Names.antt =====
-- The names and keys of features/uploaded-file/upload-security.ts and utils.ts. Unicode's decomposition
-- and the removal of diacritics, the bytes of a text in base64url, and `encodeURIComponent` are
-- parameters.
use sdcorejs_nestjs.Base.{
  ℕ, Bool, true, false, not, ◌&&◌, ◌||◌, Option, some, List, [], ◌∷◌, ◌++◌, map, keep, Text,
  text_eq, lit, is_empty, any, has_unit, join, split_on, trim, lower_unit, leb, ◌==◌, if◌then◌else◌,
}
use sdcorejs_nestjs.Uploads.Bytes.{◌>>=◌, ◌>>◌, require, first_bytes}

-- `text || fallback`
abbrev pub or_text : Text → Text → Text
or_text [] fallback = fallback
or_text (c ∷ s) fallback = c ∷ s

-- `.replace(/\\/g, '/')`
abbrev pub forward_unit : ℕ → ℕ
forward_unit c = if c == b'\\' then b'/' else c

abbrev pub last_part : List Text → Text
last_part [] = []
last_part (s ∷ []) = s
last_part (s ∷ t ∷ parts) = last_part (t ∷ parts)

abbrev pub is_printable : ℕ → Bool
is_printable c = leb 32 c && not (c == 127)

abbrev pub leaf_of : Text → Text
leaf_of input = last_part (split_on b'/' (map forward_unit (or_text input (lit "TEMP"))))

-- sanitizeOriginalFileName; no input is the empty one.
unfoldable pub sanitize_original_file_name : Text → Text
unfolding split_on trim
sanitize_original_file_name input =
    or_text (first_bytes 1024 (trim (keep is_printable (leaf_of input)))) (lit "TEMP")

abbrev is_between : ℕ → ℕ → ℕ → Bool
is_between low high c = leb low c && leb c high

-- `[a-zA-Z0-9.\-_]`
abbrev pub is_slug_unit : ℕ → Bool
is_slug_unit c =
    is_between b'a' b'z' c
    || is_between b'A' b'Z' c
    || is_between b'0' b'9' c
    || (c == b'.')
    || (c == b'-')
    || (c == b'_')

abbrev pub is_slug_start : Text → Bool
is_slug_start [] = true
is_slug_start (c ∷ s) = is_slug_unit c

-- Each run of other units becomes one dash; a unit of a run counts if the run ends with it.
unfoldable pub dash_runs : Text → Text
dash_runs [] = []
dash_runs (c ∷ s) =
    let rest = dash_runs s in
    if is_slug_unit c then c ∷ rest else if is_slug_start s then b'-' ∷ rest else rest

abbrev pub starts_with_dash : Text → Bool
starts_with_dash [] = false
starts_with_dash (c ∷ s) = c == b'-'

-- `.replace(/-+/g, '-')`
unfoldable pub single_dashes : Text → Text
single_dashes [] = []
single_dashes (c ∷ s) =
    let rest = single_dashes s in if (c == b'-') && starts_with_dash s then rest else c ∷ rest

abbrev pub without_first_dash : Text → Text
without_first_dash [] = []
without_first_dash (c ∷ s) = if c == b'-' then s else c ∷ s

abbrev pub without_last_dash : Text → Text
without_last_dash [] = []
without_last_dash (c ∷ []) = if c == b'-' then [] else c ∷ []
without_last_dash (c ∷ d ∷ s) = c ∷ without_last_dash (d ∷ s)

-- The letters with a stroke.
abbrev pub unstroked : ℕ → ℕ
unstroked c = if c == 0x111 then b'd' else if c == 0x110 then b'D' else c

abbrev pub without_slashes : Text → Text
without_slashes [] = []
without_slashes (c ∷ s) = let rest = without_slashes s in if c == b'/' then rest else c ∷ s

-- `.replace(/\/+$/g, '')`
abbrev pub without_last_slashes : Text → Text
without_last_slashes [] = []
without_last_slashes (c ∷ s) =
    let rest = without_last_slashes s in if (c == b'/') && is_empty rest then [] else c ∷ rest

unfoldable pub is_unsafe_part : Text → Bool
unfolding text_eq has_unit
is_unsafe_part part =
    is_empty part || text_eq part (lit ".") || text_eq part (lit "..") || has_unit 0 part

-- GeneratedStorageKey
pub record GeneratedStorageKey : Type 0 where
  pub id : Text
  pub key : Text
  pub original_name : Text

module _ (strip_diacritics : Text → Text) where
  unfoldable pub slugify : Text → Text
  unfolding dash_runs single_dashes lower_unit
  slugify input = map lower_unit (
      without_last_dash (
        without_first_dash (
          single_dashes
            (dash_runs (map unstroked (strip_diacritics (or_text input (lit "TEMP"))))))))

  abbrev pub prefix_parts : Text → List Text
  prefix_parts input =
      split_on b'/'
        (without_last_slashes (without_slashes (map forward_unit (or_text input (lit "core")))))

  -- normalizeStoragePrefix; `none` if it throws.
  unfoldable pub normalize_storage_prefix : Text → Option Text
  unfolding split_on is_unsafe_part slugify join
  normalize_storage_prefix input = do
    require (not (any is_unsafe_part (prefix_parts input)))
    require (not (any is_empty (map slugify (prefix_parts input))))
    some (join (lit "/") (map slugify (prefix_parts input)))

  -- buildStorageKeyForId; the tenant's name comes in base64url.
  unfoldable pub build_storage_key_for_id :
      Text → Text → Text → Text → Text → Option GeneratedStorageKey
  unfolding normalize_storage_prefix sanitize_original_file_name slugify join
  build_storage_key_for_id prefix tenant id file_name namespace = do
    normalized ← normalize_storage_prefix prefix
    require (not (is_empty tenant))
    some (record {
      id = id;
      key = join (lit "/") (
          normalized
          ∷ namespace
          ∷ tenant
          ∷ id
          ∷ or_text (first_bytes 240 (slugify (sanitize_original_file_name file_name))) (lit "file")
          ∷ []);
      original_name = sanitize_original_file_name file_name;
    })

-- `.replace(/[^\x20-\x7e]|["\\]/g, '_')`
abbrev pub quotable : ℕ → ℕ
quotable c = if leb 0x20 c && leb c 0x7e && not (c == b'"') && not (c == b'\\') then c else b'_'

unfoldable pub content_disposition : (Text → Text) → Text → Text → Text
unfolding sanitize_original_file_name
content_disposition encode_uri_component file_name disposition =
    disposition
    ++ lit "; filename=\""
    ++ map quotable (sanitize_original_file_name file_name)
    ++ lit "\"; filename*=UTF-8''"
    ++ encode_uri_component (sanitize_original_file_name file_name)
