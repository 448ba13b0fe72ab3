-- ===== src/Uploads/Security.antt =====
-- The validation of uploads by features/uploaded-file/upload-security.ts. A thrown
-- UploadedFileSecurityError is `none`. Strict decoding of UTF-8, JSON's parser and `toLowerCase` are
-- parameters; an extension that every object has as a property is refused here, too.
use sdcorejs_nestjs.Base.{
  ℕ, ◌%◌, Bool, true, false, not, ◌&&◌, ◌||◌, Option, none, some, List, [], ◌∷◌, map, is_some,
  lookup, Text, text_eq, lit, length, is_empty, any, includes, split_on, trim, ltb, leb, ◌==◌,
  if◌then◌else◌,
}
use sdcorejs_nestjs.Uploads.Bytes.{◌>>=◌, ◌>>◌, require, slice}
use sdcorejs_nestjs.Uploads.Address6.{starts_with, first_part}
use sdcorejs_nestjs.Uploads.Ooxml.{validate_ooxml_container}
use sdcorejs_nestjs.Uploads.Names.{or_text, last_part, sanitize_original_file_name}

-- What the platform offers.
pub record Codecs : Type 0 where
  pub decode_utf8 : List ℕ → Option Text
  pub is_json : List ℕ → Bool
  pub to_lower_case : Text → Text

abbrev pub word_type : Text
word_type = lit "application/vnd.openxmlformats-officedocument.wordprocessingml.document"

abbrev pub sheet_type : Text
sheet_type = lit "application/vnd.openxmlformats-officedocument.spreadsheetml.sheet"

abbrev pub slides_type : Text
slides_type = lit "application/vnd.openxmlformats-officedocument.presentationml.presentation"

abbrev pub zip_type : Text
zip_type = lit "application/zip"

-- OOXML_MIME_MAIN_PART
unfoldable pub main_part_of : Text → Option Text
unfolding lookup
main_part_of mime = lookup mime (
    (word_type, lit "word/document.xml")
    ∷ (sheet_type, lit "xl/workbook.xml")
    ∷ (slides_type, lit "ppt/presentation.xml")
    ∷ [])

-- EXTENSION_MIME
unfoldable pub extension_mime : Text → Option Text
unfolding lookup
extension_mime extension = lookup extension (
    (lit "csv", lit "text/csv")
    ∷ (lit "docx", word_type)
    ∷ (lit "gif", lit "image/gif")
    ∷ (lit "jpeg", lit "image/jpeg")
    ∷ (lit "jpg", lit "image/jpeg")
    ∷ (lit "json", lit "application/json")
    ∷ (lit "pdf", lit "application/pdf")
    ∷ (lit "png", lit "image/png")
    ∷ (lit "pptx", slides_type)
    ∷ (lit "txt", lit "text/plain")
    ∷ (lit "webp", lit "image/webp")
    ∷ (lit "xlsx", sheet_type)
    ∷ (lit "zip", zip_type)
    ∷ [])

-- `toString('ascii')`, which drops the highest bit of each byte.
abbrev pub ascii : List ℕ → Text
ascii = map (λ b. b % 128)

unfoldable pub detect_strong_mime : List ℕ → Option Text
unfolding starts_with
detect_strong_mime buffer =
    if starts_with buffer (0x89 ∷ 0x50 ∷ 0x4e ∷ 0x47 ∷ 0x0d ∷ 0x0a ∷ 0x1a ∷ 0x0a ∷ [])
    then some (lit "image/png")
    else if starts_with buffer (0xff ∷ 0xd8 ∷ 0xff ∷ [])
    then some (lit "image/jpeg")
    else if starts_with (ascii buffer) (lit "GIF87a") || starts_with (ascii buffer) (lit "GIF89a")
    then some (lit "image/gif")
    else if starts_with (ascii buffer) (lit "RIFF")
        && starts_with (ascii (slice 8 4 buffer)) (lit "WEBP")
    then some (lit "image/webp")
    else if starts_with (ascii buffer) (lit "%PDF-")
    then some (lit "application/pdf")
    else if starts_with buffer (0x50 ∷ 0x4b ∷ 0x03 ∷ 0x04 ∷ [])
        || starts_with buffer (0x50 ∷ 0x4b ∷ 0x05 ∷ 0x06 ∷ [])
    then some zip_type
    else none

-- ValidatedUpload
pub record ValidatedUpload : Type 0 where
  pub content_type : Text
  pub original_name : Text

-- The type that the bytes speak for; a package of the extension's type is a zip.
abbrev pub detected_type : Option Text → Text → Text
detected_type none by_extension = by_extension
detected_type (some strong) by_extension =
    if text_eq strong zip_type && is_some (main_part_of by_extension) then by_extension else strong

abbrev pub is_compatible : Option Text → Text → Bool
is_compatible none content_type = true
is_compatible (some strong) content_type =
    text_eq strong content_type || text_eq strong zip_type && is_some (main_part_of content_type)

module _ (codecs : Codecs) where
  unfoldable pub is_valid_utf8_text : List ℕ → Bool
  is_valid_utf8_text buffer = not (any (λ b. b == 0) buffer) && is_some (codecs.decode_utf8 buffer)

  abbrev pub is_plain : List ℕ → Text → Bool
  is_plain buffer mime =
      if text_eq mime (lit "application/json")
      then is_valid_utf8_text buffer && codecs.is_json buffer
      else if text_eq mime (lit "text/plain") || text_eq mime (lit "text/csv")
      then is_valid_utf8_text buffer
      else false

  abbrev pub matches_strong : List ℕ → Text → Option Text → Bool
  matches_strong buffer mime none = is_plain buffer mime
  matches_strong buffer mime (some strong) = text_eq strong mime

  abbrev pub matches_container : List ℕ → Text → Option Text → Bool
  matches_container buffer mime none = matches_strong buffer mime (detect_strong_mime buffer)
  matches_container buffer mime (some main_part) =
      validate_ooxml_container codecs.decode_utf8 buffer main_part

  unfoldable pub validate_practical_signature : List ℕ → Text → Bool
  unfolding main_part_of detect_strong_mime is_valid_utf8_text text_eq validate_ooxml_container
  validate_practical_signature buffer mime = matches_container buffer mime (main_part_of mime)

  abbrev pub extension_of : Text → Text
  extension_of name = last_part (split_on b'.' (codecs.to_lower_case name))

  abbrev pub declared_type : Text → Text
  declared_type declared = codecs.to_lower_case (trim (first_part (split_on b';' declared)))

  abbrev pub is_allowed : List Text → Text → Bool
  is_allowed allowed content_type = includes (map codecs.to_lower_case allowed) content_type

  -- validateUploadBuffer; a name or a type that is absent is the empty one.
  unfoldable pub validate_upload_buffer :
      List ℕ → Text → Text → List Text → Bool → ℕ → Option ValidatedUpload
  unfolding sanitize_original_file_name extension_mime detect_strong_mime
      validate_practical_signature includes split_on trim main_part_of text_eq
  validate_upload_buffer buffer file_name declared allowed validate_signature max_bytes = do
    require (not (is_empty buffer))
    require (leb (length buffer) max_bytes)
    by_extension ← extension_mime (extension_of (sanitize_original_file_name file_name))
    content_type ←
        some (
          or_text (declared_type declared) (detected_type (detect_strong_mime buffer) by_extension))
    require (is_allowed allowed content_type)
    require (text_eq by_extension content_type)
    require (is_compatible (detect_strong_mime buffer) content_type)
    require (not validate_signature || validate_practical_signature buffer content_type)
    some (record {
      content_type = content_type;
      original_name = sanitize_original_file_name file_name;
    })

  -- validateUploadMetadata, of a size that is an integer.
  unfoldable pub validate_upload_metadata : Text → Text → ℕ → List Text → ℕ → Option ValidatedUpload
  unfolding sanitize_original_file_name extension_mime includes split_on trim text_eq
  validate_upload_metadata file_name declared size allowed max_bytes = do
    require (ltb 0 size && leb size max_bytes)
    by_extension ← extension_mime (extension_of (sanitize_original_file_name file_name))
    content_type ← some (declared_type declared)
    require (not (is_empty content_type))
    require (is_allowed allowed content_type)
    require (text_eq by_extension content_type)
    some (record {
      content_type = content_type;
      original_name = sanitize_original_file_name file_name;
    })
