-- ===== src/Uploads/ContainerTests.antt =====
-- Runs of the checks on an upload that is an OOXML container.
use sdcorejs_nestjs.Base.{
  ℕ, ◌/◌, ◌%◌, ◌++◌, length, has_unit, lookup, ◌≡◌, refl, true, none, some, List, [], ◌∷◌, Text,
  lit, text_eq, split_on, join, lower_unit, map, includes, is_space, trim_left, trim,
}
use sdcorejs_nestjs.Uploads.Address.{and_bits}
use sdcorejs_nestjs.Uploads.Address6.{starts_with}
use sdcorejs_nestjs.Uploads.Bytes.{read_u16, read_u32, add_within_limit}
use sdcorejs_nestjs.Uploads.Archive.{
  is_end_record, find_end, is_single_disk, read_directory, read_header, is_supported, is_bounded,
  read_local_header, agrees,
}
use sdcorejs_nestjs.Uploads.Ooxml.{
  is_relative_path, is_bad_part, canonical_entry_name, check_local, decode_entry_name, check_entry,
  check_entries, scan_container, validate_ooxml_container,
}
use sdcorejs_nestjs.Uploads.Contained.{IsContainer, validate_ooxml_container-IsContainer}
use sdcorejs_nestjs.Uploads.Names.{
  sanitize_original_file_name, dash_runs, single_dashes, is_unsafe_part, slugify,
  normalize_storage_prefix,
}
use sdcorejs_nestjs.Uploads.Security.{
  Codecs, word_type, main_part_of, extension_mime, detect_strong_mime, ValidatedUpload,
  validate_practical_signature, validate_upload_buffer,
}
use sdcorejs_nestjs.Uploads.Accepted.{IsAccepted, validate_upload_buffer-IsAccepted}

-- A stored container with two empty parts.
abbrev le16 : ℕ → List ℕ
le16 n = n % 256 ∷ n / 256 ∷ []

abbrev le32 : ℕ → List ℕ
le32 n = le16 (n % 65536) ++ le16 (n / 65536)

abbrev local_entry : Text → List ℕ
local_entry name =
    le32 0x04034b50
    ++ le16 20
    ++ le16 0
    ++ le16 0
    ++ le32 0
    ++ le32 0
    ++ le32 0
    ++ le32 0
    ++ le16 (length name)
    ++ le16 0
    ++ name

abbrev central_entry : Text → ℕ → List ℕ
central_entry name offset =
    le32 0x02014b50
    ++ le16 20
    ++ le16 20
    ++ le16 0
    ++ le16 0
    ++ le32 0
    ++ le32 0
    ++ le32 0
    ++ le32 0
    ++ le16 (length name)
    ++ le16 0
    ++ le16 0
    ++ le16 0
    ++ le16 0
    ++ le32 0
    ++ le32 offset
    ++ name

abbrev types_part : Text
types_part = lit "[Content_Types].xml"

abbrev main_part : Text
main_part = lit "word/document.xml"

abbrev container : List ℕ
container =
    local_entry types_part
    ++ local_entry main_part
    ++ central_entry types_part 0
    ++ central_entry main_part 49
    ++ (le32 0x06054b50 ++ le16 0 ++ le16 0 ++ le16 2 ++ le16 2 ++ le32 128 ++ le32 96 ++ le16 0)

container_run : validate_ooxml_container (λ bytes. none) container main_part ≡ true
unfolding validate_ooxml_container scan_container read_directory find_end is_end_record read_u16
    read_u32 is_single_disk add_within_limit check_entries check_entry read_header is_supported
    is_bounded decode_entry_name is_relative_path has_unit canonical_entry_name is_bad_part split_on
    join includes text_eq check_local read_local_header agrees and_bits
container_run = refl

validate_ooxml_container-IsContainer_example : IsContainer (λ bytes. none) container main_part
validate_ooxml_container-IsContainer_example =
    validate_ooxml_container-IsContainer (λ bytes. none) container main_part container_run

abbrev codecs : Codecs
codecs = record {
  decode_utf8 = λ bytes. some bytes;
  is_json = λ bytes. true;
  to_lower_case = map lower_unit;
}

abbrev allowed_types : List Text
allowed_types = word_type ∷ []

abbrev accepted : ValidatedUpload
accepted = record { content_type = word_type; original_name = lit "Plan.docx" }

upload_run :
    validate_upload_buffer codecs container (lit "C:\\docs\\Plan.docx") [] allowed_types true 1000
    ≡ some accepted
unfolding validate_upload_buffer sanitize_original_file_name extension_mime detect_strong_mime
    validate_practical_signature main_part_of trim trim_left is_space lower_unit lookup starts_with
    validate_ooxml_container scan_container read_directory find_end is_end_record read_u16 read_u32
    is_single_disk add_within_limit check_entries check_entry read_header is_supported is_bounded
    decode_entry_name is_relative_path has_unit canonical_entry_name is_bad_part split_on join
    includes text_eq check_local read_local_header agrees and_bits
upload_run = refl

validate_upload_buffer-IsAccepted_example :
    IsAccepted codecs container (lit "C:\\docs\\Plan.docx") allowed_types true 1000 accepted
validate_upload_buffer-IsAccepted_example =
    validate_upload_buffer-IsAccepted codecs container (lit "C:\\docs\\Plan.docx") [] allowed_types
      true 1000 accepted upload_run

-- A part of the prefix that becomes two dots only after the check for them.
prefix_run : normalize_storage_prefix (λ s. s) (lit "core/-..") ≡ some (lit "core/..")
unfolding normalize_storage_prefix split_on is_unsafe_part slugify dash_runs single_dashes
    lower_unit text_eq has_unit join
prefix_run = refl

-- The bytes of `GIF87a` with the highest bit of each set.
high_bit_run :
    detect_strong_mime (0xc7 ∷ 0xc9 ∷ 0xc6 ∷ 0xb8 ∷ 0xb7 ∷ 0xe1 ∷ []) ≡ some (lit "image/gif")
unfolding detect_strong_mime starts_with
high_bit_run = refl
