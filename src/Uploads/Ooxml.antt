-- ===== src/Uploads/Ooxml.antt =====
-- validateOoxmlContainer of features/uploaded-file/ooxml-security.ts over the records of Archive. Strict
-- decoding of UTF-8 is a parameter.
use sdcorejs_nestjs.Base.{
  ℕ, zero, suc, ◌+◌, Bool, false, not, ◌&&◌, ◌||◌, Option, some, List, [], ◌∷◌, ◌++◌, is_some, Text,
  text_eq, lit, is_empty, any, includes, has_unit, join, split_on, ltb, leb, ◌==◌, if◌then◌else◌,
}
use sdcorejs_nestjs.Uploads.Address.{and_bits}
use sdcorejs_nestjs.Uploads.Bytes.{◌>>=◌, ◌>>◌, require, read_u32, slice, add_within_limit}
use sdcorejs_nestjs.Uploads.Archive.{
  max_total_bytes, Directory, read_directory, Header, read_header, is_supported, is_bounded,
  read_local_header, agrees,
}

abbrev is_letter : ℕ → Bool
is_letter c = leb b'A' c && leb c b'Z' || leb b'a' c && leb c b'z'

-- `/^[A-Za-z]:/`
abbrev pub has_drive : Text → Bool
has_drive (c ∷ d ∷ s) = is_letter c && (d == b':')
has_drive s = false

abbrev pub is_absolute : Text → Bool
is_absolute [] = false
is_absolute (c ∷ s) = c == b'/'

unfoldable pub is_relative_path : Text → Bool
unfolding has_unit
is_relative_path name =
    not (has_unit 0 name)
    && not (has_unit b'\\' name)
    && not (is_absolute name)
    && not (has_drive name)

abbrev pub is_ascii : List ℕ → Bool
is_ascii bytes = not (any (λ b. ltb b 0x20 || ltb 0x7e b) bytes)

abbrev ends_in_slash : Text → Bool
ends_in_slash [] = false
ends_in_slash (c ∷ []) = c == b'/'
ends_in_slash (c ∷ d ∷ s) = ends_in_slash (d ∷ s)

abbrev pub without_last : List Text → List Text
without_last [] = []
without_last (s ∷ []) = []
without_last (s ∷ t ∷ parts) = s ∷ without_last (t ∷ parts)

abbrev pub parts_of : Text → List Text
parts_of name = if ends_in_slash name then without_last (split_on b'/' name) else split_on b'/' name

-- An empty part, `.` or `..`
unfoldable pub is_bad_part : Text → Bool
unfolding text_eq
is_bad_part part = is_empty part || text_eq part (lit ".") || text_eq part (lit "..")

abbrev pub rejoined : Text → Text
rejoined name = join (lit "/") (parts_of name) ++ (if ends_in_slash name then lit "/" else [])

unfoldable pub canonical_entry_name : Text → Option Text
unfolding is_bad_part split_on join
canonical_entry_name name = do
  require (not (is_empty (parts_of name)) && not (any is_bad_part (parts_of name)))
  some (rejoined name)

-- The local header has to lie before the central directory, and the data too.
unfoldable pub check_local : List ℕ → Directory → Header → List ℕ → Option ℕ
unfolding read_u32 read_local_header agrees text_eq add_within_limit
check_local buffer directory h name_bytes = do
  require (leb (h.local_offset + 30) directory.start)
  signature ← read_u32 buffer h.local_offset
  require (signature == 0x04034b50)
  l ← read_local_header buffer h.local_offset
  require (agrees h l)
  name_end ← add_within_limit (h.local_offset + 30) l.name_length directory.start
  require (text_eq (slice (h.local_offset + 30) l.name_length buffer) name_bytes)
  data_start ← add_within_limit name_end l.extra_length directory.start
  add_within_limit data_start h.compressed directory.start

-- What the loop over the entries has found so far.
pub record Scan : Type 0 where
  pub names : List Text
  pub total : ℕ
  pub offset : ℕ

abbrev pub first_scan : Directory → Scan
first_scan directory = record { names = []; total = 0; offset = directory.start }

module _ (decode_utf8 : List ℕ → Option Text) where
  unfoldable pub decode_entry_name : List ℕ → ℕ → Option Text
  unfolding and_bits is_relative_path
  decode_entry_name bytes flags = do
    require (not (is_empty bytes))
    name ←
        (if and_bits 32 flags 0x0800 == 0
          then require (is_ascii bytes) >> some bytes
          else decode_utf8 bytes)
    require (is_relative_path name)
    some name

  unfoldable pub check_entry : List ℕ → Directory → Scan → Option Scan
  unfolding read_u32 read_header is_supported add_within_limit decode_entry_name
      canonical_entry_name includes is_bounded check_local
  check_entry buffer directory s = do
    require (leb (s.offset + 46) directory.finish)
    signature ← read_u32 buffer s.offset
    require (signature == 0x02014b50)
    h ← read_header buffer s.offset
    require (is_supported h)
    next ←
        add_within_limit (s.offset + 46) (h.name_length + h.extra_length + h.comment_length)
          directory.finish
    decoded ← decode_entry_name (slice (s.offset + 46) h.name_length buffer) h.flags
    name ← canonical_entry_name decoded
    require (not (includes s.names name))
    require (is_bounded h)
    total ← add_within_limit s.total h.uncompressed max_total_bytes
    end_of_data ← check_local buffer directory h (slice (s.offset + 46) h.name_length buffer)
    some (record { names = name ∷ s.names; total = total; offset = next })

  unfoldable pub check_entries : List ℕ → Directory → ℕ → Scan → Option Scan
  unfolding check_entry
  check_entries buffer directory zero s = some s
  check_entries buffer directory (suc n) s =
      check_entry buffer directory s >>= check_entries buffer directory n

  unfoldable pub scan_container : List ℕ → Text → Option Scan
  unfolding read_directory check_entries includes
  scan_container buffer main_part = do
    directory ← read_directory buffer
    s ← check_entries buffer directory directory.entries (first_scan directory)
    require (s.offset == directory.finish)
    require (includes s.names (lit "[Content_Types].xml"))
    require (includes s.names main_part)
    some s

  unfoldable pub validate_ooxml_container : List ℕ → Text → Bool
  unfolding scan_container
  validate_ooxml_container buffer main_part = is_some (scan_container buffer main_part)
