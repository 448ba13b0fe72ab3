-- ===== src/Uploads/Archive.antt =====
-- The records of a ZIP archive as features/uploaded-file/ooxml-security.ts reads them. A read that
-- throws and an archive that is refused are both `none`: the code answers false.
use sdcorejs_nestjs.Base.{
  ℕ, zero, suc, ◌+◌, ◌-◌, ◌*◌, Bool, false, not, ◌&&◌, ◌||◌, Option, none, some, List, length, ltb,
  leb, ◌==◌, if◌then◌else◌, min,
}
use sdcorejs_nestjs.Uploads.Address.{and_bits}
use sdcorejs_nestjs.Uploads.Bytes.{◌>>=◌, ◌>>◌, require, read_u16, read_u32, add_within_limit}

abbrev pub max_entries : ℕ
max_entries = 2048

abbrev pub max_total_bytes : ℕ
max_total_bytes = 100 * 1024 * 1024

abbrev pub max_entry_bytes : ℕ
max_entry_bytes = 50 * 1024 * 1024

abbrev pub max_ratio : ℕ
max_ratio = 100

abbrev pub is_value : Option ℕ → ℕ → Bool
is_value none n = false
is_value (some m) n = m == n

-- The candidates are inside the buffer, so that no read of the search throws.
unfoldable pub is_end_record : List ℕ → ℕ → Bool
unfolding read_u16 read_u32
is_end_record buffer offset =
    is_value (read_u32 buffer offset) 0x06054b50
    && is_value (read_u16 buffer (offset + 20)) (length buffer - (offset + 22))

-- The search from the last candidate down, over a number of candidates.
unfoldable pub find_end : List ℕ → ℕ → ℕ → Option ℕ
unfolding is_end_record
find_end buffer zero offset = none
find_end buffer (suc n) offset =
    let rest = find_end buffer n (offset - 1) in
    if is_end_record buffer offset then some offset else rest

abbrev pub find_end_record : List ℕ → Option ℕ
find_end_record buffer =
    if ltb (length buffer) 22
    then none
    else find_end buffer (min (length buffer - 22) 0xffff + 1) (length buffer - 22)

-- The central directory: where it starts, where it ends, and its number of entries.
pub record Directory : Type 0 where
  pub start : ℕ
  pub finish : ℕ
  pub entries : ℕ

unfoldable pub is_single_disk : ℕ → ℕ → ℕ → ℕ → ℕ → ℕ → Bool
is_single_disk disk directory_disk on_disk total size start =
    (disk == 0)
    && (directory_disk == 0)
    && (on_disk == total)
    && not (total == 0xffff)
    && not (size == 0xffffffff)
    && not (start == 0xffffffff)
    && leb total max_entries

unfoldable pub read_directory : List ℕ → Option Directory
unfolding find_end read_u16 read_u32 is_single_disk add_within_limit
read_directory buffer = do
  end ← find_end_record buffer
  disk ← read_u16 buffer (end + 4)
  directory_disk ← read_u16 buffer (end + 6)
  on_disk ← read_u16 buffer (end + 8)
  total ← read_u16 buffer (end + 10)
  size ← read_u32 buffer (end + 12)
  start ← read_u32 buffer (end + 16)
  require (is_single_disk disk directory_disk on_disk total size start)
  finish ← add_within_limit start size end
  require (finish == end)
  some (record { start = start; finish = finish; entries = total })

-- The fields of an entry of the central directory.
pub record Header : Type 0 where
  pub flags : ℕ
  pub method : ℕ
  pub compressed : ℕ
  pub uncompressed : ℕ
  pub name_length : ℕ
  pub extra_length : ℕ
  pub comment_length : ℕ
  pub disk_start : ℕ
  pub local_offset : ℕ

unfoldable pub read_header : List ℕ → ℕ → Option Header
unfolding read_u16 read_u32
read_header buffer offset = do
  flags ← read_u16 buffer (offset + 8)
  method ← read_u16 buffer (offset + 10)
  compressed ← read_u32 buffer (offset + 20)
  uncompressed ← read_u32 buffer (offset + 24)
  name_length ← read_u16 buffer (offset + 28)
  extra_length ← read_u16 buffer (offset + 30)
  comment_length ← read_u16 buffer (offset + 32)
  disk_start ← read_u16 buffer (offset + 34)
  local_offset ← read_u32 buffer (offset + 42)
  some (record {
    flags = flags;
    method = method;
    compressed = compressed;
    uncompressed = uncompressed;
    name_length = name_length;
    extra_length = extra_length;
    comment_length = comment_length;
    disk_start = disk_start;
    local_offset = local_offset;
  })

unfoldable pub is_supported : Header → Bool
unfolding and_bits
is_supported h =
    (and_bits 32 h.flags 0x2041 == 0)
    && ((h.method == 0) || (h.method == 8))
    && not (h.compressed == 0xffffffff)
    && not (h.uncompressed == 0xffffffff)
    && (h.disk_start == 0)
    && not (h.local_offset == 0xffffffff)

-- `uncompressed / compressed > 100` is `uncompressed > 100 * compressed`.
unfoldable pub is_bounded : Header → Bool
is_bounded h =
    leb h.uncompressed max_entry_bytes
    && not (ltb 0 h.uncompressed && (h.compressed == 0))
    && not (ltb 0 h.compressed && ltb (max_ratio * h.compressed) h.uncompressed)

-- The fields of an entry's local header.
pub record LocalHeader : Type 0 where
  pub flags : ℕ
  pub method : ℕ
  pub compressed : ℕ
  pub uncompressed : ℕ
  pub name_length : ℕ
  pub extra_length : ℕ

unfoldable pub read_local_header : List ℕ → ℕ → Option LocalHeader
unfolding read_u16 read_u32
read_local_header buffer offset = do
  flags ← read_u16 buffer (offset + 6)
  method ← read_u16 buffer (offset + 8)
  compressed ← read_u32 buffer (offset + 18)
  uncompressed ← read_u32 buffer (offset + 22)
  name_length ← read_u16 buffer (offset + 26)
  extra_length ← read_u16 buffer (offset + 28)
  some (record {
    flags = flags;
    method = method;
    compressed = compressed;
    uncompressed = uncompressed;
    name_length = name_length;
    extra_length = extra_length;
  })

-- Sizes that follow the data in a descriptor are not compared.
unfoldable pub agrees : Header → LocalHeader → Bool
unfolding and_bits
agrees h l =
    (l.flags == h.flags)
    && (l.method == h.method)
    && (l.name_length == h.name_length)
    && (not (and_bits 32 h.flags 0x0008 == 0)
        || (l.compressed == h.compressed) && (l.uncompressed == h.uncompressed))
