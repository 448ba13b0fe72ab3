-- ===== src/Uploads/Contained.antt =====
-- What a container that features/uploaded-file/ooxml-security.ts accepts is made of.
use sdcorejs_nestjs.Base.{
  ℕ, zero, suc, ◌≡◌, sym, subst, ◌+◌, ◌≤◌, true, false, Option, some, List, [], ◌∷◌, Text, lit,
  includes, ◌==◌, ==_iff, arith, Option-cases, inl, inr,
}
use sdcorejs_nestjs.Uploads.Bytes.{
  read_u16, read_u32, add_within_limit, >>=-some, require-some, some_inj,
}
use sdcorejs_nestjs.Uploads.Archive.{
  max_entries, max_total_bytes, Directory, find_end_record, is_single_disk, read_directory,
}
use sdcorejs_nestjs.Uploads.Ooxml.{
  Scan, check_entry, check_entries, first_scan, scan_container, validate_ooxml_container,
}
use sdcorejs_nestjs.Uploads.Entries.{IsEntry, check_entry-IsEntry}

-- The entries of a scan, each checked after the one before it.
pub data Walk (decode_utf8 : List ℕ → Option Text) (buffer : List ℕ) (directory : Directory)
    : ℕ → Scan → Scan → Type 0 where
  finished : (s : Scan) → Walk decode_utf8 buffer directory 0 s s
  visited :
      (n : ℕ) (s s' s'' : Scan)
      → IsEntry decode_utf8 buffer directory s s'
      → Walk decode_utf8 buffer directory n s' s''
      → Walk decode_utf8 buffer directory (suc n) s s''

-- No name occurs twice.
abbrev pub IsDistinct : List Text → Type 0
IsDistinct [] = Unit
IsDistinct (name ∷ names) = (includes names name ≡ false) × IsDistinct names

module _ (decode_utf8 : List ℕ → Option Text) (buffer : List ℕ) (directory : Directory) where
  check_entries-Walk :
      (n : ℕ) (s s' : Scan)
      → check_entries decode_utf8 buffer directory n s ≡ some s'
      → Walk decode_utf8 buffer directory n s s'
  unfolding check_entries
  check_entries-Walk zero s s' h =
      let same : s ≡ s' = cc h in subst (Walk decode_utf8 buffer directory 0 s) same (finished s)
  check_entries-Walk (suc n) s s' h =
      let (middle, first, rest) = >>=-some (check_entry decode_utf8 buffer directory s) _ h in
      visited n s middle s' (check_entry-IsEntry decode_utf8 buffer directory s middle first)
        (check_entries-Walk n middle s' rest)

module _ (decode_utf8 : List ℕ → Option Text) (buffer : List ℕ) (directory : Directory) where
  Walk-IsDistinct :
      {n : ℕ} {s s' : Scan}
      → Walk decode_utf8 buffer directory n s s'
      → IsDistinct s.names
      → IsDistinct s'.names
  Walk-IsDistinct (finished s) d = d
  Walk-IsDistinct (visited n s m s' e walk) d =
      Walk-IsDistinct walk (subst IsDistinct (sym e.names) (e.fresh, d))

  Walk-limited :
      {n : ℕ} {s s' : Scan}
      → Walk decode_utf8 buffer directory n s s'
      → s.total ≤ max_total_bytes
      → s'.total ≤ max_total_bytes
  Walk-limited (finished s) h = h
  Walk-limited (visited n s m s' e walk) h = Walk-limited walk e.limited

-- A container that is accepted: its directory is a walk over at most 2048 entries from its start to its
-- end, whose names differ and hold the two that a document needs, and whose sizes add up to the total.
pub record IsContainer (decode_utf8 : List ℕ → Option Text) (buffer : List ℕ) (main_part : Text)
    : Type 0 where
  pub directory : Directory
  pub found : read_directory buffer ≡ some directory
  pub count : directory.entries ≤ max_entries
  pub scan : Scan
  pub walk : Walk decode_utf8 buffer directory directory.entries (first_scan directory) scan
  pub ends : scan.offset ≡ directory.finish
  pub distinct : IsDistinct scan.names
  pub limited : scan.total ≤ max_total_bytes
  pub content_types : includes scan.names (lit "[Content_Types].xml") ≡ true
  pub main : includes scan.names main_part ≡ true

is_single_disk-count :
    (disk directory_disk on_disk total size start : ℕ)
    → is_single_disk disk directory_disk on_disk total size start ≡ true
    → total ≤ max_entries
unfolding is_single_disk
is_single_disk-count disk directory_disk on_disk total size start h = ground arith

read_directory-count :
    (buffer : List ℕ) (directory : Directory)
    → read_directory buffer ≡ some directory
    → directory.entries ≤ max_entries
unfolding read_directory
read_directory-count buffer directory h =
    let (end, _, h1) = >>=-some (find_end_record buffer) _ h in
    let (disk, _, h2) = >>=-some (read_u16 buffer (end + 4)) _ h1 in
    let (directory_disk, _, h3) = >>=-some (read_u16 buffer (end + 6)) _ h2 in
    let (on_disk, _, h4) = >>=-some (read_u16 buffer (end + 8)) _ h3 in
    let (total, _, h5) = >>=-some (read_u16 buffer (end + 10)) _ h4 in
    let (size, _, h6) = >>=-some (read_u32 buffer (end + 12)) _ h5 in
    let (start, _, h7) = >>=-some (read_u32 buffer (end + 16)) _ h6 in
    let (single, h8) =
      require-some (is_single_disk disk directory_disk on_disk total size start) _ h7 in
    let (finish, _, h9) = >>=-some (add_within_limit start size end) _ h8 in
    let (whole, h10) = require-some (finish == end) _ h9 in
    let built : Directory = record { start = start; finish = finish; entries = total } in
    subst (λ (d : Directory). d.entries ≤ max_entries) (some_inj built directory h10)
      (is_single_disk-count disk directory_disk on_disk total size start single)

scan_container-IsContainer :
    (decode_utf8 : List ℕ → Option Text) (buffer : List ℕ) (main_part : Text) (s : Scan)
    → scan_container decode_utf8 buffer main_part ≡ some s
    → IsContainer decode_utf8 buffer main_part
unfolding scan_container
scan_container-IsContainer decode_utf8 buffer main_part s h =
    let (directory, found, h1) = >>=-some (read_directory buffer) _ h in
    let (scan, scanned, h2) =
      >>=-some (check_entries decode_utf8 buffer directory directory.entries (first_scan directory))
        _ h1 in
    let (ended, h3) = require-some (scan.offset == directory.finish) _ h2 in
    let (types, h4) = require-some (includes scan.names (lit "[Content_Types].xml")) _ h3 in
    let (main, h5) = require-some (includes scan.names main_part) _ h4 in
    let walk =
      check_entries-Walk decode_utf8 buffer directory directory.entries (first_scan directory) scan
        scanned in
    record {
      directory = directory;
      found = found;
      count = read_directory-count buffer directory found;
      scan = scan;
      walk = walk;
      ends = (==_iff scan.offset directory.finish).0 ended;
      distinct = Walk-IsDistinct decode_utf8 buffer directory walk tt;
      limited = Walk-limited decode_utf8 buffer directory walk (omega arith);
      content_types = types;
      main = main;
    }

-- An OOXML container that is accepted is a walk over its whole central directory, of at most 2048
-- entries: each is listed under the name that its bytes in the directory spell, ASCII or decoded
-- UTF-8 by its flag, a relative name without an empty part, `.` or `..`, that no other entry has;
-- each unpacks to at most 50 MiB and at most 100 times its packed size, and has its data before the
-- directory; together they unpack to at most 100 MiB, and both parts that a document needs are there.
pub validate_ooxml_container-IsContainer :
    (decode_utf8 : List ℕ → Option Text) (buffer : List ℕ) (main_part : Text)
    → validate_ooxml_container decode_utf8 buffer main_part ≡ true
    → IsContainer decode_utf8 buffer main_part
unfolding validate_ooxml_container
validate_ooxml_container-IsContainer decode_utf8 buffer main_part h =
    elim (Option-cases (scan_container decode_utf8 buffer main_part)) [
      | inl refused ↦ cc (rw refused at h)
      | inr (s, e) ↦ scan_container-IsContainer decode_utf8 buffer main_part s e
    ]
