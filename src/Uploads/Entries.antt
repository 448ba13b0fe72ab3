-- ===== src/Uploads/Entries.antt =====
-- What the check of one entry in features/uploaded-file/ooxml-security.ts has seen.
use sdcorejs_nestjs.Base.{
  ℕ, ◌≡◌, ◌≢◌, ==_iff, Bool-cases, inl, inr, sym, subst, ap, ◌+◌, ◌*◌, ◌≤◌, true, false, not, ◌&&◌,
  Option, some, List, ◌∷◌, Text, text_eq, is_empty, any, includes, leb, ◌==◌, arith, if◌then◌else◌,
}
use sdcorejs_nestjs.Uploads.Address.{and_bits}
use sdcorejs_nestjs.Uploads.Bytes.{
  ◌>>◌, require, read_u32, slice, add_within_limit, >>=-some, require-some, some_inj,
  add_within_limit-some,
}
use sdcorejs_nestjs.Uploads.Archive.{
  max_total_bytes, max_entry_bytes, max_ratio, Directory, Header, read_header, is_supported,
  is_bounded, LocalHeader, read_local_header, agrees,
}
use sdcorejs_nestjs.Uploads.Ooxml.{
  is_ascii, is_relative_path, is_bad_part, parts_of, rejoined, canonical_entry_name, check_local,
  Scan, decode_entry_name, check_entry,
}

-- The name and the data of an entry lie before the central directory.
pub record IsStored (buffer : List ℕ) (directory : Directory) (h : Header) (end_of_data : ℕ)
    : Type 0 where
  pub here : LocalHeader
  pub read : read_local_header buffer h.local_offset ≡ some here
  pub agreed : agrees h here ≡ true
  pub ends : end_of_data ≡ h.local_offset + 30 + here.name_length + here.extra_length + h.compressed
  pub before : end_of_data ≤ directory.start

check_local-IsStored :
    (buffer : List ℕ) (directory : Directory) (h : Header) (bytes : List ℕ) (end_of_data : ℕ)
    → check_local buffer directory h bytes ≡ some end_of_data
    → IsStored buffer directory h end_of_data
unfolding check_local
check_local-IsStored buffer directory h bytes end_of_data found =
    let name_start = h.local_offset + 30 in
    let (room, h1) = require-some (leb name_start directory.start) _ found in
    let (signature, read_signature, h2) = >>=-some (read_u32 buffer h.local_offset) _ h1 in
    let (signed, h3) = require-some (signature == 0x04034b50) _ h2 in
    let (l, read, h4) = >>=-some (read_local_header buffer h.local_offset) _ h3 in
    let (agreed, h5) = require-some (agrees h l) _ h4 in
    let (name_end, named, h6) =
      >>=-some (add_within_limit name_start l.name_length directory.start) _ h5 in
    let (same, h7) = require-some (text_eq (slice name_start l.name_length buffer) bytes) _ h6 in
    let (data_start, started, h8) =
      >>=-some (add_within_limit name_end l.extra_length directory.start) _ h7 in
    let (e1, _) = add_within_limit-some name_start l.name_length directory.start name_end named in
    let (e2, _) =
      add_within_limit-some name_end l.extra_length directory.start data_start started in
    let (e3, before) =
      add_within_limit-some data_start h.compressed directory.start end_of_data h8 in
    record {
      here = l;
      read = read;
      agreed = agreed;
      ends = omega (arith, e1, e2, e3);
      before = before;
    }

-- The name that an entry's bytes spell: without the UTF-8 flag the printable ASCII bytes
-- themselves, with it what strict decoding makes of them.
pub data Spells (decode_utf8 : List ℕ → Option Text) (flags : ℕ) (bytes : List ℕ)
    : Text → Type 0 where
  as_ascii :
      and_bits 32 flags 0x0800 ≡ 0 → is_ascii bytes ≡ true → Spells decode_utf8 flags bytes bytes
  as_utf8 :
      (name : Text)
      → and_bits 32 flags 0x0800 ≢ 0
      → decode_utf8 bytes ≡ some name
      → Spells decode_utf8 flags bytes name

-- What the check of an entry has seen: its name, its sizes and the place of its data. The name is
-- spelled by its bytes in the directory, relative and without an empty part, `.` or `..`, and it is
-- new; the data is before the directory.
pub record IsEntry (decode_utf8 : List ℕ → Option Text) (buffer : List ℕ) (directory : Directory)
    (s s' : Scan) : Type 0 where
  pub header : Header
  pub read : read_header buffer s.offset ≡ some header
  pub written : Text
  pub spelled :
      Spells decode_utf8 header.flags (slice (s.offset + 46) header.name_length buffer) written
  pub relative : is_relative_path written ≡ true
  pub confined : any is_bad_part (parts_of written) ≡ false
  pub names : s'.names ≡ rejoined written ∷ s.names
  pub fresh : includes s.names (rejoined written) ≡ false
  pub small : header.uncompressed ≤ max_entry_bytes
  pub ratio : header.uncompressed ≤ max_ratio * header.compressed
  pub total : s'.total ≡ s.total + header.uncompressed
  pub limited : s'.total ≤ max_total_bytes
  pub offset :
      s'.offset ≡ s.offset + 46 + (header.name_length + header.extra_length + header.comment_length)
  pub end_of_data : ℕ
  pub stored : IsStored buffer directory header end_of_data

is_bounded_lem :
    (h : Header)
    → is_bounded h ≡ true
    → (h.uncompressed ≤ max_entry_bytes) × (h.uncompressed ≤ max_ratio * h.compressed)
unfolding is_bounded
is_bounded_lem h e = (ground arith, ground arith)

canonical_entry_name-some :
    (written name : Text)
    → canonical_entry_name written ≡ some name
    → (any is_bad_part (parts_of written) ≡ false) × (rejoined written ≡ name)
unfolding canonical_entry_name
canonical_entry_name-some written name h =
    let (good, h1) =
      require-some (not (is_empty (parts_of written)) && not (any is_bad_part (parts_of written))) _
        h in
    (ground arith, cc h1)

is_fresh :
    (names : List Text) {name other : Text}
    → other ≡ name
    → not (includes names name) ≡ true
    → includes names other ≡ false
is_fresh names e h = rw e (ground arith)

module _ (decode_utf8 : List ℕ → Option Text) where
  spell :
      (bytes : List ℕ) (flags : ℕ) (name : Text)
      → (if and_bits 32 flags 0x0800 == 0
          then require (is_ascii bytes) >> some bytes
          else decode_utf8 bytes)
        ≡ some name
      → Spells decode_utf8 flags bytes name
  spell bytes flags name h = elim (Bool-cases (and_bits 32 flags 0x0800 == 0)) [
    | inl unflagged ↦
        let (printable, h1) = require-some (is_ascii bytes) (some bytes) (rw unflagged at h) in
        subst (Spells decode_utf8 flags bytes) (some_inj bytes name h1)
          (as_ascii ((==_iff (and_bits 32 flags 0x0800) 0).0 unflagged) printable)
    | inr flagged ↦ as_utf8 name (λ none. ground (arith, flagged, none)) (rw flagged at h)
  ]

  decode_entry_name-some :
      (bytes : List ℕ) (flags : ℕ) (name : Text)
      → decode_entry_name decode_utf8 bytes flags ≡ some name
      → Spells decode_utf8 flags bytes name × (is_relative_path name ≡ true)
  unfolding decode_entry_name
  decode_entry_name-some bytes flags name h =
      let (some_bytes, h1) = require-some (not (is_empty bytes)) _ h in
      let (decoded, found, h2) =
        >>=-some
          (if and_bits 32 flags 0x0800 == 0
            then require (is_ascii bytes) >> some bytes
            else decode_utf8 bytes)
          _ h1 in
      let (relative, h3) = require-some (is_relative_path decoded) _ h2 in
      let same : decoded ≡ name = some_inj decoded name h3 in
      (
        subst (Spells decode_utf8 flags bytes) same (spell bytes flags decoded found),
        rw (sym same) relative,
      )

  pub check_entry-IsEntry :
      (buffer : List ℕ) (directory : Directory) (s s' : Scan)
      → check_entry decode_utf8 buffer directory s ≡ some s'
      → IsEntry decode_utf8 buffer directory s s'
  unfolding check_entry
  check_entry-IsEntry buffer directory s s' found =
      let (room, h1) = require-some (leb (s.offset + 46) directory.finish) _ found in
      let (signature, _, h2) = >>=-some (read_u32 buffer s.offset) _ h1 in
      let (signed, h3) = require-some (signature == 0x02014b50) _ h2 in
      let (h, read, h4) = >>=-some (read_header buffer s.offset) _ h3 in
      let (supported, h5) = require-some (is_supported h) _ h4 in
      let lengths = h.name_length + h.extra_length + h.comment_length in
      let (next, advanced, h6) =
        >>=-some (add_within_limit (s.offset + 46) lengths directory.finish) _ h5 in
      let bytes = slice (s.offset + 46) h.name_length buffer in
      let (written, decoded, h7) = >>=-some (decode_entry_name decode_utf8 bytes h.flags) _ h6 in
      let (name, canonical, h8) = >>=-some (canonical_entry_name written) _ h7 in
      let (fresh, h9) = require-some (not (includes s.names name)) _ h8 in
      let (bounded, h10) = require-some (is_bounded h) _ h9 in
      let (total, added, h11) =
        >>=-some (add_within_limit s.total h.uncompressed max_total_bytes) _ h10 in
      let (end_of_data, stored, h12) = >>=-some (check_local buffer directory h bytes) _ h11 in
      let (spelled, relative) = decode_entry_name-some bytes h.flags written decoded in
      let (confined, same_name) = canonical_entry_name-some written name canonical in
      let (small, ratio) = is_bounded_lem h bounded in
      let (sum, limited) =
        add_within_limit-some s.total h.uncompressed max_total_bytes total added in
      let (moved, _) =
        add_within_limit-some (s.offset + 46) lengths directory.finish next advanced in
      let scan : Scan = record { names = name ∷ s.names; total = total; offset = next } in
      let scanned : scan ≡ s' = some_inj scan s' h12 in
      subst (IsEntry decode_utf8 buffer directory s) scanned (record {
        header = h;
        read = read;
        written = written;
        spelled = spelled;
        relative = relative;
        confined = confined;
        names = ap (λ (n : Text). n ∷ s.names) (sym same_name);
        fresh = is_fresh s.names same_name fresh;
        small = small;
        ratio = ratio;
        total = sum;
        limited = limited;
        offset = moved;
        end_of_data = end_of_data;
        stored = check_local-IsStored buffer directory h bytes end_of_data stored;
      })
