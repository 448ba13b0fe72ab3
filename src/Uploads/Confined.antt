-- ===== src/Uploads/Confined.antt =====
-- Where the paths of features/uploaded-file/local-path.ts lead.
use sdcorejs_nestjs.Base.{
  ◌≡◌, refl, sym, ap, true, false, not, ◌||◌, List, ◌++◌, Text, is_empty, has_unit, any, Result, ok,
  arith, Bool-cases, Result-cases, inl, inr,
}
use sdcorejs_nestjs.Uploads.Ooxml.{is_bad_part, without_last}
use sdcorejs_nestjs.Uploads.Paths.{
  FilePath, PathError, Stat, FileSystem, is_absolute_key, has_escape, parts_of_key, segments,
  is_contained, assert_contained, ensure_safe_parent, write_at, resolve_for_write, inside, regular,
  existing_at, resolve_existing,
}
use sdcorejs_nestjs.Uploads.Parents.{
  continue-ok, AllInside, assert_contained-ok, ensure_safe_parent-AllInside,
}

segments-confined :
    (key : Text) (parts : List Text) → segments key ≡ ok parts → any is_bad_part parts ≡ false
unfolding segments
segments-confined key parts h =
    elim (Bool-cases (is_empty key || has_unit 0 key || is_absolute_key key || has_escape key)) [
      | inl bad ↦ cc (rw bad at h)
      | inr fine ↦ elim (Bool-cases (any is_bad_part (parts_of_key key))) [
        | inl bad ↦ cc (rw (fine, bad) at h)
        | inr good ↦
            let same : parts_of_key key ≡ parts = cc (rw (fine, good) at h) in rw same at good
      ]
    ]

module _ {W : Type 0} (files : FileSystem W) (root : FilePath) where
  -- Where a new file may be written.
  pub record IsWritable (key : Text) (target : FilePath) : Type 0 where
    pub parts : List Text
    pub split : segments key ≡ ok parts
    pub confined : any is_bad_part parts ≡ false
    pub below : target ≡ root ++ parts
    pub parents : AllInside files root root (without_last parts)

  -- Where a file is read from.
  pub record IsReadable (key : Text) (target : FilePath) : Type 0 where
    pub parts : List Text
    pub split : segments key ≡ ok parts
    pub confined : any is_bad_part parts ≡ false
    pub before : W
    pub stat : Stat
    pub seen : (files.lstat (root ++ parts) before).0 ≡ ok stat
    pub not_link : stat.is_symbolic_link ≡ false
    pub file : stat.is_file ≡ true
    pub after : W
    pub real : (files.realpath (root ++ parts) after).0 ≡ ok target
    pub contained : is_contained root target ≡ true

  write_at-IsWritable :
      (key : Text) (parts : List Text) (target : FilePath) (w w' : W)
      → segments key ≡ ok parts
      → write_at files root parts w ≡ (ok target, w')
      → IsWritable key target
  write_at-IsWritable key parts target w w' split h =
      let (u, w1, lexical, h1) =
        continue-ok files root (assert_contained files root (root ++ parts) w) _ h in
      let (v, w2, walked, h2) =
        continue-ok files root (ensure_safe_parent files root root (without_last parts) w1) _ h1 in
      let same : root ++ parts ≡ target = cc h2 in
      record {
        parts = parts;
        split = split;
        confined = segments-confined key parts split;
        below = sym same;
        parents = ensure_safe_parent-AllInside files root root (without_last parts) w1 w2 walked;
      }

  regular-IsReal :
      (path target : FilePath) (stat : Stat) (w w' : W)
      → regular files root path stat w ≡ (ok target, w')
      → (stat.is_symbolic_link ≡ false)
        × (stat.is_file ≡ true)
        × ((files.realpath path w).0 ≡ ok target)
        × (is_contained root target ≡ true)
  unfolding regular
  regular-IsReal path target stat w w' h =
      elim (Bool-cases (stat.is_symbolic_link || not stat.is_file)) [
        | inl e ↦ cc (rw e at h)
        | inr e ↦
            let (place, w1, real, h1) =
              continue-ok files root (files.realpath path w) (inside files root) (rw e at h) in
            let (u, w2, contained, h2) =
              continue-ok files root (assert_contained files root place w1) _ h1 in
            let same : place ≡ target = cc h2 in
            (
              ground arith,
              ground arith,
              rw (real, same) refl,
              rw same at (assert_contained-ok files root place w1 w2 contained),
            )
      ]

  existing_at-IsReadable :
      (key : Text) (parts : List Text) (target : FilePath) (w w' : W)
      → segments key ≡ ok parts
      → existing_at files root parts w ≡ (ok target, w')
      → IsReadable key target
  existing_at-IsReadable key parts target w w' split h =
      let (u, w1, lexical, h1) =
        continue-ok files root (assert_contained files root (root ++ parts) w) _ h in
      let (stat, w2, seen, h2) = continue-ok files root (files.lstat (root ++ parts) w1) _ h1 in
      let (link, file, real, contained) = regular-IsReal (root ++ parts) target stat w2 w' h2 in
      record {
        parts = parts;
        split = split;
        confined = segments-confined key parts split;
        before = w1;
        stat = stat;
        seen = ap (λ (x : Result PathError Stat × W). x.0) seen;
        not_link = link;
        file = file;
        after = w2;
        real = real;
        contained = contained;
      }

-- A path that is given out for writing is the root followed by the key's parts, none of them empty, `.`
-- or `..`, and every directory on the way to it was seen to be a directory and no link, with a real
-- place under the root.
pub resolve_for_write-IsWritable :
    {W : Type 0} (files : FileSystem W) (root : FilePath) (key : Text) (target : FilePath)
    (w w' : W)
    → resolve_for_write files root key w ≡ (ok target, w')
    → IsWritable files root key target
unfolding resolve_for_write
resolve_for_write-IsWritable files root key target w w' h = elim (Result-cases (segments key)) [
  | inl (parts, e) ↦ write_at-IsWritable files root key parts target w w' e (rw e at h)
  | inr (x, e) ↦ cc (rw e at h)
]

-- A path that is given out for reading is the real place, under the root, of the file that the key's
-- parts lead to from there, none of them empty, `.` or `..`; the file was seen to be one and no link.
pub resolve_existing-IsReadable :
    {W : Type 0} (files : FileSystem W) (root : FilePath) (key : Text) (target : FilePath)
    (w w' : W)
    → resolve_existing files root key w ≡ (ok target, w')
    → IsReadable files root key target
unfolding resolve_existing
resolve_existing-IsReadable files root key target w w' h = elim (Result-cases (segments key)) [
  | inl (parts, e) ↦ existing_at-IsReadable files root key parts target w w' e (rw e at h)
  | inr (x, e) ↦ cc (rw e at h)
]
