-- ===== src/Uploads/Parents.antt =====
-- The directories on the way to a new file in features/uploaded-file/local-path.ts.
use sdcorejs_nestjs.Base.{
  ◌≡◌, refl, ap, true, false, not, ◌||◌, List, [], ◌∷◌, ◌++◌, Text, Result, ok, err, arith,
  Bool-cases, inl, inr,
}
use sdcorejs_nestjs.Uploads.Paths.{
  FilePath, PathError, not_found, already_exists, Stat, FileSystem, is_contained, Task, continue,
  assert_contained, assert_directory, made, looked_at, resolved_inside, ensure_one,
  ensure_safe_parent,
}

module _ {W : Type 0} (files : FileSystem W) (root : FilePath) where
  pub continue-ok :
      {A B : Type 0} (r : Result PathError A × W) (next : A → Task files B) {b : B} {w : W}
      → continue files r next ≡ (ok b, w)
      → (a : A) × (w' : W) × (r ≡ (ok a, w')) × (next a w' ≡ (ok b, w))
  continue-ok (err e, w) next h = cc
  continue-ok (ok a, w) next h = (a, w, refl, h)

  -- A directory that was seen to be one, not a link, and whose real place is under the root.
  pub record IsInside (dir : FilePath) : Type 0 where
    pub before : W
    pub stat : Stat
    pub seen : (files.lstat dir before).0 ≡ ok stat
    pub not_link : stat.is_symbolic_link ≡ false
    pub directory : stat.is_directory ≡ true
    pub after : W
    pub place : FilePath
    pub real : (files.realpath dir after).0 ≡ ok place
    pub contained : is_contained root place ≡ true

  -- Every directory on the way down.
  abbrev pub AllInside : FilePath → List Text → Type 0
  AllInside current [] = Unit
  AllInside current (part ∷ parts) =
      IsInside (current ++ part ∷ []) × AllInside (current ++ part ∷ []) parts

  pub assert_contained-ok :
      (target : FilePath) (w w' : W)
      → assert_contained files root target w ≡ (ok tt, w')
      → is_contained root target ≡ true
  unfolding assert_contained
  assert_contained-ok target w w' h = elim (Bool-cases (is_contained root target)) [
    | inl e ↦ e
    | inr e ↦ cc (rw e at h)
  ]

  assert_directory-ok :
      (stat : Stat) (w w' : W)
      → assert_directory files stat w ≡ (ok tt, w')
      → (stat.is_symbolic_link ≡ false) × (stat.is_directory ≡ true)
  unfolding assert_directory
  assert_directory-ok stat w w' h =
      elim (Bool-cases (stat.is_symbolic_link || not stat.is_directory)) [
        | inl e ↦ cc (rw e at h)
        | inr e ↦ (ground arith, ground arith)
      ]

  -- The look that found a directory.
  record IsSeen (dir : FilePath) : Type 0 where
    before : W
    stat : Stat
    seen : (files.lstat dir before).0 ≡ ok stat
    not_link : stat.is_symbolic_link ≡ false
    directory : stat.is_directory ≡ true

  second_look-IsSeen :
      (dir : FilePath) (w w' : W)
      → continue files (files.lstat dir w) (assert_directory files) ≡ (ok tt, w')
      → IsSeen dir
  second_look-IsSeen dir w w' h =
      let (stat, w1, e, h1) = continue-ok (files.lstat dir w) (assert_directory files) h in
      let (link, directory) = assert_directory-ok stat w1 w' h1 in
      record {
        before = w;
        stat = stat;
        seen = ap (λ (x : Result PathError Stat × W). x.0) e;
        not_link = link;
        directory = directory;
      }

  made-IsSeen :
      (dir : FilePath) (r : Result PathError (Unit {0}) × W) (w' : W)
      → made files dir r ≡ (ok tt, w')
      → IsSeen dir
  made-IsSeen dir (ok u, w) w' h = second_look-IsSeen dir w w' h
  made-IsSeen dir (err already_exists, w) w' h = second_look-IsSeen dir w w' h
  made-IsSeen dir (err e, w) w' h = cc

  looked_at-IsSeen :
      (dir : FilePath) (before : W) (r : Result PathError Stat × W) (w' : W)
      → files.lstat dir before ≡ r
      → looked_at files dir r ≡ (ok tt, w')
      → IsSeen dir
  looked_at-IsSeen dir before (ok stat, w) w' e h =
      let (link, directory) = assert_directory-ok stat w w' h in
      record {
        before = before;
        stat = stat;
        seen = rw e refl;
        not_link = link;
        directory = directory;
      }
  looked_at-IsSeen dir before (err not_found, w) w' e h = made-IsSeen dir (files.mkdir dir w) w' h
  looked_at-IsSeen dir before (err x, w) w' e h = cc

  ensure_one-IsInside :
      (dir : FilePath) (w w' : W) → ensure_one files root dir w ≡ (ok tt, w') → IsInside dir
  unfolding ensure_one
  ensure_one-IsInside dir w w' h =
      let (u, w1, looked, h1) =
        continue-ok (looked_at files dir (files.lstat dir w)) (λ _. resolved_inside files root dir)
          h in
      let known = looked_at-IsSeen dir w (files.lstat dir w) w1 refl looked in
      let (place, w2, real, h2) =
        continue-ok (files.realpath dir w1) (assert_contained files root) h1 in
      record {
        before = known.before;
        stat = known.stat;
        seen = known.seen;
        not_link = known.not_link;
        directory = known.directory;
        after = w1;
        place = place;
        real = ap (λ (x : Result PathError FilePath × W). x.0) real;
        contained = assert_contained-ok place w2 w' h2;
      }

  pub ensure_safe_parent-AllInside :
      (current : FilePath) (parts : List Text) (w w' : W)
      → ensure_safe_parent files root current parts w ≡ (ok tt, w')
      → AllInside current parts
  unfolding ensure_safe_parent
  ensure_safe_parent-AllInside current [] w w' h = tt
  ensure_safe_parent-AllInside current (part ∷ parts) w w' h =
      let dir = current ++ part ∷ [] in
      let (u, w1, first, rest) =
        continue-ok (ensure_one files root dir w) (λ _. ensure_safe_parent files root dir parts)
          h in
      (ensure_one-IsInside dir w w1 first, ensure_safe_parent-AllInside dir parts w1 w' rest)
