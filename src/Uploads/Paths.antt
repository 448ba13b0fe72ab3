-- ===== src/Uploads/Paths.antt =====
-- SafeLocalPathResolver of features/uploaded-file/local-path.ts. An absolute path is the list of its
-- parts; the file system's calls are parameters over the state of a world.
use sdcorejs_nestjs.Base.{
  ℕ, Bool, true, false, not, ◌&&◌, ◌||◌, List, [], ◌∷◌, ◌++◌, map, Text, text_eq, lit, is_empty,
  any, has_unit, split_on, lower_unit, Result, ok, err, leb, ◌==◌, if◌then◌else◌,
}
use sdcorejs_nestjs.Uploads.Address6.{starts_with}
use sdcorejs_nestjs.Uploads.Ooxml.{without_last, is_bad_part}
use sdcorejs_nestjs.Uploads.Names.{forward_unit}

abbrev pub FilePath : Type 0
FilePath = List Text

-- The errors of the file system that the code tells apart, and its own.
pub data PathError : Type 0 where
  not_found already_exists other : PathError
  invalid_key escapes_root not_regular : PathError

pub record Stat : Type 0 where
  pub is_symbolic_link : Bool
  pub is_directory : Bool
  pub is_file : Bool

pub record FileSystem (W : Type 0) : Type 0 where
  pub lstat : FilePath → W → Result PathError Stat × W
  pub mkdir : FilePath → W → Result PathError (Unit {0}) × W
  pub realpath : FilePath → W → Result PathError FilePath × W

abbrev is_letter : ℕ → Bool
is_letter c = leb b'a' (lower_unit c) && leb (lower_unit c) b'z'

abbrev is_slash : ℕ → Bool
is_slash c = (c == b'/') || (c == b'\\')

-- `isAbsolute` of both platforms: a leading slash of either kind, or a drive and a slash.
unfoldable pub is_absolute_key : Text → Bool
unfolding lower_unit
is_absolute_key [] = false
is_absolute_key (c ∷ d ∷ e ∷ s) = is_slash c || is_letter c && (d == b':') && is_slash e
is_absolute_key (c ∷ s) = is_slash c

-- `/%(?:2e|2f|5c)/i`
unfoldable pub has_escape : Text → Bool
unfolding starts_with lower_unit
has_escape [] = false
has_escape (c ∷ s) =
    starts_with (map lower_unit (c ∷ s)) (lit "%2e")
    || starts_with (map lower_unit (c ∷ s)) (lit "%2f")
    || starts_with (map lower_unit (c ∷ s)) (lit "%5c")
    || has_escape s

abbrev pub parts_of_key : Text → List Text
parts_of_key key = split_on b'/' (map forward_unit key)

unfoldable pub segments : Text → Result PathError (List Text)
unfolding has_unit is_absolute_key has_escape split_on is_bad_part
segments key =
    if is_empty key || has_unit 0 key || is_absolute_key key || has_escape key
    then err invalid_key
    else if any is_bad_part (parts_of_key key)
    then err invalid_key
    else ok (parts_of_key key)

-- `relative(root, target)` does not lead upwards.
unfoldable pub is_contained : FilePath → FilePath → Bool
unfolding text_eq
is_contained [] target = true
is_contained (p ∷ root) [] = false
is_contained (p ∷ root) (t ∷ target) = text_eq p t && is_contained root target

module _ {W : Type 0} (files : FileSystem W) where
  abbrev pub Task : Type 0 → Type 0
  Task A = W → Result PathError A × W

  abbrev pub continue :
      {A B : Type 0} → Result PathError A × W → (A → Task B) → Result PathError B × W
  continue (err e, w) next = (err e, w)
  continue (ok a, w) next = next a w

  unfoldable pub assert_contained : FilePath → FilePath → Task (Unit {0})
  unfolding is_contained
  assert_contained root target w =
      if is_contained root target then (ok tt, w) else (err escapes_root, w)

  -- A directory that is not a link.
  unfoldable pub assert_directory : Stat → Task (Unit {0})
  assert_directory stat w =
      if stat.is_symbolic_link || not stat.is_directory then (err escapes_root, w) else (ok tt, w)

  -- `mkdir`, where another may have been first, and the second look.
  abbrev pub made : FilePath → Result PathError (Unit {0}) × W → Result PathError (Unit {0}) × W
  made current (ok u, w) = continue (files.lstat current w) assert_directory
  made current (err already_exists, w) = continue (files.lstat current w) assert_directory
  made current (err e, w) = (err e, w)

  abbrev pub looked_at : FilePath → Result PathError Stat × W → Result PathError (Unit {0}) × W
  looked_at current (ok stat, w) = assert_directory stat w
  looked_at current (err not_found, w) = made current (files.mkdir current w)
  looked_at current (err e, w) = (err e, w)

  abbrev pub resolved_inside : FilePath → FilePath → Task (Unit {0})
  resolved_inside root current w = continue (files.realpath current w) (assert_contained root)

  unfoldable pub ensure_one : FilePath → FilePath → Task (Unit {0})
  unfolding assert_directory assert_contained
  ensure_one root current w =
      continue (looked_at current (files.lstat current w)) (λ _. resolved_inside root current)

  unfoldable pub ensure_safe_parent : FilePath → FilePath → List Text → Task (Unit {0})
  unfolding ensure_one
  ensure_safe_parent root current [] w = (ok tt, w)
  ensure_safe_parent root current (part ∷ parts) w =
      continue (ensure_one root (current ++ part ∷ []) w)
        (λ _. ensure_safe_parent root (current ++ part ∷ []) parts)

  abbrev pub with_parts :
      {A : Type 0} → Result PathError (List Text) → (List Text → Task A) → Task A
  with_parts (err e) next w = (err e, w)
  with_parts (ok parts) next w = next parts w

  abbrev pub write_at : FilePath → List Text → Task FilePath
  write_at root parts w = continue (assert_contained root (root ++ parts) w) (λ _ w'.
      continue (ensure_safe_parent root root (without_last parts) w')
        (λ _ w''. (ok (root ++ parts), w'')))

  -- resolveForWrite, under the canonical root.
  unfoldable pub resolve_for_write : FilePath → Text → Task FilePath
  unfolding segments assert_contained ensure_safe_parent
  resolve_for_write root key = with_parts (segments key) (write_at root)

  abbrev pub inside : FilePath → FilePath → Task FilePath
  inside root canonical w =
      continue (assert_contained root canonical w) (λ _ w'. (ok canonical, w'))

  unfoldable pub regular : FilePath → FilePath → Stat → Task FilePath
  unfolding assert_contained
  regular root target stat w =
      if stat.is_symbolic_link || not stat.is_file
      then (err not_regular, w)
      else continue (files.realpath target w) (inside root)

  abbrev pub existing_at : FilePath → List Text → Task FilePath
  existing_at root parts w =
      continue (assert_contained root (root ++ parts) w)
        (λ _ w'. continue (files.lstat (root ++ parts) w') (regular root (root ++ parts)))

  -- resolveExisting
  unfoldable pub resolve_existing : FilePath → Text → Task FilePath
  unfolding segments assert_contained regular
  resolve_existing root key = with_parts (segments key) (existing_at root)
