-- ===== src/Uploads/Tests.antt =====
-- Runs of the checks on addresses and of a fetch.
use sdcorejs_nestjs.Base.{
  ok, err, has_unit, false, ℕ, zero, suc, ◌++◌, ◌≡◌, refl, arith, true, false, not, Option, none,
  some, List, [], ◌∷◌, Text, lit, text_eq, split_on, join, lower_unit, map, decimal, show, includes,
}
use sdcorejs_nestjs.Uploads.Address.{
  decimal_from, of_octets, ipv4_number, and_bits, in_ipv4_range, is_public_number, is_public_ipv4,
}
use sdcorejs_nestjs.Uploads.Address6.{
  v4, split_double, is_dotted, undotted, filled, hex_from, bytes_of, parse_ipv6, zero_bytes,
  starts_with, is_public_bytes, is_public_ipv6, is_public_network_address,
}
use sdcorejs_nestjs.Uploads.Mapped.{is_public_bytes-mapped}
use sdcorejs_nestjs.Uploads.Reserved.{is_reserved, is_public_ipv4-octets}
use sdcorejs_nestjs.Uploads.Fetch.{
  Url, Response, Fetched, CloneOptions, Platform, Network, default, finite, bounded_integer,
  limits_of, has_host, is_allowed_url, is_too_large, receive, send, resolve, visit, hop,
  secure_fetch_remote,
}
use sdcorejs_nestjs.Uploads.Ooxml.{is_bad_part}
use sdcorejs_nestjs.Uploads.Paths.{
  FilePath, Stat, FileSystem, invalid_key, is_absolute_key, has_escape, segments, is_contained,
  assert_contained, assert_directory, ensure_one, ensure_safe_parent, resolve_for_write, regular,
  resolve_existing,
}
use sdcorejs_nestjs.Uploads.Confined.{
  IsWritable, IsReadable, resolve_for_write-IsWritable, resolve_existing-IsReadable,
}
use sdcorejs_nestjs.Uploads.Guarded.{IsSafe, secure_fetch_remote-IsSafe}

is_public_ipv4-octets_example : is_public_ipv4 (lit "172.32.0.1") ≡ not (is_reserved 172 32 0 1)
unfolding decimal_from split_on
is_public_ipv4-octets_example =
    is_public_ipv4-octets (lit "172.32.0.1") 172 32 0 1 refl (omega arith) (omega arith)
      (omega arith) (omega arith)

public_run : is_public_ipv4 (lit "172.32.0.1") ≡ true
unfolding is_public_ipv4 is_public_number ipv4_number decimal_from of_octets split_on in_ipv4_range
    and_bits
public_run = refl

metadata_run : is_public_ipv4 (lit "169.254.169.254") ≡ false
unfolding is_public_ipv4 is_public_number ipv4_number decimal_from of_octets split_on in_ipv4_range
    and_bits
metadata_run = refl

parse_run :
    parse_ipv6 (lit "::FFFF:10.0.0.1%eth0")
    ≡ some (0 ∷ 0 ∷ 0 ∷ 0 ∷ 0 ∷ 0 ∷ 0 ∷ 0 ∷ 0 ∷ 0 ∷ 255 ∷ 255 ∷ 10 ∷ 0 ∷ 0 ∷ 1 ∷ [])
unfolding parse_ipv6 split_double undotted is_dotted filled bytes_of hex_from split_on lower_unit
    ipv4_number decimal_from of_octets join
parse_run = refl

mapped_run : is_public_ipv6 (lit "::ffff:10.0.0.1") ≡ false
unfolding is_public_ipv6 is_public_bytes starts_with parse_ipv6 split_double undotted is_dotted
    filled bytes_of hex_from split_on lower_unit ipv4_number decimal_from of_octets join
    is_public_ipv4 is_public_number in_ipv4_range and_bits decimal show
mapped_run = refl

-- A platform of one host whose page redirects once.
abbrev url_at : Text → Url
url_at path = record {
  protocol = lit "https:";
  username = [];
  password = [];
  hostname = lit "Files.example.";
  href = path;
}

abbrev platform : Platform
platform = record {
  new_url = λ s. some (url_at s);
  relative_url = λ s u. some (url_at s);
  is_ip = λ s. v4;
  to_lower_case = map lower_unit;
  ceiling = λ s. some 3;
}

abbrev answer : ℕ → Response
answer zero = record {
  status = 302;
  location = some (lit "/b");
  content_type = none;
  content_length = none;
  body = [];
}
answer (suc n) = record {
  status = 200;
  location = none;
  content_type = some (lit "Text/Plain ; a");
  content_length = some (lit "3");
  body = 1 ∷ 2 ∷ 3 ∷ [];
}

abbrev network : Network ℕ
network = record {
  lookup = λ host n. (some (record { address = lit "93.184.216.34"; family = v4 } ∷ []), n);
  request = λ r n. (some (answer n), suc n);
}

abbrev options : CloneOptions
options = record {
  enabled = some true;
  timeout_ms = default;
  max_bytes = finite 10;
  max_redirects = default;
  allowed_hosts = some (lit "files.example" ∷ []);
}

abbrev body_of : Option Fetched → List ℕ
body_of none = []
body_of (some f) = f.buffer

secure_fetch_run :
    body_of
      (secure_fetch_remote platform network
        (lit "/a")
        options
        (record { world = 0; requests = [] })).0
    ≡ 1 ∷ 2 ∷ 3 ∷ []
unfolding secure_fetch_remote limits_of bounded_integer has_host is_allowed_url is_too_large receive
    send resolve visit hop lower_unit includes is_public_network_address is_public_ipv4
    is_public_number ipv4_number decimal_from of_octets split_on in_ipv4_range and_bits text_eq
secure_fetch_run = refl

secure_fetch_remote-IsSafe_example :
    IsSafe platform network options (
      secure_fetch_remote platform network (lit "/a") options (record { world = 0; requests = [] }))
secure_fetch_remote-IsSafe_example =
    secure_fetch_remote-IsSafe platform network (lit "/a") options 0

is_public_bytes-mapped_example :
    is_public_bytes (zero_bytes 10 ++ 0xff ∷ 0xff ∷ 10 ∷ 0 ∷ 0 ∷ 1 ∷ [])
    ≡ not (is_reserved 10 0 0 1)
is_public_bytes-mapped_example =
    is_public_bytes-mapped 10 0 0 1 (omega arith) (omega arith) (omega arith) (omega arith)

-- A file system whose only file is a.txt in the folder d of the root.
abbrev root : FilePath
root = lit "srv" ∷ []

abbrev file : FilePath
file = lit "srv" ∷ lit "d" ∷ lit "a.txt" ∷ []

abbrev stat_of : FilePath → Stat
stat_of path = record {
  is_symbolic_link = false;
  is_directory = not (is_contained file path);
  is_file = is_contained file path;
}

abbrev files : FileSystem ℕ
files = record {
  lstat = λ path n. (ok (stat_of path), suc n);
  mkdir = λ path n. (ok tt, suc n);
  realpath = λ path n. (ok path, suc n);
}

write_run : resolve_for_write files root (lit "d\\a.txt") 0 ≡ (ok file, 2)
unfolding resolve_for_write segments is_absolute_key has_escape is_contained assert_contained
    assert_directory ensure_one ensure_safe_parent is_bad_part split_on has_unit text_eq starts_with
    lower_unit
write_run = refl

read_run : resolve_existing files root (lit "d/a.txt") 0 ≡ (ok file, 2)
unfolding resolve_existing segments is_absolute_key has_escape is_contained assert_contained regular
    is_bad_part split_on has_unit text_eq starts_with lower_unit
read_run = refl

escape_run : resolve_existing files root (lit "d/../../etc") 0 ≡ (err invalid_key, 0)
unfolding resolve_existing segments is_absolute_key has_escape is_bad_part split_on has_unit text_eq
    starts_with lower_unit
escape_run = refl

resolve_for_write-IsWritable_example : IsWritable files root (lit "d\\a.txt") file
resolve_for_write-IsWritable_example =
    resolve_for_write-IsWritable files root (lit "d\\a.txt") file 0 2 write_run

resolve_existing-IsReadable_example : IsReadable files root (lit "d/a.txt") file
resolve_existing-IsReadable_example =
    resolve_existing-IsReadable files root (lit "d/a.txt") file 0 2 read_run
