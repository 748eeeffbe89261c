-- ===== src/PathSecurity/Tests.antt =====
-- Runs of the path checks, and the theorems at a small file system.
use xzcccc_smart_media.Base.{
  ◌≡◌, refl, true, false, if◌then◌else◌, String, str_eq, Option, none, some, any,
}
use xzcccc_smart_media.Text.Split.{split, join_with, onto_first}
use xzcccc_smart_media.Text.Strip.{rstrip, keep_front, ends_with}
use xzcccc_smart_media.PathSecurity.Posix.{abspath, dirname, path_join, normal_parts}
use xzcccc_smart_media.PathSecurity.Inside.{is_inside}
use xzcccc_smart_media.PathSecurity.Validate.{
  Os, outside, symbolic_link, accepted, refused, validate_file_path, check_in, check_real,
  in_allowed, default_dirs, get_allowed_directories, directories, IsAdmitted,
  validate_file_path-IsAdmitted,
}
use xzcccc_smart_media.PathSecurity.Actions.{
  Linked, linked, safe_open, safe_makedirs, safe_rename, safe_symlink, safe_hardlink, IsSafe,
  Performs, actions_confined,
}

-- The process stands in /srv, and /srv/strm/out is a link to /etc.
abbrev resolve : String → Option String
resolve path = if str_eq path "/srv/strm/out" then some "/etc" else some path

abbrev small_os : Os
small_os = record {
  cwd = "/srv";
  islink = λ p. str_eq p "/srv/strm/out";
  realpath = resolve;
  exists = λ p. str_eq p "/srv/strm";
  isdir = λ p. true;
}

abspath-up : abspath "/srv" "./a//../strm/x" ≡ "/srv/strm/x"
unfolding abspath path_join normal_parts split onto_first join_with ends_with
abspath-up = refl

dirname-root : dirname "/x" ≡ "/"
unfolding dirname split onto_first join_with rstrip keep_front
dirname-root = refl

validate-beside :
    validate_file_path small_os none "/srv/strm-private/x" none false false ≡ refused outside
unfolding validate_file_path check_in check_real in_allowed any get_allowed_directories default_dirs
    is_inside ends_with rstrip keep_front abspath path_join normal_parts split onto_first join_with
validate-beside = refl

validate-link :
    validate_file_path small_os none "/srv/strm/out" none false false ≡ refused symbolic_link
unfolding validate_file_path check_in get_allowed_directories default_dirs abspath path_join
    normal_parts split onto_first join_with
validate-link = refl

validate-inside :
    validate_file_path small_os none "strm/a.strm" none false false ≡ accepted "/srv/strm/a.strm"
unfolding validate_file_path check_in check_real in_allowed any get_allowed_directories default_dirs
    is_inside ends_with rstrip keep_front abspath path_join normal_parts split onto_first join_with
validate-inside = refl

validate_file_path-IsAdmitted_example :
    IsAdmitted small_os
      (directories small_os none none)
      false
      false
      "strm/a.strm"
      "/srv/strm/a.strm"
validate_file_path-IsAdmitted_example =
    validate_file_path-IsAdmitted small_os none "strm/a.strm" none false false "/srv/strm/a.strm"
      validate-inside

abbrev all_linked : String → String → Linked
all_linked a b = linked

actions_confined_example :
    Performs
      (IsSafe small_os (directories small_os none none))
      (safe_open small_os none none "strm/a.strm" "w")
    × Performs
        (IsSafe small_os (directories small_os none none))
        (safe_makedirs small_os none none "strm/a.strm")
    × Performs
        (IsSafe small_os (directories small_os none none))
        (safe_rename small_os none none "strm/a.strm" "strm/b")
    × Performs
        (IsSafe small_os (directories small_os none none))
        (safe_symlink small_os none none "strm/a.strm" "strm/b")
    × Performs
        (IsSafe small_os (directories small_os none none))
        (safe_hardlink small_os none none all_linked "strm/a.strm" "strm/b")
actions_confined_example = actions_confined small_os none none "strm/a.strm" "strm/b" "w" all_linked
