-- ===== src/Dirs/Tests.antt =====
-- The two patterns and the built paths on concrete texts, and the theorems at such inputs.
use mhserver.Common.{
  Bool, true, false, some, ◌&&◌, ◌||◌, List, [], ◌∷◌, ◌++◌, ◌≡◌, refl, ◌↔◌, Text, codes, arith, All,
  leb,
}
use mhserver.Regex.{match_string}
use mhserver.Dirs.{Unicode, slash, directory_regexp, filename_regexp, get_data_path}
use mhserver.Dirs.Names.{IsName}
use mhserver.Dirs.Directories.{join, directory_iff}
use mhserver.Dirs.Filenames.{join_extensions, IsExtension, filename_iff}
use mhserver.Dirs.Paths.{components, walk, descend}
use mhserver.Dirs.Safety.{
  HasNoPunctuation, get_data_path_descends, file_path_descends, get_data_path_collision,
}

-- The ASCII part of the tables.
abbrev ascii : Unicode
ascii = record {
  is_letter = λ c. (leb b'a' c && leb c b'z') || (leb b'A' c && leb c b'Z');
  is_number = λ c. leb b'0' c && leb c b'9';
}

ascii-HasNoPunctuation : HasNoPunctuation ascii
ascii-HasNoPunctuation = record { no_slash = refl; no_dot = refl }

path_runs : Unit {0}
unfolding get_data_path match_string components walk descend
path_runs = tt

abbrev accepts_dir : Text → Bool
accepts_dir = match_string (directory_regexp ascii)

abbrev accepts_file : Text → Bool
accepts_file = match_string (filename_regexp ascii)

directory_tests :
    (accepts_dir (codes "/") ≡ true)
    × (accepts_dir (codes "/.hid/my dir/") ≡ true)
    × (accepts_dir (codes "/a") ≡ false)
    × (accepts_dir (codes "/../") ≡ false)
    × (accepts_dir (codes "/a//") ≡ false)
    × (accepts_dir (codes "/a_/") ≡ false)
unfolding path_runs
directory_tests = (refl, refl, refl, refl, refl, refl)

filename_tests :
    (accepts_file (codes "a.txt.bak") ≡ true)
    × (accepts_file (codes ".env") ≡ true)
    × (accepts_file (codes "Makefile") ≡ true)
    × (accepts_file (codes "") ≡ false)
    × (accepts_file (codes "a/b") ≡ false)
    × (accepts_file (codes "..") ≡ false)
    × (accepts_file (codes "a.") ≡ false)
unfolding path_runs
filename_tests = (refl, refl, refl, refl, refl, refl, refl)

directory_iff_example :
    (match_string (directory_regexp ascii) (codes "/a/") ≡ true)
    ↔ ((ns : List Text) × (codes "/a/" ≡ slash ∷ join ns) × All (IsName ascii) ns)
directory_iff_example = directory_iff ascii (codes "/a/")

filename_iff_test : (match_string (filename_regexp ascii) (codes "a.c") ≡ true) ↔ (
    (n : Text) × (es : List Text) × (codes "a.c" ≡ n ++ join_extensions es)
    × IsName ascii n
    × All IsExtension es)
filename_iff_test = filename_iff ascii (codes "a.c")

abbrev bob_dir : Text
bob_dir = codes "/w/bob/files/d/"

get_data_path_descends_example :
    (ns : List Text) × (codes "/d/" ≡ slash ∷ join ns)
    × All (IsName ascii) ns
    × (walk [] (components bob_dir)
        ≡ descend
            (walk [] (components (codes "/w/" ++ (codes "bob" ++ (slash ∷ codes "files")))))
            ns)
unfolding path_runs
get_data_path_descends_example =
    get_data_path_descends ascii ascii-HasNoPunctuation (codes "/w/") (codes "bob") (codes "/d/")
      (codes "files") bob_dir [] refl

file_path_descends_example :
    walk [] (components (bob_dir ++ codes "a.c")) ≡ codes "a.c" ∷ walk [] (components bob_dir)
unfolding path_runs
file_path_descends_example =
    file_path_descends ascii ascii-HasNoPunctuation (codes "/w/") (codes "bob") (codes "/d/")
      (codes "files") bob_dir (codes "a.c") [] refl refl

get_data_path_collision_example :
    (path' : Text) × (get_data_path ascii
        (codes "/w/")
        (codes "x/../bob")
        (codes "/d/")
        (codes "files")
      ≡ some path')
    × (walk [] (components path') ≡ walk [] (components bob_dir))
unfolding path_runs
get_data_path_collision_example =
    get_data_path_collision ascii (codes "/w") (codes "x") (codes "bob") (codes "/d/")
      (codes "files") bob_dir [] ((omega arith, tt), λ stack. refl) refl
