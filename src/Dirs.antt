-- ===== src/Dirs.antt =====
-- internal/repository/dirs/dirs.go and the file-name pattern of internal/grpc/data/server.go: which
-- directories and file names are accepted, and the path that is built from them.
pub mod Names
pub mod Directories
pub mod Filenames
pub mod Paths
pub mod Safety
mod Tests
use mhserver.Common.{
  ℕ, Bool, true, false, ◌||◌, ◌&&◌, List, [], ◌∷◌, ◌++◌, Text, codes, ◌==◌, leb, Option, none, some,
  if◌then◌else◌, ◌≡◌,
}
use mhserver.Regex.{Regex, eps, class, seq, alt, star, plus, opt, match_string}
use mhserver.Os.{Os, OsError}

-- Go's unicode tables behind \p{L} and \p{N}: none of the separators is a letter or a number.
pub record Unicode : Type 0 where
  pub is_letter : ℕ → Bool
  pub is_number : ℕ → Bool

abbrev pub slash : ℕ
slash = b'/'

abbrev pub dot : ℕ
dot = b'.'

abbrev pub is_separator : ℕ → Bool
is_separator c = c == b' ' || (c == b'_' || c == b'-')

-- [a-zA-Z0-9]
abbrev pub is_ascii_alnum : ℕ → Bool
is_ascii_alnum c =
    (leb b'a' c && leb c b'z') || ((leb b'A' c && leb c b'Z') || (leb b'0' c && leb c b'9'))

abbrev pub literal : ℕ → Regex
literal c = class (λ d. d == c)

module _ (u : Unicode) where
  -- [\p{L}\p{N}]
  abbrev pub is_alnum : ℕ → Bool
  is_alnum c = u.is_letter c || u.is_number c

  abbrev pub alnum_run : Regex
  alnum_run = plus (class is_alnum)

  -- ([ _-]+[\p{L}\p{N}]+)*
  abbrev pub name_tail : Regex
  name_tail = star (seq (plus (class is_separator)) alnum_run)

  -- \.?[\p{L}\p{N}]+([ _-]+[\p{L}\p{N}]+)*
  abbrev pub name_regexp : Regex
  name_regexp = seq (opt (literal dot)) (seq alnum_run name_tail)

  -- ^\/(\.?[\p{L}\p{N}]+([ _-]+[\p{L}\p{N}]+)*\/)*$
  abbrev pub directory_regexp : Regex
  directory_regexp = seq (literal slash) (star (seq name_regexp (literal slash)))

  -- ^\.?[\p{L}\p{N}]+([ _-]+[\p{L}\p{N}]+)*(\.[a-zA-Z0-9]+)*$
  abbrev pub filename_regexp : Regex
  filename_regexp =
      seq (opt (literal dot))
        (seq alnum_run (seq name_tail (star (seq (literal dot) (plus (class is_ascii_alnum))))))

  -- `none` is ErrBadDirSyntax.
  unfoldable pub get_data_path : Text → Text → Text → Text → Option Text
  get_data_path workspace_path user req_dir service =
      if match_string directory_regexp req_dir
      then some (workspace_path ++ (user ++ (slash ∷ (service ++ req_dir))))
      else none

module _ (os : Os) where
  -- The loop of `GenerateUserFolders`: the first folder that cannot be made ends it.
  unfoldable pub generate_user_folders :
      Text → Text → List Text → os.World → os.World × Option OsError
  generate_user_folders workspace_path user [] w = (w, none)
  generate_user_folders workspace_path user (folder ∷ folders) w =
      let (w', error) = os.mkdir_all (workspace_path ++ (user ++ (slash ∷ folder))) w in
      elim error [
        | none ↦ generate_user_folders workspace_path user folders w'
        | some e ↦ (w', some e)
      ]
