-- ===== src/Auth.antt =====
-- internal/service/auth/auth.go: accounts and tokens. The database, bcrypt and the signature of
-- tokens are arguments.
pub mod Accounts
pub mod Middleware
pub mod Sample
mod Tests
use mhserver.Common.{
  ◌⊎◌, inl, inr, ℕ, ◌+◌, ◌*◌, Bool, true, false, not, Option, none, some, List, [], ◌∷◌, Text, ltb,
  leb, if◌then◌else◌, ok, err, Method, ◌>>=◌, ◌>>◌, guard, done, fail,
}
use mhserver.Common.Time.{second, unix}
use mhserver.Os.{Os, OsError}
use mhserver.Dirs.{generate_user_folders}

-- What `row.Scan` ends with: the row, sql.ErrNoRows, or another error.
pub data Row (A : Type 0) : Type 0 where
  row : A → Row A
  no_rows : Row A
  scan_error : Row A

pub record Claims : Type 0 where
  pub name : Text
  pub nbf : ℕ
  pub exp : ℕ
  pub iat : ℕ

-- The statements of the service on the tables `users` and `register_secret_keys`, and what it
-- calls of golang.org/x/crypto/bcrypt and github.com/golang-jwt/jwt. `false` is an error of Exec.
pub record AuthEnv : Type 1 where
  pub os : Os
  pub Db : Type 0
  -- SELECT_USERID, scanned into no variable: a row is an error, but not sql.ErrNoRows.
  pub select_user_id : Text → Db → Row (Unit {0})
  pub select_user : Text → Db → Row (Text × Text)
  pub select_register_secret_key : Text → Db → Row ℕ
  pub insert_user : Text → Text → Db → Db × Bool
  pub delete_registration_secret_key : ℕ → Db → Db × Bool
  -- GenerateFromPassword with the salt it draws
  pub generate_from_password : Text → Text → Option Text
  pub compare_hash_and_password : Text → Text → Bool
  pub signed_string : Claims → Text → Option Text

pub record User : Type 0 where
  pub name : Text
  pub password : Text

pub record RegisterUser : Type 0 where
  pub user : User
  pub key : Text

pub record AuthConfig : Type 0 where
  pub jwt_signature : Text
  pub workspace_path : Text
  pub user_catalogs : List Text

pub record AuthService (env : AuthEnv) : Type 0 where
  pub cfg : AuthConfig
  pub db : env.Db
  pub world : env.os.World

-- internal/service/auth/errors.go
pub data AuthError : Type 0 where
  internal jwt_signature_invalid wrong_jwt_name : AuthError
  name_too_long reg_secret_key_not_found : AuthError
  user_not_exist wrong_password user_already_exists : AuthError

abbrev pub user_name_max_length : ℕ
user_name_max_length = 30

-- `len` of a Go string counts the bytes of its UTF-8.
abbrev pub utf8_length : ℕ → ℕ
utf8_length c = if ltb c 128 then 1 else (if ltb c 2048 then 2 else (if ltb c 65536 then 3 else 4))

unfoldable pub byte_length : Text → ℕ
byte_length [] = 0
byte_length (c ∷ t) = utf8_length c + byte_length t

abbrev pub a_day : ℕ
a_day = 24 * 3600 * second

abbrev pub new_claims : Text → ℕ → Claims
new_claims name now = record {
  name = name;
  nbf = unix now;
  exp = unix (now + a_day);
  iat = unix now;
}

module _ (env : AuthEnv) where
  abbrev pub Call : Type 0 → Type 0
  Call A = Method (AuthService env) AuthError A

  abbrev of_user : Row (Text × Text) → Call (Text × Text)
  of_user (row r) = done r
  of_user no_rows = fail user_not_exist
  of_user scan_error = fail internal

  abbrev pub or_internal : {A : Type 0} → Option A → Call A
  or_internal none = fail internal
  or_internal (some a) = done a

  unfoldable pub login : ℕ → User → Call Text
  login now user = do
    found ← λ s. of_user (env.select_user user.name s.db) s
    guard (env.compare_hash_and_password (found.1) user.password) wrong_password
    λ s. or_internal (env.signed_string (new_claims user.name now) s.cfg.jwt_signature) s

  -- `err != sql.ErrNoRows`
  abbrev is_no_rows : {A : Type 0} → Row A → Bool
  is_no_rows (row r) = false
  is_no_rows no_rows = true
  is_no_rows scan_error = false

  -- `var key_id int` stays 0 on an error that is not sql.ErrNoRows, which is not looked at.
  abbrev of_key : Row ℕ → Call ℕ
  of_key (row key_id) = done key_id
  of_key no_rows = fail reg_secret_key_not_found
  of_key scan_error = done 0

  abbrev with_db : (env.Db → env.Db × Bool) → Call (Unit {0})
  with_db f s = let (db, succeeded) = f s.db in guard succeeded internal (record s { db = db })

  abbrev make_folders : Text → Call (Unit {0})
  make_folders name s =
      let (w, error) =
        generate_user_folders env.os s.cfg.workspace_path name s.cfg.user_catalogs s.world in
      elim error [
        | none ↦ (record s { world = w }, ok tt)
        | some e ↦ (record s { world = w }, err internal)
      ]

  -- `salt` is what bcrypt draws.
  unfoldable pub register : Text → RegisterUser → Call (Unit {0})
  register salt user = do
    guard (leb (byte_length user.user.name) user_name_max_length) name_too_long
    free ← λ s. (s, ok (is_no_rows (env.select_user_id user.user.name s.db)))
    guard free user_already_exists
    key_id ← λ s. of_key (env.select_register_secret_key user.key s.db) s
    hash ← or_internal (env.generate_from_password salt user.user.password)
    with_db (env.insert_user user.user.name hash)
    with_db (env.delete_registration_secret_key key_id)
    make_folders user.user.name

-- The signing method of a token, and its "alg".
pub data SigningMethod : Type 0 where
  hmac : SigningMethod
  other_method : Text → SigningMethod

-- The function that ParseToJWT passes to jwt.Parse: the key, or ErrJwtSignatureInvalid with the "alg".
abbrev pub signing_key : AuthConfig → SigningMethod → (AuthError × Text) ⊎ Text
signing_key cfg hmac = inr cfg.jwt_signature
signing_key cfg (other_method alg) = inl (jwt_signature_invalid, alg)

-- ParseToJWT: `parse` is jwt.Parse.
unfoldable pub parse_to_jwt :
    {P : Type 0} → (Text → (SigningMethod → (AuthError × Text) ⊎ Text) → P) → AuthConfig → Text → P
parse_to_jwt parse cfg token = parse token (signing_key cfg)
