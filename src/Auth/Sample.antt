-- ===== src/Auth/Sample.antt =====
-- A database in memory, and an account service on it: what the tests run on.
use mhserver.Common.{
  ℕ, Bool, true, false, Option, none, some, [], ◌∷◌, ◌++◌, Text, codes, arith, ite,
}
use mhserver.Common.Dict.{Dict, lookup, insert, text_eq, lookup-insert}
use mhserver.Os.Memory.{memory_os}
use mhserver.Auth.{AuthEnv, AuthService, User, RegisterUser, Row, row, no_rows, scan_error}
use mhserver.Auth.Accounts.{HasAccounts}

-- Users with their hashes, the registration key if there is one, and whether its lookups fail.
pub record Tables : Type 0 where
  pub users : Dict Text Text
  pub key : Option Text
  pub broken : Bool

abbrev some_row : {A B : Type 0} → (A → B) → Option A → Row B
some_row f none = no_rows
some_row f (some a) = row (f a)

abbrev key_row : Bool → Text → Option Text → Row ℕ
key_row true wanted key = scan_error
key_row false wanted none = no_rows
key_row false wanted (some key) = ite (text_eq.dec key wanted) (row 1) no_rows

abbrev pub env : AuthEnv
env = record {
  os = memory_os;
  Db = Tables;
  select_user_id = λ name db. some_row (λ _. tt) (lookup name db.users);
  select_user = λ name db. some_row (λ hash. (name, hash)) (lookup name db.users);
  select_register_secret_key = λ key db. key_row db.broken key db.key;
  insert_user = λ name hash db. (record db { users = insert name hash db.users }, true);
  delete_registration_secret_key = λ id db. (record db { key = none }, true);
  generate_from_password = λ salt password. some password;
  compare_hash_and_password = λ hash password. ite (text_eq.dec hash password) true false;
  signed_string = λ claims signature. some (claims.name ++ signature);
}

pub env-HasAccounts : HasAccounts env
env-HasAccounts = record {
  inserted = λ name hash db db' new e. ground (arith, lookup-insert name name hash db.users);
  users_kept = λ name id db db' e. ground arith;
  password_matches = λ salt password hash e. ground arith;
}

abbrev pub service : AuthService env
service = record {
  cfg = record {
    jwt_signature = codes "s";
    workspace_path = codes "/w/";
    user_catalogs = codes "files" ∷ [];
  };
  db = record { users = []; key = some (codes "k"); broken = false };
  world = [];
}

abbrev pub bob : User
bob = record { name = codes "bob"; password = codes "p" }

abbrev pub new_bob : RegisterUser
new_bob = record { user = bob; key = codes "k" }
