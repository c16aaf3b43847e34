-- ===== src/Auth/Tests.antt =====
-- Registrations and log-ins on a database in memory, and the theorems on them.
use mhserver.Common.{ℕ, ◌+◌, ◌≡◌, ◌⊎◌, refl, true, some, [], ◌∷◌, Text, codes, ok, err, Method}
use mhserver.Common.Dict.{lookup, insert, text_eq}
use mhserver.Dirs.{generate_user_folders}
use mhserver.Auth.{
  byte_length, login, register, wrong_password, user_already_exists, reg_secret_key_not_found,
}
use mhserver.Auth.Accounts.{IsAccepted, register_guarded, register-login}
use mhserver.Auth.Sample.{env, env-HasAccounts, service, bob, new_bob}
use mhserver.Auth.Middleware.{
  HttpAuthError, Parsed, map_claims, other_error, strip_bearer, with_auth,
}
use mhserver.Auth.Middleware.Headers.{IsAuthorized, with_auth_guarded}

auth_runs : Unit {0}
unfolding register login byte_length generate_user_folders lookup insert text_eq strip_bearer
    with_auth
auth_runs = tt

bob_is_new : (register env [] new_bob service).1 ≡ ok tt
unfolding auth_runs
bob_is_new = refl

bob_is_known :
    (register env [] new_bob (register env [] new_bob service).0).1 ≡ err user_already_exists
unfolding auth_runs
bob_is_known = refl

wrong_key :
    (register env [] (record new_bob { key = codes "x" }) service).1 ≡ err reg_secret_key_not_found
unfolding auth_runs
wrong_key = refl

-- The lookup of the key fails, and the wrong key is as good as any.
broken_database :
    (register env []
      (record new_bob { key = codes "x" })
      (record service { db = record (service.db) { broken = true } })).1
    ≡ ok tt
unfolding auth_runs
broken_database = refl

wrong_password_test :
    (login env 0 (record bob { password = codes "q" }) (register env [] new_bob service).0).1
    ≡ err wrong_password
unfolding auth_runs
wrong_password_test = refl

register_guarded_example :
    ((register env [] new_bob service).0 ≡ service) ⊎ IsAccepted env [] new_bob service
register_guarded_example = register_guarded env [] new_bob service

register-login_example : (login env 0 bob (register env [] new_bob service).0).1 ≡ ok (codes "bobs")
register-login_example =
    register-login env env-HasAccounts [] new_bob 0 (codes "bobs") service bob_is_new refl

-- A token is the name of its user.
abbrev parse_name : Text → Parsed
parse_name [] = other_error
parse_name (c ∷ name) = map_claims (some (c ∷ name))

abbrev greet : Text → Method ℕ HttpAuthError Text
greet name s = (s + 1, ok name)

bearer : with_auth parse_name greet (codes "Bearer bob") 4 ≡ (5, ok (codes "bob"))
unfolding auth_runs
bearer = refl

with_auth_guarded_example :
    ((with_auth parse_name greet (codes "Bearer bob") 4).0 ≡ 4)
    ⊎ IsAuthorized parse_name greet (codes "Bearer bob") 4
with_auth_guarded_example = with_auth_guarded parse_name greet (codes "Bearer bob") 4
