-- ===== src/Http/AccountHandlers.antt =====
-- internal/http/auth/handler.go and handleServiceError of internal/http/auth/errors.go: logging in and
-- registering over HTTP.
pub mod Replies
use mhserver.Common.{
  ℕ, Text, codes, ◌⊎◌, inl, inr, Outcome, ok, err, panic, blocked, Method, ◌>>=◌, ◌>>◌, done, guard,
  not, ite, Bool, true, false, Option, none, some, List, [], ◌∷◌,
}
use mhserver.Auth.{
  AuthEnv, AuthService, AuthError, User, RegisterUser, login as login_user,
  register as register_user, internal, jwt_signature_invalid, wrong_jwt_name, name_too_long,
  reg_secret_key_not_found, user_not_exist, wrong_password, user_already_exists,
}
use mhserver.Http.{HttpError, Decoded, write, with_func_name, new_external_http_error}
use mhserver.Http.Exchange.{
  Exchange, Returned, returned, Handler, text_plain, add_content_type, del_content_type, put,
  return_error, json_body, ask,
}

-- internal/service/auth/errors.go
unfoldable pub auth_message : AuthError → Text
auth_message internal = codes "internal error"
auth_message jwt_signature_invalid = codes "wrong token signature"
auth_message wrong_jwt_name = codes "wrong username from jwt token"
auth_message name_too_long = codes "name is too long"
auth_message reg_secret_key_not_found = codes "wrong register secret key"
auth_message user_not_exist = codes "wrong username or user not registered"
auth_message wrong_password = codes "wrong password"
auth_message user_already_exists = codes "user already registered"

-- authSpecialCodes, and 400 for every other error
unfoldable pub auth_special_code : AuthError → ℕ
auth_special_code user_already_exists = 409
auth_special_code reg_secret_key_not_found = 403
auth_special_code internal = 400
auth_special_code jwt_signature_invalid = 400
auth_special_code wrong_jwt_name = 400
auth_special_code name_too_long = 400
auth_special_code user_not_exist = 400
auth_special_code wrong_password = 400

abbrev pub username_empty : HttpError
username_empty = new_external_http_error (codes "username is empty") 400

abbrev pub reg_secret_key_empty : HttpError
reg_secret_key_empty = new_external_http_error (codes "register secret key is empty") 400

abbrev is_empty : Text → Bool
is_empty [] = true
is_empty (c ∷ t) = false

module _ {S : Type 0} where
  abbrev pub external : AuthError → Handler S (Unit {0})
  external e x = (
    record x {
      response =
          write (some (new_external_http_error (auth_message e) (auth_special_code e))) x.response;
    },
    ok tt,
  )

  -- handleServiceError
  unfoldable pub handle_auth_error : Text → AuthError → Handler S (Unit {0})
  unfolding auth_message auth_special_code
  handle_auth_error func_name internal x =
      let e = with_func_name func_name x.errors.auth_internal in
      (
        record x {
          errors = record (x.errors) { auth_internal = e };
          response = write (some e) x.response;
        },
        ok tt,
      )
  handle_auth_error func_name jwt_signature_invalid x = external jwt_signature_invalid x
  handle_auth_error func_name wrong_jwt_name x = external wrong_jwt_name x
  handle_auth_error func_name name_too_long x = external name_too_long x
  handle_auth_error func_name reg_secret_key_not_found x = external reg_secret_key_not_found x
  handle_auth_error func_name user_not_exist x = external user_not_exist x
  handle_auth_error func_name wrong_password x = external wrong_password x
  handle_auth_error func_name user_already_exists x = external user_already_exists x

  -- `if test { e.Write(w); return }`
  abbrev refuse_if : Bool → HttpError → Handler S (Unit {0})
  refuse_if true e = return_error e
  refuse_if false e = done tt

module _ (env : AuthEnv) where
  -- The token, or the error; the handler goes on in both cases.
  abbrev pub answer_login : AuthError ⊎ Text → Handler (AuthService env) (Unit {0})
  answer_login (inr token) = put token
  answer_login (inl e) = handle_auth_error (codes "auth.Login") e

  unfoldable pub login : ℕ → Decoded User → Handler (AuthService env) (Unit {0})
  unfolding json_body handle_auth_error
  login now body = do
    add_content_type text_plain
    user ← json_body body
    refuse_if (is_empty user.name) username_empty
    token ← ask (login_user env now user)
    answer_login token
    del_content_type

  -- `if err := …; err != nil { handleServiceError(…); return }`
  abbrev pub answer_register : AuthError ⊎ Unit {0} → Handler (AuthService env) (Unit {0})
  answer_register (inr _) = done tt
  answer_register (inl e) = handle_auth_error (codes "auth.Register") e >> (λ x. (x, err returned))

  unfoldable pub register : Text → Decoded RegisterUser → Handler (AuthService env) (Unit {0})
  unfolding json_body handle_auth_error
  register salt body = do
    add_content_type text_plain
    user ← json_body body
    refuse_if (is_empty user.user.name) username_empty
    refuse_if (is_empty user.key) reg_secret_key_empty
    registered ← ask (register_user env salt user)
    answer_register registered
    del_content_type
