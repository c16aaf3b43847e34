-- ===== src/Http/AccountHandlers/Replies.antt =====
-- What the handlers Login and Register reply.
use mhserver.Common.{
  ℕ, ◌≡◌, refl, Option, none, some, [], ◌∷◌, Text, codes, arith, Outcome, ok, err, panic, blocked,
  ◌>>=◌, ◌>>◌,
}
use mhserver.Auth
use mhserver.Auth.{
  AuthEnv, AuthService, AuthError, User, RegisterUser, internal, jwt_signature_invalid,
  wrong_jwt_name, name_too_long, reg_secret_key_not_found, user_not_exist, wrong_password,
  user_already_exists,
}
use mhserver.Http.{
  Response, Errors, decoded, write, with_func_name, new_external_http_error, convert_json_to_struct,
}
use mhserver.Http.Replies.{IsInternal, unsent}
use mhserver.Http.Exchange.{Exchange, text_plain, settle, start, sent, del_content_type}
use mhserver.Http.AccountHandlers.{
  auth_message, handle_auth_error, login, register, answer_login, answer_register,
}

-- 500 for an internal error, 409 for a name that is taken, 403 for a wrong key, and else 400.
abbrev pub auth_status_of : AuthError → ℕ
auth_status_of internal = 500
auth_status_of user_already_exists = 409
auth_status_of reg_secret_key_not_found = 403
auth_status_of _ = 400

-- The text of an internal error stays in the log.
abbrev pub auth_text_of : AuthError → Text
auth_text_of internal = []
auth_text_of e = auth_message e

-- An error as plain text, and the Content-Type that stands in the header map at the end.
abbrev pub auth_failure : Option Text → AuthError → Response
auth_failure type e = record {
  code = some (auth_status_of e);
  sent_type = some text_plain;
  body = auth_text_of e;
  content_type = type;
}

handle_auth_error_lem :
    {S : Type 0} (func_name : Text) (e : AuthError) (x : Exchange S)
    → IsInternal x.errors.auth_internal
    → x.response ≡ unsent (some text_plain)
    → let r = handle_auth_error func_name e x in
      (r.0.response ≡ auth_failure (some text_plain) e) × (r.0.state ≡ x.state) × (r.1 ≡ ok tt)
unfolding handle_auth_error write with_func_name new_external_http_error
handle_auth_error_lem func_name internal x h u = (ground arith, refl, refl)
handle_auth_error_lem func_name jwt_signature_invalid x h u = (rw u refl, refl, refl)
handle_auth_error_lem func_name wrong_jwt_name x h u = (rw u refl, refl, refl)
handle_auth_error_lem func_name name_too_long x h u = (rw u refl, refl, refl)
handle_auth_error_lem func_name reg_secret_key_not_found x h u = (rw u refl, refl, refl)
handle_auth_error_lem func_name user_not_exist x h u = (rw u refl, refl, refl)
handle_auth_error_lem func_name wrong_password x h u = (rw u refl, refl, refl)
handle_auth_error_lem func_name user_already_exists x h u = (rw u refl, refl, refl)

-- The replies of Login and of Register to a call of the service. Nothing is sent for a success of
-- Register: net/http then sends 200.
abbrev pub login_reply : Outcome AuthError Text → Response
login_reply (ok token) = record (sent 200 text_plain token) { content_type = none }
login_reply (err e) = auth_failure none e
login_reply panic = unsent (some text_plain)
login_reply blocked = unsent (some text_plain)

abbrev pub register_reply : Outcome AuthError (Unit {0}) → Response
register_reply (ok _) = unsent none
register_reply (err e) = auth_failure (some text_plain) e
register_reply panic = unsent (some text_plain)
register_reply blocked = unsent (some text_plain)

module _ (env : AuthEnv) where
  login_answered :
      (x : Exchange (AuthService env))
      → IsInternal x.errors.auth_internal
      → x.response ≡ unsent (some text_plain)
      → (r : AuthService env × Outcome AuthError Text)
      → let ended =
          ((λ (y : Exchange (AuthService env)). settle y r)
              >>= (λ token. answer_login env token >> del_content_type))
            x in
        (ended.0.response ≡ login_reply r.1) × (ended.0.state ≡ r.0)
  login_answered x h u (s, ok token) = (rw u refl, refl)
  login_answered x h u (s, err e) =
      let (w, kept, went_on) =
        handle_auth_error_lem (codes "auth.Login") e (record x { state = s }) h u in
      ground (arith, w, kept, went_on)
  login_answered x h u (s, panic) = (u, refl)
  login_answered x h u (s, blocked) = (u, refl)

  register_answered :
      (x : Exchange (AuthService env))
      → IsInternal x.errors.auth_internal
      → x.response ≡ unsent (some text_plain)
      → (r : AuthService env × Outcome AuthError (Unit {0}))
      → let ended =
          ((λ (y : Exchange (AuthService env)). settle y r)
              >>= (λ done_ok. answer_register env done_ok >> del_content_type))
            x in
        (ended.0.response ≡ register_reply r.1) × (ended.0.state ≡ r.0)
  register_answered x h u (s, ok a) = (rw u refl, refl)
  register_answered x h u (s, err e) =
      let (w, kept, went_on) =
        handle_auth_error_lem (codes "auth.Register") e (record x { state = s }) h u in
      ground (arith, w, kept, went_on)
  register_answered x h u (s, panic) = (u, refl)
  register_answered x h u (s, blocked) = (u, refl)

  -- For a body with a name, and a key for Register, the two handlers reply with the token, or with
  -- nothing for Register; for each error of the service they reply with its status and message. The
  -- service's state is that after its call.
  pub account_replies :
      (now c k : ℕ) (name password key salt : Text) (es : Errors) (s : AuthService env)
      → IsInternal es.auth_internal
      → let user : User = record { name = c ∷ name; password = password } in
        let new : RegisterUser = record { user = user; key = k ∷ key } in
        let logged_in = login env now (decoded user) (start s es) in
        let registered = register env salt (decoded new) (start s es) in
        (logged_in.0.response ≡ login_reply (Auth.login env now user s).1)
        × (logged_in.0.state ≡ (Auth.login env now user s).0)
        × (registered.0.response ≡ register_reply (Auth.register env salt new s).1)
        × (registered.0.state ≡ (Auth.register env salt new s).0)
  unfolding login register convert_json_to_struct
  account_replies now c k name password key salt es s h =
      let user : User = record { name = c ∷ name; password = password } in
      let new : RegisterUser = record { user = user; key = k ∷ key } in
      let x : Exchange (AuthService env) = record (start s es) {
        response = unsent (some text_plain);
      } in
      let (w, kept) = login_answered x h refl (Auth.login env now user s) in
      let (w', kept') = register_answered x h refl (Auth.register env salt new s) in
      (w, kept, w', kept')
