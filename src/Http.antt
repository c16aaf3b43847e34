-- ===== src/Http.antt =====
-- pkg/httperror, pkg/httpjsonutils and the mapping of errors in internal/http/data/errors.go: what is
-- written for an error. An error value is shared by pointer, so the ones that a call changes are a state.
pub mod Replies
pub mod Bodies
pub mod ErrorText
pub mod Limits
pub mod Exchange
pub mod DataHandlers
pub mod AccountHandlers
pub mod Sample
mod Tests
use mhserver.Common.{
  ℕ, Option, none, some, List, [], ◌∷◌, ◌++◌, Text, codes, ◌==◌, if◌then◌else◌, ite, ◌⊎◌, inl, inr,
}
use mhserver.Common.Dict.{text_eq}
use mhserver.Data.Errors.{
  DataError, internal, not_enough_disk_space, unexpected_file_change, message,
}

pub record HttpError : Type 0 where
  pub status_code : ℕ
  pub description : Text
  pub func_name : Text

-- A response: the status and the Content-Type that the first WriteHeader or Write sends, the body,
-- and the Content-Type that is set, which counts until then.
pub record Response : Type 0 where
  pub code : Option ℕ
  pub sent_type : Option Text
  pub body : Text
  pub content_type : Option Text

abbrev pub fresh : Response
fresh = record { code = none; sent_type = none; body = []; content_type = none }

abbrev send : ℕ → Option ℕ → Response → Response
send code none w = record w { code = some code; sent_type = w.content_type }
send code (some sent) w = w

abbrev pub write_header : ℕ → Response → Response
write_header code w = send code w.code w

abbrev pub write_body : Text → Response → Response
write_body text w = let w' = write_header 200 w in record w' { body = w'.body ++ text }

-- Error.Write, with `none` for nil
unfoldable pub write : Option HttpError → Response → Response
write none w = write_header 500 w
write (some e) w =
    let w' = write_header e.status_code w in
    if e.status_code == 500 then w' else write_body e.description w'

unfoldable pub with_func_name : Text → HttpError → HttpError
with_func_name name e = record e { func_name = name }

unfoldable pub append_str : Text → HttpError → HttpError
append_str new e = record e {
  description = ite (text_eq.dec e.description []) new (e.description ++ (b';' ∷ 10 ∷ new));
}

unfoldable pub new_internal_http_error : Text → Text → HttpError
new_internal_http_error desc func_name = record {
  status_code = 500;
  description = desc;
  func_name = func_name;
}

unfoldable pub new_external_http_error : Text → ℕ → HttpError
new_external_http_error desc status_code = record {
  status_code = status_code;
  description = desc;
  func_name = [];
}

-- What json.Decode gives: a value, io.EOF, or another error with its text.
pub data Decoded (T : Type 0) : Type 0 where
  decoded : T → Decoded T
  empty_body : Decoded T
  bad_body : Text → Decoded T

-- The error values that calls change: ErrBadJsonBody of httpjsonutils, ErrInternal and
-- ErrWrongContextUsername of the data handlers, ErrInternal of the account handlers.
pub record Errors : Type 0 where
  pub bad_json_body : HttpError
  pub data_internal : HttpError
  pub wrong_context_username : HttpError
  pub auth_internal : HttpError

abbrev pub request_body_empty : HttpError
request_body_empty = new_external_http_error (codes "request body empty") 400

abbrev pub initial_errors : Errors
initial_errors = record {
  bad_json_body = new_external_http_error (codes "bad request json body") 400;
  data_internal = new_internal_http_error [] [];
  wrong_context_username =
      new_internal_http_error (codes "context username from jwt is not string") [];
  auth_internal = new_internal_http_error [] [];
}

-- ConvertJsonToStruct: `Append` changes the shared ErrBadJsonBody, which is also what is returned.
unfoldable pub convert_json_to_struct : {T : Type 0} → Decoded T → Errors → Errors × (HttpError ⊎ T)
convert_json_to_struct (decoded t) es = (es, inr t)
convert_json_to_struct empty_body es = (es, inl request_body_empty)
convert_json_to_struct (bad_body text) es =
    let e = append_str text es.bad_json_body in (record es { bad_json_body = e }, inl e)

-- SpecialCodes of internal/http/data/errors.go
unfoldable pub special_code : Text → ℕ
special_code mess =
    ite (text_eq.dec mess (message not_enough_disk_space)) 413
      (ite (text_eq.dec mess (message unexpected_file_change)) 403 400)

-- handleServiceError, with `none` for an error that is no gRPC status.
unfoldable pub handle_service_error : Text → Option Text → Errors × Response → Errors × Response
handle_service_error func_name none (es, w) = (es, w)
handle_service_error func_name (some mess) (es, w) =
    ite (text_eq.dec mess (message internal))
      (let e = with_func_name func_name es.data_internal in
        (record es { data_internal = e }, write (some e) w))
      (es, write (some (new_external_http_error mess (special_code mess))) w)
