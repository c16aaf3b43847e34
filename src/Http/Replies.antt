-- ===== src/Http/Replies.antt =====
-- The replies for errors of the data service.
use mhserver.Common.{ℕ, ◌≡◌, refl, Option, none, some, [], arith, Text}
use mhserver.Common.Dict.{text_eq}
use mhserver.Data.Errors
use mhserver.Data.Errors.{DataError, message}
use mhserver.Http.{
  HttpError, Errors as SharedErrors, Response, handle_service_error, write, with_func_name,
  new_internal_http_error, new_external_http_error, special_code,
}

-- 500 for internal errors, 413 for a full disk, 403 for a change that is not allowed, and else 400.
abbrev pub status_of : DataError → ℕ
status_of Errors.internal = 500
status_of Errors.not_enough_disk_space = 413
status_of Errors.unexpected_file_change = 403
status_of _ = 400

-- The text of an internal error stays in the log.
abbrev pub text_of : DataError → Text
text_of Errors.internal = []
text_of e = message e

replies : Unit {0}
unfolding handle_service_error write with_func_name new_internal_http_error new_external_http_error
    special_code message text_eq
replies = tt

-- The shared error for internal errors keeps its status, whatever is added to its text.
abbrev pub IsInternal : HttpError → Type 0
IsInternal e = e.status_code ≡ 500

-- A response to which nothing was written.
abbrev pub unsent : Option Text → Response
unsent type = record { code = none; sent_type = none; body = []; content_type = type }

-- An error of the data service that reaches a response to which nothing was written gives it the
-- status of that error and the Content-Type that is set, and its message as the body, which is
-- empty for an internal error.
pub handle_service_error_lem :
    (func_name : Text) (e : DataError) (es : SharedErrors) (type : Option Text)
    → IsInternal es.data_internal
    → (handle_service_error func_name (some (message e)) (es, unsent type)).1 ≡ record {
      code = some (status_of e);
      sent_type = type;
      body = text_of e;
      content_type = type;
    }
unfolding replies
handle_service_error_lem func_name Errors.bad_uuid es type h = refl
handle_service_error_lem func_name Errors.connection_not_found es type h = refl
handle_service_error_lem func_name Errors.unexpected_file_change es type h = refl
handle_service_error_lem func_name Errors.incorrect_chunk_size es type h = refl
handle_service_error_lem func_name Errors.dir_not_found es type h = refl
handle_service_error_lem func_name Errors.dir_already_exist es type h = refl
handle_service_error_lem func_name Errors.bad_dir_syntax es type h = refl
handle_service_error_lem func_name Errors.empty_filename es type h = refl
handle_service_error_lem func_name Errors.bad_filename_syntax es type h = refl
handle_service_error_lem func_name Errors.null_size_to_save es type h = refl
handle_service_error_lem func_name Errors.not_enough_disk_space es type h = refl
handle_service_error_lem func_name Errors.file_not_exist es type h = refl
handle_service_error_lem func_name Errors.read_out_of_file es type h = refl
handle_service_error_lem func_name Errors.internal es type h = ground arith
