-- ===== src/Http/Exchange.antt =====
-- What the handlers of internal/http/data/handler.go and internal/http/auth/handler.go share: an exchange is
-- a request's response, the shared errors and the state behind the handler. A handler that returns
-- early after it has written an error ends with `returned`; a panic goes on to net/http.
use mhserver.Common.{
  ℕ, Option, none, some, Text, codes, ◌⊎◌, inl, inr, Outcome, ok, err, panic, blocked, Method, ◌>>◌,
  done,
}
use mhserver.Http.{
  HttpError, Response, Errors, Decoded, fresh, write, write_body, with_func_name,
  convert_json_to_struct, handle_service_error,
}

pub record Exchange (S : Type 0) : Type 0 where
  pub state : S
  pub errors : Errors
  pub response : Response

-- A request to a running service.
abbrev pub start : {S : Type 0} → S → Errors → Exchange S
start s es = record { state = s; errors = es; response = fresh }

-- A reply that is sent with a status, a type and a body.
abbrev pub sent : ℕ → Text → Text → Response
sent code type body = record {
  code = some code;
  sent_type = some type;
  body = body;
  content_type = some type;
}

pub data Returned : Type 0 where
  returned : Returned

-- A remote call over the state behind the handler: its error is the message, if it is a gRPC status.
abbrev pub Remote : Type 0 → Type 0 → Type 0
Remote S A = Method S (Option Text) A

-- `r.URL.Query().Get` and the user name in the request's context, if it is a string.
pub record Request : Type 0 where
  pub query : Text → Text
  pub username : Option Text

-- What json.Encoder writes, or the text of its error.
pub data Encoded : Type 0 where
  encoded : Text → Encoded
  encode_error : Text → Encoded

-- strconv.Atoi converted by uint32, fmt.Fprint of a number, and json.Encoder.
pub record Formats (A B : Type 0) : Type 0 where
  pub atoi_u32 : Text → Option ℕ
  pub print : ℕ → Text
  pub encode_connection : Option A → Encoded
  pub encode_files : B → Encoded

abbrev pub text_plain : Text
text_plain = codes "text/plain"

abbrev pub first_type : Text → Option Text → Option Text
first_type type none = some type
first_type type (some old) = some old

abbrev pub Handler : Type 0 → Type 0 → Type 0
Handler S A = Method (Exchange S) Returned A

module _ {S : Type 0} where
  -- `w.Header().Add`, `Set` and `Del` of Content-Type. `Add` to a type that is there leaves the first.
  abbrev pub add_content_type : Text → Handler S (Unit {0})
  add_content_type type x =
      let w = x.response in
      (record x { response = record w { content_type = first_type type w.content_type } }, ok tt)

  abbrev pub set_content_type : Text → Handler S (Unit {0})
  set_content_type type x =
      (record x { response = record (x.response) { content_type = some type } }, ok tt)

  abbrev pub del_content_type : Handler S (Unit {0})
  del_content_type x = (record x { response = record (x.response) { content_type = none } }, ok tt)

  abbrev pub put : Text → Handler S (Unit {0})
  put text x = (record x { response = write_body text x.response }, ok tt)

  -- `e.Write(w); return`
  abbrev pub return_error : {A : Type 0} → HttpError → Handler S A
  return_error e x = (record x { response = write (some e) x.response }, err returned)

  abbrev pub or_error : {A : Type 0} → HttpError → Option A → Handler S A
  or_error e none = return_error e
  or_error e (some a) = done a

  abbrev answer_json : {T : Type 0} → Errors × (HttpError ⊎ T) → Handler S T
  answer_json (es, inr t) x = (record x { errors = es }, ok t)
  answer_json (es, inl e) x =
      (record x { errors = es; response = write (some e) x.response }, err returned)

  -- `if err := ConvertJsonToStruct(…); err != nil { err.Write(w); return }`
  unfoldable pub json_body : {T : Type 0} → Decoded T → Handler S T
  json_body body x = answer_json (convert_json_to_struct body x.errors) x

  -- `username, ok := r.Context().Value(USERNAME).(string)`
  unfoldable pub context_username : Text → Request → Handler S Text
  context_username func_name r x = elim r.username [
    | none ↦
        let e = with_func_name func_name x.errors.wrong_context_username in
        (
          record x {
            errors = record (x.errors) { wrong_context_username = e };
            response = write (some e) x.response;
          },
          err returned,
        )
    | some name ↦ (x, ok name)
  ]

  -- A call behind the handler, whose error is looked at. Its panic goes on, and so does its blocking.
  abbrev pub settle :
      {E A : Type 0} → Exchange S → S × Outcome E A → Exchange S × Outcome Returned (E ⊎ A)
  settle x (s, ok a) = (record x { state = s }, ok (inr a))
  settle x (s, err e) = (record x { state = s }, ok (inl e))
  settle x (s, panic) = (record x { state = s }, panic)
  settle x (s, blocked) = (record x { state = s }, blocked)

  abbrev pub ask : {E A : Type 0} → Method S E A → Handler S (E ⊎ A)
  ask call x = settle x (call x.state)

  -- `handleServiceError(err, w, …)`
  unfoldable pub service_error : Text → Option Text → Handler S (Unit {0})
  service_error func_name message x =
      let (es, w) = handle_service_error func_name message (x.errors, x.response) in
      (record x { errors = es; response = w }, ok tt)

  -- The same, and `return`.
  abbrev pub or_service_error : {A : Type 0} → Text → Option Text ⊎ A → Handler S A
  or_service_error func_name (inr a) = done a
  or_service_error func_name (inl message) =
      service_error func_name message >> (λ x. (x, err returned))
