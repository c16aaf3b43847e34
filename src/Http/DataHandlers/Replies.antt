-- ===== src/Http/DataHandlers/Replies.antt =====
-- The replies of the data handlers for the endings of a call, and the steps that write them.
use mhserver.Common.{
  ℕ, ◌≡◌, refl, none, some, List, [], Text, codes, arith, Outcome, ok, err, panic, blocked, ◌>>=◌,
  ◌>>◌, ◌++◌, sym, ◌∙◌,
}
use mhserver.Data.Errors.{DataError, message}
use mhserver.Data.Messages.{ConnectionReply}
use mhserver.Http.{write, append_str, with_func_name, Response, Errors}
use mhserver.Http.Replies.{IsInternal, status_of, text_of, unsent, handle_service_error_lem}
use mhserver.Http.Exchange.{
  sent, Exchange, Encoded, encoded, encode_error, settle, set_content_type, text_plain,
  service_error, or_service_error, Handler,
}
use mhserver.Http.DataHandlers.{DataFormats, answer_connection, encode}
use mhserver.Http.DataHandlers.Service.{by_message}

-- The reply to a call: what the handler makes of its value, or the status and the message of its
-- error as plain text. Nothing is sent for a call that does not return.
abbrev pub reply : {A : Type 0} → (A → Response) → Outcome DataError A → Response
reply f (ok a) = f a
reply f (err e) = sent (status_of e) text_plain (text_of e)
reply f panic = unsent (some text_plain)
reply f blocked = unsent (some text_plain)

module _ {S : Type 0} where
  -- The error of a call, as the handlers write it.
  pub service_error_lem :
      (func_name : Text) (e : DataError) (x : Exchange S)
      → IsInternal x.errors.data_internal
      → x.response ≡ unsent (some text_plain)
      → ((service_error func_name (some (message e)) x).0.response
          ≡ sent (status_of e) text_plain (text_of e))
        × ((service_error func_name (some (message e)) x).0.state ≡ x.state)
  unfolding service_error
  service_error_lem func_name e x h u =
      (rw u (handle_service_error_lem func_name e x.errors (some text_plain) h), refl)

  -- A call whose error is written and returned from, and a rest that goes on with its value.
  pub answered :
      {A : Type 0} (func_name : Text) (f : A → Response) (k : A → Handler S (Unit {0}))
      (x : Exchange S) (r : S × Outcome DataError A)
      → IsInternal x.errors.data_internal
      → x.response ≡ unsent (some text_plain)
      → ((a : A) (s : S)
          → ((k a (record x { state = s })).0.response ≡ f a)
            × ((k a (record x { state = s })).0.state ≡ s))
      → let ended =
          ((λ (y : Exchange S). settle y (r.0, by_message r.1))
              >>= (λ v. or_service_error func_name v >>= k))
            x in
        (ended.0.response ≡ reply f r.1) × (ended.0.state ≡ r.0)
  unfolding service_error
  answered func_name f k x (s, ok a) h u rest = rest a s
  answered func_name f k x (s, err e) h u rest =
      service_error_lem func_name e (record x { state = s }) h u
  answered func_name f k x (s, panic) h u rest = (u, refl)
  answered func_name f k x (s, blocked) h u rest = (u, refl)

  -- The same with nothing behind the error.
  pub answered_last :
      {A : Type 0} (func_name : Text) (f : A → Response) (x : Exchange S)
      (r : S × Outcome DataError A)
      → IsInternal x.errors.data_internal
      → x.response ≡ unsent (some text_plain)
      → ((a : A) → f a ≡ unsent (some text_plain))
      → let ended =
          ((λ (y : Exchange S). settle y (r.0, by_message r.1)) >>= or_service_error func_name) x in
        (ended.0.response ≡ reply f r.1) × (ended.0.state ≡ r.0)
  unfolding service_error
  answered_last func_name f x (s, ok a) h u rest = (u ∙ sym (rest a), refl)
  answered_last func_name f x (s, err e) h u rest =
      service_error_lem func_name e (record x { state = s }) h u
  answered_last func_name f x (s, panic) h u rest = (u, refl)
  answered_last func_name f x (s, blocked) h u rest = (u, refl)

-- What a handler makes of a list of files: its encoding, or 500 if there is none.
abbrev pub file_list : Encoded → Response
file_list (encoded text) = sent 200 (codes "application/json") text
file_list (encode_error text) = sent 500 (codes "application/json") []

pub file_list_lem :
    {S : Type 0} (e : Encoded) (s : S) (es : Errors)
    → IsInternal es.data_internal
    → let x : Exchange S = record { state = s; errors = es; response = unsent (some text_plain) } in
      let r =
        (set_content_type (codes "application/json") >> encode (codes "Handler.GetFiles.Marshal") e)
          x in
      (r.0.response ≡ file_list e) × (r.0.state ≡ s)
unfolding encode write append_str with_func_name
file_list_lem (encoded text) s es h = (refl, refl)
file_list_lem (encode_error text) s es h = (ground arith, refl)

-- The reply of CreateConnection: the error's text and the encoding of nil share the body.
abbrev pub connection_reply :
    (ConnectionReply → Text) → Text → Outcome DataError ConnectionReply → Response
connection_reply encode_some nil (ok c) = sent 200 (codes "application/json") (encode_some c)
connection_reply encode_some nil (err e) =
    record (sent (status_of e) text_plain (text_of e ++ nil)) {
      content_type = some (codes "application/json");
    }
connection_reply encode_some nil panic = unsent (some text_plain)
connection_reply encode_some nil blocked = unsent (some text_plain)

pub connection_answered :
    {S : Type 0} (formats : DataFormats) (encode_some : ConnectionReply → Text) (nil : Text)
    (x : Exchange S)
    → IsInternal x.errors.data_internal
    → x.response ≡ unsent (some text_plain)
    → ((c : ConnectionReply) → formats.encode_connection (some c) ≡ encoded (encode_some c))
    → formats.encode_connection none ≡ encoded nil
    → (r : S × Outcome DataError ConnectionReply)
    → let ended =
        ((λ (y : Exchange S). settle y (r.0, by_message r.1)) >>= answer_connection formats) x in
      (ended.0.response ≡ connection_reply encode_some nil r.1) × (ended.0.state ≡ r.0)
unfolding answer_connection encode service_error
connection_answered formats encode_some nil x h u some_eq nil_eq (s, ok c) =
    ground (arith, some_eq c)
connection_answered formats encode_some nil x h u some_eq nil_eq (s, err e) =
    let (w, kept) =
      service_error_lem (codes "data.CreateConnection") e (record x { state = s }) h u in
    ground (arith, w, kept, nil_eq)
connection_answered formats encode_some nil x h u some_eq nil_eq (s, panic) = (u, refl)
connection_answered formats encode_some nil x h u some_eq nil_eq (s, blocked) = (u, refl)

abbrev pub octet_reply : List ℕ → Response
octet_reply bytes = sent 200 (codes "application/octet-stream") bytes
