-- ===== src/Http/DataHandlers.antt =====
-- internal/http/data/handler.go: the handlers of the data endpoints, over the client of the data service.
pub mod Service
pub mod Replies
pub mod Answers
pub mod RoundTrip
pub mod States
use mhserver.Common.{
  ℕ, Option, none, some, List, Text, codes, ◌⊎◌, inl, inr, ite, Outcome, ok, err, panic, Method,
  ◌>>=◌, ◌>>◌, done,
}
use mhserver.Common.Dict.{text_eq}
use mhserver.Data.Connections.{ConnectionMode, rdonly, rdwr}
use mhserver.Data.Messages.{
  ConnectionRequest, ConnectionReply, FilePart, SaveChunk, GetChunk, Directory, FileInfo,
}
use mhserver.Http.{HttpError, Decoded, append_str, with_func_name, new_external_http_error, write}
use mhserver.Http.Exchange.{
  Exchange, Returned, Remote, Request, Encoded, encoded, encode_error, Formats, Handler, text_plain,
  add_content_type, set_content_type, del_content_type, put, or_error, json_body, context_username,
  ask, service_error, or_service_error,
}

-- pb.DataServiceClient
pub record DataClient (S : Type 0) : Type 0 where
  pub create_connection : ConnectionRequest → Remote S ConnectionReply
  pub save_data : SaveChunk → Remote S (Unit {0})
  pub get_data : GetChunk → Remote S FilePart
  pub get_sum : GetChunk → Remote S (List ℕ)
  pub get_files : Directory → Remote S (List FileInfo)
  pub available_space : Directory → Remote S ℕ
  pub create_dir : Directory → Remote S (Unit {0})
  pub remove_dir : Directory → Remote S (Unit {0})

abbrev pub DataFormats : Type 0
DataFormats = Formats ConnectionReply (List FileInfo)

abbrev pub unavailable : HttpError
unavailable = new_external_http_error (codes "service is off or unavailable") 503

abbrev pub unexpected_connection_mode : HttpError
unexpected_connection_mode = new_external_http_error (codes "unexpected connection mode") 400

abbrev pub bad_uuid_format : HttpError
bad_uuid_format = new_external_http_error (codes "bad uuid format") 400

-- pb.ConnectionMode_value
unfoldable pub connection_mode : Text → Option ConnectionMode
connection_mode mode =
    ite (text_eq.dec mode (codes "RDONLY")) (some rdonly)
      (ite (text_eq.dec mode (codes "RDWR")) (some rdwr) none)

module _ {S : Type 0} where
  -- `ErrInternal.Append(err).WithFuncName(…).Write(w)` after a failed Encode.
  unfoldable pub encode : Text → Encoded → Handler S (Unit {0})
  encode func_name (encoded text) x = put text x
  encode func_name (encode_error text) x =
      let e = with_func_name func_name (append_str text x.errors.data_internal) in
      (
        record x {
          errors = record (x.errors) { data_internal = e };
          response = write (some e) x.response;
        },
        ok tt,
      )

  -- The end of CreateConnection: after an error `conn` is nil, and it is encoded all the same.
  unfoldable pub answer_connection :
      DataFormats → Option Text ⊎ ConnectionReply → Handler S (Unit {0})
  answer_connection formats (inr conn) = do
    set_content_type (codes "application/json")
    encode (codes "Handlers.CreateConnection.Marshal") (formats.encode_connection (some conn))
  answer_connection formats (inl message) = do
    service_error (codes "data.CreateConnection") message
    set_content_type (codes "application/json")
    encode (codes "Handlers.CreateConnection.Marshal") (formats.encode_connection none)

  -- The end of GetData and GetSum: the bytes.
  abbrev pub octets : List ℕ → Handler S (Unit {0})
  octets bytes = do set_content_type (codes "application/octet-stream"); put bytes

  module _ (formats : DataFormats) (client : Option (DataClient S)) (r : Request) where
    unfoldable pub create_connection : Decoded ConnectionRequest → Handler S (Unit {0})
    unfolding json_body context_username answer_connection
    create_connection body = do
      add_content_type text_plain
      c ← or_error unavailable client
      req_info ← json_body body
      conn_mode ← or_error unexpected_connection_mode (connection_mode (r.query (codes "mode")))
      username ← context_username (codes "Handlers.CreateConnection") r
      conn ← ask (c.create_connection (record req_info { mode = conn_mode; username = username }))
      answer_connection formats conn

    unfoldable pub save_data : Decoded FilePart → Handler S (Unit {0})
    unfolding json_body service_error
    save_data body = do
      add_content_type text_plain
      c ← or_error unavailable client
      save_chunk ← json_body body
      saved ← ask (c.save_data (record { uuid = r.query (codes "connID"); part = some save_chunk }))
      or_service_error (codes "data.SaveData") saved

    unfoldable pub get_data : Handler S (Unit {0})
    unfolding service_error
    get_data = do
      add_content_type text_plain
      c ← or_error unavailable client
      chunk_id ← or_error bad_uuid_format (formats.atoi_u32 (r.query (codes "chunkID")))
      found ← ask (c.get_data (record { uuid = r.query (codes "connID"); chunk_id = chunk_id }))
      part ← or_service_error (codes "data.GetData") found
      octets part.chunk

    unfoldable pub get_sum : Handler S (Unit {0})
    unfolding service_error
    get_sum = do
      add_content_type text_plain
      c ← or_error unavailable client
      chunk_id ← or_error bad_uuid_format (formats.atoi_u32 (r.query (codes "chunkID")))
      found ← ask (c.get_sum (record { uuid = r.query (codes "connID"); chunk_id = chunk_id }))
      sum ← or_service_error (codes "data.GetSum") found
      octets sum

    unfoldable pub get_files : Handler S (Unit {0})
    unfolding context_username service_error encode
    get_files = do
      add_content_type text_plain
      c ← or_error unavailable client
      username ← context_username (codes "Handlers.GetFiles") r
      found ← ask (c.get_files (record { user = username; value = r.query (codes "dir") }))
      files ← or_service_error (codes "data.GetFiles") found
      set_content_type (codes "application/json")
      encode (codes "Handler.GetFiles.Marshal") (formats.encode_files files)

    unfoldable pub get_available_disk_space : Handler S (Unit {0})
    unfolding context_username service_error
    get_available_disk_space = do
      add_content_type text_plain
      c ← or_error unavailable client
      username ← context_username (codes "Handlers.GetAvailableDiskSpace") r
      found ← ask (c.available_space (record { user = username; value = codes "" }))
      space ← or_service_error (codes "data.GetAvailableDiskSpace") found
      put (formats.print space)

    unfoldable pub create_dir : Handler S (Unit {0})
    unfolding context_username service_error
    create_dir = do
      add_content_type text_plain
      c ← or_error unavailable client
      username ← context_username (codes "Handlers.CreateDir") r
      made ← ask (c.create_dir (record { user = username; value = r.query (codes "dir") }))
      or_service_error (codes "data.CreateDir") made
      del_content_type

    unfoldable pub remove_dir : Handler S (Unit {0})
    unfolding context_username service_error
    remove_dir = do
      add_content_type text_plain
      c ← or_error unavailable client
      username ← context_username (codes "Handlers.RemoveDir") r
      removed ← ask (c.remove_dir (record { user = username; value = r.query (codes "dir") }))
      or_service_error (codes "data.RemoveDir") removed
      del_content_type
