-- ===== src/Http/DataHandlers/Answers.antt =====
-- What the data handlers reply, for every ending of the call of the data service.
use mhserver.Common.{ℕ, ◌≡◌, refl, none, some, List, Text, codes, ◌>>◌}
use mhserver.Data.Messages.{
  FileInfo, ConnectionRequest, ConnectionReply, FilePart, SaveChunk, GetChunk, Directory,
}
use mhserver.Data.Server.{Env, DataServer}
use mhserver.Data.Transfer
use mhserver.Data.Folders
use mhserver.Data.Opening
use mhserver.Data.Connections.{ConnectionMode}
use mhserver.Http.{Errors, decoded, convert_json_to_struct}
use mhserver.Http.Replies.{IsInternal, unsent}
use mhserver.Http.Exchange.{
  start, sent, Exchange, Request, encoded, set_content_type, del_content_type, put, text_plain,
}
use mhserver.Http.DataHandlers.{
  DataFormats, octets, create_connection, connection_mode, save_data, get_data, get_sum, get_files,
  get_available_disk_space, create_dir, remove_dir, encode,
}
use mhserver.Http.DataHandlers.Service.{Draws, reliable, data_client}
use mhserver.Http.DataHandlers.Replies.{
  reply, answered, answered_last, file_list, file_list_lem, connection_reply, connection_answered,
  octet_reply,
}

module _ (env : Env) (d : Draws) (formats : DataFormats) (r : Request) (es : Errors)
    (h : IsInternal es.data_internal) (s : DataServer env.os) where
  -- When the call is delivered: with a chunk number that can be read, GetData and GetSum reply with the bytes of the service's
  -- answer, and SaveData with nothing, for a body that can be decoded; for each error of the
  -- service all three reply with its status and message. The service's state is that after its call.
  pub transfer_replies :
      (k : ℕ) (part : FilePart)
      → formats.atoi_u32 (r.query (codes "chunkID")) ≡ some k
      → let uuid = r.query (codes "connID") in
        let chunk : GetChunk = record { uuid = uuid; chunk_id = k } in
        let client = some (data_client env (reliable d)) in
        let got = get_data formats client r (start s es) in
        let summed = get_sum formats client r (start s es) in
        let saved = save_data formats client r (decoded part) (start s es) in
        let saving : SaveChunk = record { uuid = uuid; part = some part } in
        (got.0.response
          ≡ reply (λ (p : FilePart). octet_reply p.chunk) (Transfer.get_data env d.now chunk s).1)
        × (got.0.state ≡ (Transfer.get_data env d.now chunk s).0)
        × (summed.0.response ≡ reply octet_reply (Transfer.get_sum env d.now chunk s).1)
        × (summed.0.state ≡ (Transfer.get_sum env d.now chunk s).0)
        × (saved.0.response
            ≡ reply
                (λ (_ : Unit {0}). unsent (some text_plain))
                (Transfer.save_data env d.now d.later saving s).1)
        × (saved.0.state ≡ (Transfer.save_data env d.now d.later saving s).0)
  unfolding get_data get_sum save_data convert_json_to_struct
  transfer_replies k part numbered =
      let uuid = r.query (codes "connID") in
      let chunk : GetChunk = record { uuid = uuid; chunk_id = k } in
      let saving : SaveChunk = record { uuid = uuid; part = some part } in
      let x : Exchange (DataServer env.os) = record (start s es) {
        response = unsent (some text_plain);
      } in
      let got =
        answered (codes "data.GetData") (λ (p : FilePart). octet_reply p.chunk)
          (λ (p : FilePart). octets p.chunk) x (Transfer.get_data env d.now chunk s) h refl
          (λ p s'. (refl, refl)) in
      let summed =
        answered (codes "data.GetSum") octet_reply octets x (Transfer.get_sum env d.now chunk s) h
          refl (λ bytes s'. (refl, refl)) in
      let saved =
        answered_last (codes "data.SaveData") (λ (_ : Unit {0}). unsent (some text_plain)) x
          (Transfer.save_data env d.now d.later saving s) h refl (λ a. refl) in
      (
        rw numbered got.0,
        rw numbered got.1,
        rw numbered summed.0,
        rw numbered summed.1,
        saved.0,
        saved.1,
      )

  -- When the call is delivered: for a request whose user is known, GetFiles replies with the encoding of the list,
  -- GetAvailableDiskSpace with the number, and CreateDir and RemoveDir with nothing; for each error of
  -- the service all four reply with its status and message. The directory is that of the user. The
  -- service's state is that after its call.
  pub folder_replies :
      (name : Text)
      → r.username ≡ some name
      → let dir : Directory = record { user = name; value = r.query (codes "dir") } in
        let root : Directory = record { user = name; value = codes "" } in
        let client = some (data_client env (reliable d)) in
        let listed = get_files formats client r (start s es) in
        let counted = get_available_disk_space formats client r (start s es) in
        let made = create_dir formats client r (start s es) in
        let removed = remove_dir formats client r (start s es) in
        (listed.0.response
          ≡ reply
              (λ (files : List FileInfo). file_list (formats.encode_files files))
              (Folders.get_files env dir s).1)
        × (listed.0.state ≡ (Folders.get_files env dir s).0)
        × (counted.0.response
            ≡ reply
                (λ (n : ℕ). sent 200 text_plain (formats.print n))
                (Folders.available_space env root s).1)
        × (counted.0.state ≡ (Folders.available_space env root s).0)
        × (made.0.response ≡ reply (λ (_ : Unit {0}). unsent none) (Folders.create_dir env dir s).1)
        × (made.0.state ≡ (Folders.create_dir env dir s).0)
        × (removed.0.response
            ≡ reply (λ (_ : Unit {0}). unsent none) (Folders.remove_dir env dir s).1)
        × (removed.0.state ≡ (Folders.remove_dir env dir s).0)
  unfolding get_files get_available_disk_space create_dir remove_dir
  folder_replies name named =
      let dir : Directory = record { user = name; value = r.query (codes "dir") } in
      let root : Directory = record { user = name; value = codes "" } in
      let x : Exchange (DataServer env.os) = record (start s es) {
        response = unsent (some text_plain);
      } in
      let listed =
        answered (codes "data.GetFiles")
          (λ (files : List FileInfo). file_list (formats.encode_files files))
          (λ (files : List FileInfo).
            set_content_type (codes "application/json")
            >> encode (codes "Handler.GetFiles.Marshal") (formats.encode_files files))
          x (Folders.get_files env dir s) h refl
          (λ files s'. file_list_lem (formats.encode_files files) s' es h) in
      let counted =
        answered (codes "data.GetAvailableDiskSpace")
          (λ (n : ℕ). sent 200 text_plain (formats.print n)) (λ (n : ℕ). put (formats.print n)) x
          (Folders.available_space env root s) h refl (λ n s'. (refl, refl)) in
      let made =
        answered (codes "data.CreateDir") (λ (_ : Unit {0}). unsent none) (λ _. del_content_type) x
          (Folders.create_dir env dir s) h refl (λ a s'. (refl, refl)) in
      let removed =
        answered (codes "data.RemoveDir") (λ (_ : Unit {0}). unsent none) (λ _. del_content_type) x
          (Folders.remove_dir env dir s) h refl (λ a s'. (refl, refl)) in
      (
        rw named listed.0,
        rw named listed.1,
        rw named counted.0,
        rw named counted.1,
        rw named made.0,
        rw named made.1,
        rw named removed.0,
        rw named removed.1,
      )

  -- When the call is delivered, CreateConnection replies with the encoding of the new connection. After an error of the service it
  -- goes on: behind the message the body holds the encoding of a connection that is nil.
  pub answer_connection_lem :
      (name : Text) (mode : ConnectionMode) (req : ConnectionRequest)
      (encode_some : ConnectionReply → Text) (nil : Text)
      → r.username ≡ some name
      → connection_mode (r.query (codes "mode")) ≡ some mode
      → ((c : ConnectionReply) → formats.encode_connection (some c) ≡ encoded (encode_some c))
      → formats.encode_connection none ≡ encoded nil
      → let asked = record req { mode = mode; username = name } in
        let connected =
          create_connection formats
            (some (data_client env (reliable d)))
            r
            (decoded req)
            (start s es) in
        (connected.0.response
          ≡ connection_reply encode_some nil (Opening.create_connection env d.id d.now asked s).1)
        × (connected.0.state ≡ (Opening.create_connection env d.id d.now asked s).0)
  unfolding create_connection convert_json_to_struct
  answer_connection_lem name mode req encode_some nil named mode_eq some_eq nil_eq =
      let asked = record req { mode = mode; username = name } in
      let x : Exchange (DataServer env.os) = record (start s es) {
        response = unsent (some text_plain);
      } in
      let connected =
        connection_answered formats encode_some nil x h refl some_eq nil_eq
          (Opening.create_connection env d.id d.now asked s) in
      (rw (named, mode_eq) connected.0, rw (named, mode_eq) connected.1)
