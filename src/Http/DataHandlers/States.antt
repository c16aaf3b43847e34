-- ===== src/Http/DataHandlers/States.antt =====
-- What the data handlers do to the state of the data service: at most one of its calls.
use mhserver.Common.{
  ℕ, ◌≡◌, ◌⊎◌, refl, Option, none, some, List, Text, codes, Outcome, ok, err, panic, blocked, ◌>>=◌,
  ◌>>◌, ◌∙◌, Method, then_on, inl, inr, Option-cases, arith,
}
use mhserver.Data.Errors.{DataError}
use mhserver.Data.Messages.{
  Directory, GetChunk, SaveChunk, ConnectionRequest, ConnectionReply, FilePart, FileInfo,
}
use mhserver.Data.Opening as Opening
use mhserver.Data.Transfer as Transfer
use mhserver.Data.Folders as Folders
use mhserver.Data.Server.{Env, DataServer}
use mhserver.Data.Service.{
  Event, creates_connection, gets_data, gets_sum, saves_data, gets_space, gets_files, creates_dir,
  removes_dir, step,
}
use mhserver.Http.{Errors, fresh, Decoded, decoded, empty_body, bad_body, convert_json_to_struct}
use mhserver.Http.Exchange.{
  Exchange, start, text_plain, Request, Encoded, encoded, encode_error, Handler, settle,
  service_error, or_service_error, set_content_type, put, del_content_type,
}
use mhserver.Http.DataHandlers.{
  DataFormats, encode, answer_connection, octets, connection_mode, create_connection, save_data,
  get_data, get_sum, get_files, get_available_disk_space, create_dir, remove_dir,
}
use mhserver.Http.DataHandlers.Service.{
  Draws, Delivery, delivered, not_sent, reply_lost, lost, remote, data_client, by_message,
}

module _ {S : Type 0} where
  -- A part of a handler that only writes its reply.
  abbrev Writes : {A : Type 0} → Handler S A → Type 0
  Writes h = (x : Exchange S) → (h x).0.state ≡ x.state

  or_service_error-Writes :
      {A B : Type 0} (func_name : Text) (v : Option Text ⊎ A) (k : A → Handler S B)
      → ((a : A) → Writes (k a))
      → Writes (or_service_error func_name v >>= k)
  unfolding service_error
  or_service_error-Writes func_name (inr a) k w x = w a x
  or_service_error-Writes func_name (inl message) k w x = refl

  last_service_error-Writes :
      {A : Type 0} (func_name : Text) (v : Option Text ⊎ A) → Writes (or_service_error func_name v)
  unfolding service_error
  last_service_error-Writes func_name (inr a) x = refl
  last_service_error-Writes func_name (inl message) x = refl

  encode-Writes : (func_name : Text) (e : Encoded) → Writes (encode {S = S} func_name e)
  unfolding encode
  encode-Writes func_name (encoded text) x = refl
  encode-Writes func_name (encode_error text) x = refl

  answer_connection-Writes :
      (formats : DataFormats) (v : Option Text ⊎ ConnectionReply)
      → Writes (answer_connection {S = S} formats v)
  unfolding answer_connection service_error
  answer_connection-Writes formats (inr conn) x =
      encode-Writes (codes "Handlers.CreateConnection.Marshal")
        (formats.encode_connection (some conn)) _
  answer_connection-Writes formats (inl message) x =
      encode-Writes (codes "Handlers.CreateConnection.Marshal") (formats.encode_connection none) _

module _ (env : Env) where
  -- As before, or after one call.
  abbrev pub Moved : DataServer env.os → DataServer env.os → Type 0
  Moved s t = (t ≡ s) ⊎ ((e : Event) × (t ≡ step env e s))

  settle_state :
      {A B : Type 0} (k : Option Text ⊎ A → Handler (DataServer env.os) B)
      (x : Exchange (DataServer env.os)) (t : DataServer env.os) (r : Outcome (Option Text) A)
      → ((v : Option Text ⊎ A) → Writes (k v))
      → (then_on k (settle x (t, r))).0.state ≡ t
  settle_state k x t (ok a) w = w (inr a) (record x { state = t })
  settle_state k x t (err e) w = w (inl e) (record x { state = t })
  settle_state k x t panic w = refl
  settle_state k x t blocked w = refl

  -- However a call is delivered, the state is as before or that after the call.
  moved :
      {A B : Type 0} (delivery : Delivery) (e : Event)
      (call : Method (DataServer env.os) DataError A)
      (k : Option Text ⊎ A → Handler (DataServer env.os) B) (x : Exchange (DataServer env.os))
      → (call x.state).0 ≡ step env e x.state
      → ((v : Option Text ⊎ A) → Writes (k v))
      → Moved x.state (then_on k (settle x (remote delivery call x.state))).0.state
  moved delivered e call k x same w =
      inr (e, settle_state k x (call x.state).0 (by_message (call x.state).1) w ∙ same)
  moved (not_sent text) e call k x same w = inl (settle_state k x x.state (err (some text)) w)
  moved (reply_lost text) e call k x same w =
      inr (e, settle_state k x (call x.state).0 (lost text (call x.state).1) w ∙ same)

  module _ (formats : DataFormats) (d : Draws) (query : Text → Text) (name : Text)
      (s : DataServer env.os) (es : Errors) where
    abbrev r : Request
    r = record { query = query; username = some name }

    abbrev dir : Directory
    dir = record { user = name; value = query (codes "dir") }

    abbrev x : Exchange (DataServer env.os)
    x = record (start s es) { response = record fresh { content_type = some text_plain } }

    pub create_connection-Moved :
        (body : Decoded ConnectionRequest)
        → Moved s (create_connection formats (some (data_client env d)) r body (start s es)).0.state
    unfolding create_connection convert_json_to_struct step
    create_connection-Moved (decoded req) =
        elim (Option-cases (connection_mode (query (codes "mode")))) [
          | inl unknown ↦ inl (ground (arith, unknown))
          | inr (mode, known) ↦
              let asked = record req { mode = mode; username = name } in
              rw known (
                moved d.delivery (creates_connection d.id d.now asked)
                  (Opening.create_connection env d.id d.now asked) (answer_connection formats) x
                  refl (answer_connection-Writes formats))
        ]
    create_connection-Moved empty_body = inl refl
    create_connection-Moved (bad_body text) = inl refl

    pub save_data-Moved :
        (body : Decoded FilePart)
        → Moved s (save_data formats (some (data_client env d)) r body (start s es)).0.state
    unfolding save_data convert_json_to_struct step
    save_data-Moved (decoded part) =
        let saving : SaveChunk = record { uuid = query (codes "connID"); part = some part } in
        moved d.delivery (saves_data d.now d.later saving)
          (Transfer.save_data env d.now d.later saving) (or_service_error (codes "data.SaveData")) x
          refl (last_service_error-Writes (codes "data.SaveData"))
    save_data-Moved empty_body = inl refl
    save_data-Moved (bad_body text) = inl refl

    pub get_data-Moved :
        Moved s (get_data formats (some (data_client env d)) r (start s es)).0.state
    unfolding get_data step
    get_data-Moved = elim (Option-cases (formats.atoi_u32 (query (codes "chunkID")))) [
      | inl bad ↦ inl (ground (arith, bad))
      | inr (n, numbered) ↦
          let chunk : GetChunk = record { uuid = query (codes "connID"); chunk_id = n } in
          let part_octets : FilePart → Handler (DataServer env.os) (Unit {0}) =
            λ p. octets p.chunk in
          rw numbered (
            moved d.delivery (gets_data d.now chunk) (Transfer.get_data env d.now chunk)
              (λ v. or_service_error (codes "data.GetData") v >>= part_octets) x refl
              (λ v. or_service_error-Writes (codes "data.GetData") v part_octets (λ p y. refl)))
    ]

    pub get_sum-Moved : Moved s (get_sum formats (some (data_client env d)) r (start s es)).0.state
    unfolding get_sum step
    get_sum-Moved = elim (Option-cases (formats.atoi_u32 (query (codes "chunkID")))) [
      | inl bad ↦ inl (ground (arith, bad))
      | inr (n, numbered) ↦
          let chunk : GetChunk = record { uuid = query (codes "connID"); chunk_id = n } in
          rw numbered (
            moved d.delivery (gets_sum d.now chunk) (Transfer.get_sum env d.now chunk)
              (λ v. or_service_error (codes "data.GetSum") v >>= octets) x refl
              (λ v. or_service_error-Writes (codes "data.GetSum") v octets (λ p y. refl)))
    ]

    pub get_files-Moved :
        Moved s (get_files formats (some (data_client env d)) r (start s es)).0.state
    unfolding get_files step
    get_files-Moved =
        let listing : List FileInfo → Handler (DataServer env.os) (Unit {0}) = λ files.
          set_content_type (codes "application/json")
          >> encode (codes "Handler.GetFiles.Marshal") (formats.encode_files files) in
        moved d.delivery (gets_files dir) (Folders.get_files env dir)
          (λ v. or_service_error (codes "data.GetFiles") v >>= listing) x refl
          (λ v. or_service_error-Writes (codes "data.GetFiles") v listing (λ files y.
            encode-Writes (codes "Handler.GetFiles.Marshal") (formats.encode_files files) _))

    pub available_space-Moved :
        Moved s (get_available_disk_space formats (some (data_client env d)) r (start s es)).0.state
    unfolding get_available_disk_space step
    available_space-Moved =
        let root : Directory = record { user = name; value = codes "" } in
        let printing : ℕ → Handler (DataServer env.os) (Unit {0}) = λ n. put (formats.print n) in
        moved d.delivery (gets_space root) (Folders.available_space env root)
          (λ v. or_service_error (codes "data.GetAvailableDiskSpace") v >>= printing) x refl
          (λ v.
            or_service_error-Writes (codes "data.GetAvailableDiskSpace") v printing (λ n y. refl))

    pub create_dir-Moved :
        Moved s (create_dir formats (some (data_client env d)) r (start s es)).0.state
    unfolding create_dir step
    create_dir-Moved =
        moved d.delivery (creates_dir dir) (Folders.create_dir env dir)
          (λ v. or_service_error (codes "data.CreateDir") v >>= (λ _. del_content_type)) x refl
          (λ v.
            or_service_error-Writes (codes "data.CreateDir") v (λ _. del_content_type)
              (λ a y. refl))

    pub remove_dir-Moved :
        Moved s (remove_dir formats (some (data_client env d)) r (start s es)).0.state
    unfolding remove_dir step
    remove_dir-Moved =
        moved d.delivery (removes_dir dir) (Folders.remove_dir env dir)
          (λ v. or_service_error (codes "data.RemoveDir") v >>= (λ _. del_content_type)) x refl
          (λ v.
            or_service_error-Writes (codes "data.RemoveDir") v (λ _. del_content_type)
              (λ a y. refl))
