-- ===== src/Http/Tests.antt =====
-- Responses to concrete errors, and the theorems on them.
use mhserver.Common.{
  ◌+◌, ◌-◌, ◌*◌, ltb, if◌then◌else◌, ℕ, ◌≡◌, refl, none, some, List, [], ◌∷◌, ◌++◌, Text, codes,
  replicate, inl,
}
use mhserver.Common.Dict.{text_eq}
use mhserver.Common.Int.{pos}
use mhserver.Common.{arith}
use mhserver.Os.Memory.{
  memory_os-HasFiles, memory_os-IsWorking, usable-memory_os, largest-memory_os,
}
use mhserver.Data.Errors.{not_enough_disk_space, message}
use mhserver.Data.Connections.{rdwr, rdonly}
use mhserver.Data.Messages.{ConnectionRequest, FilePart, FileInfo, GetChunk, SaveChunk, Directory}
use mhserver.Data.Opening
use mhserver.Data.Folders
use mhserver.Data.Transfer
use mhserver.Data.Sample.{env, server, whole_chunk, saving-CanSave}
use mhserver.Auth
use mhserver.Auth.Sample as AuthSample
use mhserver.Auth.{User, RegisterUser}
use mhserver.Http.{
  Response, Decoded, decoded, empty_body, bad_body, write, special_code, new_internal_http_error,
  new_external_http_error, handle_service_error, initial_errors, append_str, convert_json_to_struct,
}
use mhserver.Http.Replies.{handle_service_error_lem, unsent}
use mhserver.Http.Exchange.{sent, start, text_plain}
use mhserver.Http.DataHandlers.{
  answer_connection, create_connection, save_data, get_data, get_sum, get_files,
  get_available_disk_space, create_dir, remove_dir, connection_mode,
}
use mhserver.Http.DataHandlers.Service.{reliable, data_client}
use mhserver.Http.DataHandlers.Replies.{reply, octet_reply, file_list, connection_reply}
use mhserver.Http.DataHandlers.Answers.{transfer_replies, folder_replies, answer_connection_lem}
use mhserver.Http.DataHandlers.RoundTrip.{http_save-get}
use mhserver.Http.AccountHandlers.{login, register}
use mhserver.Http.AccountHandlers.Replies.{login_reply, register_reply, account_replies}
use mhserver.RateLimit.{Limiter, second, new_limiter, allow, reset_in}
use mhserver.RateLimit.Laws.{accepted}
use mhserver.RateLimit.Quota.{new_limiter-IsValid}
use mhserver.Http.Limits.{served, too_many_requests, with_rate_limit}
use mhserver.Http.Limits.Headers.{with_rate_limit_lem}
use mhserver.Http.Sample.{formats, query, bobs_request, draws}
use mhserver.Http.Bodies.{after, said, description-after}

http_runs : Unit {0}
unfolding write special_code new_internal_http_error new_external_http_error handle_service_error
    answer_connection append_str convert_json_to_struct after said message text_eq
http_runs = tt

abbrev plain : Response
plain = unsent (some text_plain)

not_a_status :
    handle_service_error (codes "f") none (initial_errors, plain) ≡ (initial_errors, plain)
unfolding http_runs
not_a_status = refl

full_disk_reply :
    (handle_service_error
      (codes "f")
      (some (message not_enough_disk_space))
      (initial_errors, plain)).1
    ≡ sent 413 text_plain (codes "not enough disk space")
unfolding http_runs
full_disk_reply =
    handle_service_error_lem (codes "f") not_enough_disk_space initial_errors (some text_plain) refl

abbrev bodies : List (Decoded ℕ)
bodies = bad_body (codes "x") ∷ decoded 3 ∷ empty_body ∷ bad_body (codes "y") ∷ []

first_description : initial_errors.bad_json_body.description ≡ codes "bad request json body"
unfolding http_runs
first_description = refl

description-after_example :
    (after bodies initial_errors).bad_json_body.description
    ≡ codes "bad request json body" ++ said bodies
unfolding http_runs
description-after_example =
    description-after bodies initial_errors b'b' (codes "ad request json body") first_description

abbrev two_a_minute : Limiter
two_a_minute = new_limiter (pos 2) (60 * second)

abbrev count_call : ℕ → ℕ × Text
count_call n = (n + 1, codes "pong")

with_rate_limit_lem_test :
    let r = with_rate_limit (codes "1") second count_call (two_a_minute, 0) in
    (r.0.1 ≡ (if ltb (accepted (codes "1") two_a_minute) 2 then 1 else 0))
    × (r.1 ≡ (
        if ltb (accepted (codes "1") two_a_minute) 2
        then served
            (pos 2)
            (pos (2 - (accepted (codes "1") two_a_minute + 1)))
            (reset_in (codes "1") r.0.0)
            (codes "pong")
        else too_many_requests (allow (codes "1") second two_a_minute).1.1))
with_rate_limit_lem_test =
    with_rate_limit_lem 2 (codes "1") second count_call two_a_minute 0
      (new_limiter-IsValid 2 (60 * second))

abbrev a_part : FilePart
a_part = record { chunk = whole_chunk; offset = 4 }

transfer_replies_example :
    let chunk : GetChunk = record { uuid = codes "|"; chunk_id = 1 } in
    let client = some (data_client env (reliable draws)) in
    let got = get_data formats client bobs_request (start server initial_errors) in
    let summed = get_sum formats client bobs_request (start server initial_errors) in
    let saved =
      save_data formats client bobs_request (decoded a_part) (start server initial_errors) in
    let saving : SaveChunk = record { uuid = codes "|"; part = some a_part } in
    (got.0.response
      ≡ reply (λ (p : FilePart). octet_reply p.chunk) (Transfer.get_data env 0 chunk server).1)
    × (got.0.state ≡ (Transfer.get_data env 0 chunk server).0)
    × (summed.0.response ≡ reply octet_reply (Transfer.get_sum env 0 chunk server).1)
    × (summed.0.state ≡ (Transfer.get_sum env 0 chunk server).0)
    × (saved.0.response
        ≡ reply
            (λ (_ : Unit {0}). unsent (some text_plain))
            (Transfer.save_data env 0 0 saving server).1)
    × (saved.0.state ≡ (Transfer.save_data env 0 0 saving server).0)
unfolding http_runs
transfer_replies_example =
    transfer_replies env draws formats bobs_request initial_errors refl server 1 a_part refl

folder_replies_example :
    let dir : Directory = record { user = codes "bob"; value = codes "/" } in
    let root : Directory = record { user = codes "bob"; value = codes "" } in
    let client = some (data_client env (reliable draws)) in
    let listed = get_files formats client bobs_request (start server initial_errors) in
    let counted =
      get_available_disk_space formats client bobs_request (start server initial_errors) in
    let made = create_dir formats client bobs_request (start server initial_errors) in
    let removed = remove_dir formats client bobs_request (start server initial_errors) in
    (listed.0.response
      ≡ reply
          (λ (files : List FileInfo). file_list (formats.encode_files files))
          (Folders.get_files env dir server).1)
    × (listed.0.state ≡ (Folders.get_files env dir server).0)
    × (counted.0.response
        ≡ reply
            (λ (n : ℕ). sent 200 text_plain (replicate n b'|'))
            (Folders.available_space env root server).1)
    × (counted.0.state ≡ (Folders.available_space env root server).0)
    × (made.0.response
        ≡ reply (λ (_ : Unit {0}). unsent none) (Folders.create_dir env dir server).1)
    × (made.0.state ≡ (Folders.create_dir env dir server).0)
    × (removed.0.response
        ≡ reply (λ (_ : Unit {0}). unsent none) (Folders.remove_dir env dir server).1)
    × (removed.0.state ≡ (Folders.remove_dir env dir server).0)
unfolding http_runs
folder_replies_example =
    folder_replies env draws formats bobs_request initial_errors refl server (codes "bob") refl

abbrev no_mode : ConnectionRequest
no_mode = record {
  username = [];
  mode = rdonly;
  directory = codes "/";
  filename = codes "c";
  size = 9;
}

abbrev with_mode : ConnectionRequest
with_mode = record no_mode { mode = rdwr; username = codes "bob" }

asks_to_save : connection_mode (query (codes "mode")) ≡ some rdwr
unfolding http_runs connection_mode
asks_to_save = refl

answer_connection_lem_example :
    let connected =
      create_connection formats
        (some (data_client env (reliable draws)))
        bobs_request
        (decoded no_mode)
        (start server initial_errors) in
    (connected.0.response
      ≡ connection_reply
          (λ _. codes "{}")
          (codes "null")
          (Opening.create_connection env 3 0 with_mode server).1)
    × (connected.0.state ≡ (Opening.create_connection env 3 0 with_mode server).0)
unfolding new_internal_http_error
answer_connection_lem_example =
    answer_connection_lem env draws formats bobs_request initial_errors refl server (codes "bob")
      rdwr no_mode (λ _. codes "{}") (codes "null") refl asks_to_save (λ c. refl) refl

http_save-get_example :
    let posted =
      save_data formats
        (some (data_client env (reliable draws)))
        bobs_request
        (decoded a_part)
        (start server initial_errors) in
    let got =
      get_data formats
        (some (data_client env (reliable draws)))
        bobs_request
        (start posted.0.state initial_errors) in
    (posted.0.response ≡ unsent (some text_plain)) × (got.0.response ≡ octet_reply whole_chunk)
unfolding http_runs saving-CanSave
http_save-get_example =
    http_save-get env formats memory_os-HasFiles memory_os-IsWorking draws draws 1 whole_chunk
      bobs_request initial_errors initial_errors server saving-CanSave
      (usable-memory_os (codes "/w/bob/files/a") server.world) (omega arith)
      (omega (arith, largest-memory_os)) (omega arith) (inl refl) refl refl refl

account_replies_example :
    let logged_in =
      login AuthSample.env 0 (decoded AuthSample.bob) (start AuthSample.service initial_errors) in
    let registered =
      register AuthSample.env []
        (decoded AuthSample.new_bob)
        (start AuthSample.service initial_errors) in
    (logged_in.0.response
      ≡ login_reply (Auth.login AuthSample.env 0 AuthSample.bob AuthSample.service).1)
    × (logged_in.0.state ≡ (Auth.login AuthSample.env 0 AuthSample.bob AuthSample.service).0)
    × (registered.0.response
        ≡ register_reply (Auth.register AuthSample.env [] AuthSample.new_bob AuthSample.service).1)
    × (registered.0.state
        ≡ (Auth.register AuthSample.env [] AuthSample.new_bob AuthSample.service).0)
unfolding new_internal_http_error
account_replies_example =
    account_replies AuthSample.env 0 b'b' b'k' (codes "ob") (codes "p") [] [] initial_errors
      AuthSample.service refl
