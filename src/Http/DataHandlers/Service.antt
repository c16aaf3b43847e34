-- ===== src/Http/DataHandlers/Service.antt =====
-- The data service as the handlers reach it: the client of the generated code (proto/data) passes the request
-- on, and an error comes back by its message. A panic of the service is handed on, and a call that the
-- service does not answer is not answered. The connection may fail on the way there or back.
use mhserver.Common.{ℕ, ◌*◌, Option, some, Text, Outcome, ok, err, panic, blocked, Method}
use mhserver.Data.Errors.{DataError, message}
use mhserver.Data.Server.{Env, DataServer}
use mhserver.Data.Opening.{create_connection}
use mhserver.Data.Transfer.{get_data, get_sum, save_data}
use mhserver.Data.Folders.{available_space, get_files, create_dir, remove_dir}
use mhserver.Http.Exchange.{Remote}
use mhserver.Http.DataHandlers.{DataClient}

-- The largest message that a client of grpc.NewClient receives, when it is not told otherwise: 4 MiB.
abbrev pub default_receive_limit : ℕ
default_receive_limit = 4 * 1024 * 1024

-- What becomes of a call on its way: the request and the reply are delivered; the request does not reach the
-- service (the server is away, or the request is larger than it receives); the reply is lost, or refused
-- as larger than the client receives. The caller then gets an error of gRPC with some text.
pub data Delivery : Type 0 where
  delivered : Delivery
  not_sent : Text → Delivery
  reply_lost : Text → Delivery

-- Readings of the clock, the identifier that is drawn, and the connection's part in the call.
pub record Draws : Type 0 where
  pub now : ℕ
  pub later : ℕ
  pub id : ℕ
  pub delivery : Delivery

-- A connection that delivers the call.
abbrev pub reliable : Draws → Draws
reliable d = record d { delivery = delivered }

abbrev pub by_message : {A : Type 0} → Outcome DataError A → Outcome (Option Text) A
by_message (ok a) = ok a
by_message (err e) = err (some (message e))
by_message panic = panic
by_message blocked = blocked

abbrev pub lost : {A : Type 0} → Text → Outcome DataError A → Outcome (Option Text) A
lost text (ok a) = err (some text)
lost text (err e) = err (some text)
lost text panic = panic
lost text blocked = err (some text)

abbrev pub remote : {S A : Type 0} → Delivery → Method S DataError A → Remote S A
remote delivered call s = ((call s).0, by_message (call s).1)
remote (not_sent text) call s = (s, err (some text))
remote (reply_lost text) call s = ((call s).0, lost text (call s).1)

module _ (env : Env) where
  abbrev pub data_client : Draws → DataClient (DataServer env.os)
  data_client d = record {
    create_connection = λ req. remote d.delivery (create_connection env d.id d.now req);
    save_data = λ chunk. remote d.delivery (save_data env d.now d.later chunk);
    get_data = λ chunk. remote d.delivery (get_data env d.now chunk);
    get_sum = λ chunk. remote d.delivery (get_sum env d.now chunk);
    get_files = λ dir. remote d.delivery (get_files env dir);
    available_space = λ dir. remote d.delivery (available_space env dir);
    create_dir = λ dir. remote d.delivery (create_dir env dir);
    remove_dir = λ dir. remote d.delivery (remove_dir env dir);
  }
