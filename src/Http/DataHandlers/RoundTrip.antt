-- ===== src/Http/DataHandlers/RoundTrip.antt =====
-- A chunk that is posted over HTTP is what a later request gets.
use mhserver.Common.{ℕ, ◌+◌, ◌*◌, ◌≤◌, ◌≡◌, ◌∙◌, ap, some, List, codes, length, ◌⊎◌}
use mhserver.Os.{HasFiles, IsWorking}
use mhserver.Common.Words.{max_alloc}
use mhserver.Data.Server.{Env, DataServer}
use mhserver.Data.Messages.{FilePart}
use mhserver.Data.Transfer
use mhserver.Data.Transfer.RoundTrip.{CanSave, save_data-get_data}
use mhserver.Http.{Errors, decoded}
use mhserver.Http.Replies.{IsInternal, unsent}
use mhserver.Http.Exchange.{Request, start, text_plain}
use mhserver.Http.DataHandlers.{DataFormats, save_data, get_data}
use mhserver.Http.DataHandlers.Service.{Draws, reliable, data_client, default_receive_limit}
use mhserver.Http.DataHandlers.Replies.{reply, octet_reply}
use mhserver.Http.DataHandlers.Answers.{transfer_replies}

module _ (env : Env) (formats : DataFormats) where
  -- On a working device, and with both calls of the data service delivered, a chunk that can be saved
  -- is posted with an empty reply and no error, and a later request for its number gets just its bytes,
  -- if it is a whole chunk or the file ends with it. The chunk is at least 128 bytes smaller than what a
  -- gRPC client receives unless it is told otherwise.
  pub http_save-get :
      (laws : HasFiles env.os)
      → (works : IsWorking env.os laws)
      → (d d' : Draws) (k : ℕ) (bytes : List ℕ) (r : Request) (es es' : Errors)
        (s : DataServer env.os)
      → (h : CanSave env (r.query (codes "connID")) k bytes s)
      → laws.IsReadable h.handle s.world × laws.IsWritable h.handle s.world
      → h.conn.file.chunks.chunk_size ≤ max_alloc
      → h.conn.file.chunks.chunk_size * k + length bytes ≤ works.largest
      → length bytes + 128 ≤ default_receive_limit
      → let size = h.conn.file.chunks.chunk_size in
        (length bytes ≡ size) ⊎ (length (laws.contents h.handle s.world) ≤ size * k + length bytes)
        → formats.atoi_u32 (r.query (codes "chunkID")) ≡ some k
        → IsInternal es.data_internal
        → IsInternal es'.data_internal
        → let part : FilePart = record { chunk = bytes; offset = size * k } in
          let posted =
            save_data formats (some (data_client env (reliable d))) r (decoded part) (start s es) in
          let got =
            get_data formats (some (data_client env (reliable d'))) r (start posted.0.state es') in
          (posted.0.response ≡ unsent (some text_plain)) × (got.0.response ≡ octet_reply bytes)
  http_save-get laws works d d' k bytes r es es' s h usable made inside small ends numbered usual
        usual' =
      let size = h.conn.file.chunks.chunk_size in
      let part : FilePart = record { chunk = bytes; offset = size * k } in
      let (saved, back, _, _) =
        save_data-get_data env laws works d.now d.later d'.now (r.query (codes "connID")) k bytes s
          h usable made inside ends in
      let (_, _, _, _, response, state) =
        transfer_replies env d formats r es usual s k part numbered in
      let posted =
        save_data formats (some (data_client env (reliable d))) r (decoded part) (start s es) in
      let (got, _, _, _, _, _) =
        transfer_replies env d' formats r es' usual' posted.0.state k part numbered in
      (
        response ∙ ap (reply (λ (_ : Unit {0}). unsent (some text_plain))) saved,
        got
            ∙ ap
                (λ (t : DataServer env.os).
                  reply (λ (p : FilePart). octet_reply p.chunk)
                    (Transfer.get_data env d'.now
                      (record { uuid = r.query (codes "connID"); chunk_id = k }) t).1)
                state
            ∙ ap (reply (λ (p : FilePart). octet_reply p.chunk)) back,
      )
