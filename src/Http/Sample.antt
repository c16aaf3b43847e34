-- ===== src/Http/Sample.antt =====
-- Formats and a request for the tests of the handlers.
use mhserver.Common.{none, some, Text, codes, length, replicate, ite}
use mhserver.Common.Dict.{text_eq}
use mhserver.Http.Exchange.{Request, encoded}
use mhserver.Http.DataHandlers.{DataFormats}
use mhserver.Http.DataHandlers.Service.{Draws, delivered}

-- Numbers are written in strokes.
abbrev pub formats : DataFormats
formats = record {
  atoi_u32 = λ t. some (length t);
  print = λ n. replicate n b'|';
  encode_connection = λ c. encoded (elim c [ none ↦ codes "null" | some _ ↦ codes "{}" ]);
  encode_files = λ files. encoded (replicate (length files) b'f');
}

-- The second chunk of the connection that saves, for bob.
abbrev pub query : Text → Text
query name =
    ite (text_eq.dec name (codes "mode")) (codes "RDWR")
      (ite (text_eq.dec name (codes "dir")) (codes "/") (codes "|"))

abbrev pub bobs_request : Request
bobs_request = record { query = query; username = some (codes "bob") }

abbrev pub draws : Draws
draws = record { now = 0; later = 0; id = 3; delivery = delivered }
