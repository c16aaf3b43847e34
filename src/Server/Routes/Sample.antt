-- ===== src/Server/Routes/Sample.antt =====
-- A main server over the file system and the database in memory, with tokens of one letter behind the name.
use mhserver.Common.{ℕ, ◌-◌, ◌*◌, ◌≡◌, refl, some, [], ◌∷◌, ◌++◌, Text, codes, arith, ap, ltb}
use mhserver.Common.Dict.{text_eq}
use mhserver.Common.Int.{pos}
use mhserver.Common.Time.{second}
use mhserver.Os.Memory.{memory_os}
use mhserver.RateLimit.{Limiter, new_limiter}
use mhserver.Data.Semaphore.{Semaphore}
use mhserver.Data.Server.{DataServer}
use mhserver.Data.Sample as DataSample
use mhserver.Auth.Sample.{env, service}
use mhserver.Auth.Middleware.{map_claims}
use mhserver.Http.{initial_errors, empty_body, write_body}
use mhserver.Http.Sample.{formats, query}
use mhserver.Server.Routes.{Web, WebRequest, MainState}
use mhserver.Server.Routes.SignedIn.{Verifies}

-- The name before the one letter of the signature.
abbrev signed_name : Text → Text
signed_name [] = []
signed_name (c ∷ []) = []
signed_name (c ∷ (d ∷ t)) = c ∷ signed_name (d ∷ t)

signed_name_lem : (name : Text) → signed_name (name ++ codes "s") ≡ name
signed_name_lem [] = refl
signed_name_lem (c ∷ []) = refl
signed_name_lem (c ∷ (d ∷ t)) = ap (λ rest. c ∷ rest) (signed_name_lem (d ∷ t))

abbrev pub web : Web ℕ
web = record {
  formats = formats;
  decode_connection = λ body. empty_body;
  decode_part = λ body. empty_body;
  decode_user = λ body. empty_body;
  decode_register_user = λ body. empty_body;
  parse = λ token. map_claims (some (signed_name token));
  ns_allow = λ n. (n - 1, ltb 0 n);
  http_error = λ text code w. write_body text w;
  version_text = codes "1";
}

pub web-Verifies : (now : ℕ) → Verifies env web (codes "s") now
web-Verifies now = record {
  verified = λ claims token e begun unexpired. ground (arith, signed_name_lem claims.name);
}

abbrev pub limiter : ℕ → Limiter
limiter n = new_limiter (pos n) (60 * second)

abbrev pub fresh_server : MainState env (DataServer memory_os) ℕ
fresh_server = record {
  auth_limiter = limiter 10;
  data_limiter = limiter 100;
  ns_limiter = 10;
  services = record { accounts = service; storage = DataSample.server; errors = initial_errors };
}

abbrev pub makes_dir : WebRequest
makes_dir = record {
  authorization = codes "Bearer bobs";
  forwarded_for = codes "1";
  query = query;
  body = [];
  now = 2 * second;
  later = 2 * second;
  salt = [];
}

abbrev pub places : Semaphore
places = record { capacity = 2; in_use = 0 }
